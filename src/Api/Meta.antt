-- ===== src/Api/Meta.antt =====
-- The parts of `metav1.TypeMeta` and `metav1.ObjectMeta` that the sources read.
use drnavigator.Common.{String}

pub record TypeMeta : Type 0 where
  pub api_version : String
  pub kind : String

pub record ObjectMeta : Type 0 where
  pub name : String
  pub namespace : String
  pub uid : String
