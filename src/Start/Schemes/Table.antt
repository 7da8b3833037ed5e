-- ===== src/Start/Schemes/Table.antt =====
-- What the calls on a scheme document, as a table of the types that were registered.
use drnavigator.Common.{
  String, Bool, true, false, Option, none, some, ◌≡◌, ◌⊎◌, List, [], ◌∷◌, Result, ok, err, ◌==◌,
  ◌&&◌, if◌then◌else◌,
}
use drnavigator.Common.Action.{Action, ◌>>◌, pure}
use drnavigator.Start.Schemes.{GroupVersion, GroupVersionKind, with_kind, GoType, Step, SchemeCalls}

-- A kind that a type is registered under.
pub record Entry : Type 0 where
  pub at : GroupVersionKind
  pub type : GoType

abbrev pub entry : String → String → String → GoType → Entry
entry g v k t = record { at = record { group = g; version = v; kind = k }; type = t }

abbrev pub same_kind : GroupVersionKind → GroupVersionKind → Bool
same_kind k l = k.version == l.version && (k.kind == l.kind && k.group == l.group)

abbrev pub same_type : GoType → GoType → Bool
same_type t u = t.path == u.path && t.name == u.name

unfoldable pub find : List Entry → GroupVersionKind → Option GoType
find [] k = none
find (e ∷ table) k = if same_kind e.at k then some e.type else find table k

-- The kinds that a type is registered under.
unfoldable pub kinds_of : List Entry → GoType → List GroupVersionKind
kinds_of [] t = []
kinds_of (e ∷ table) t =
    let rest = kinds_of table t in if same_type e.type t then e.at ∷ rest else rest

-- A type is not registered under a kind of another.
unfoldable pub put : GroupVersionKind → GoType → Step (List Entry)
put k t table = elim (find table k) [
  | none ↦ (ok tt, record { at = k; type = t } ∷ table)
  | some u ↦ if same_type u t then (ok tt, table) else (err "double registration", table)
]

unfoldable pub put_all : GroupVersion → List GoType → Step (List Entry)
put_all gv [] = pure tt
put_all gv (t ∷ types) = do put (with_kind gv t.name) t; put_all gv types

-- The types that every version has are registered under the reserved kinds, so that no other type can
-- have one of them.
unfoldable pub is_clear : (String → Bool) → GroupVersion → List Entry → Bool
is_clear reserved gv [] = true
is_clear reserved gv (e ∷ table) =
    let rest = is_clear reserved gv table in
    if e.at.version == gv.version && (reserved e.at.kind && e.at.group == gv.group)
    then false
    else rest

unfoldable pub close : (String → Bool) → GroupVersion → Step (List Entry)
close reserved gv table =
    if is_clear reserved gv table then (ok tt, table) else (err "double registration", table)

-- The table as a scheme. The types of client-go have other groups.
unfoldable pub table_calls : (String → Bool) → SchemeCalls (List Entry)
table_calls reserved = record {
  client_go = pure tt;
  add_known_type_with_name = put;
  add_to_group_version = close reserved;
  builder_add_to_scheme = λ gv types. do
    put_all gv types
    close reserved gv;
}

module _ {S A : Type 0} (entries : S → List Entry) where
  -- Two calls end alike, and the table of the one is that of the other.
  abbrev pub EndAlike : Result String A × S → Result String A × List Entry → Type 0
  EndAlike p q =
      ((a : A) × (p.0 ≡ ok a) × (q.0 ≡ ok a) × (entries p.1 ≡ q.1))
      ⊎ (((e : String) × (p.0 ≡ err e)) × (e : String) × (q.0 ≡ err e))

  pub record IsLike (m : Action S String A) (n : Action (List Entry) String A) : Type 0 where
    pub ends : (s : S) → EndAlike (m s) (n (entries s))
