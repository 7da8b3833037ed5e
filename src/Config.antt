-- ===== src/Config.antt =====
-- site-manager/config/config.go: the settings, one field for each variable of the environment. The
-- library `envconfig` reads them and puts in the defaults of the tags, which are `default_config`.
use drnavigator.Common.{String, Bool, false}
use drnavigator.Common.Num.{ℤ, pos}

pub record Config : Type 0 where
  pub debug : Bool
  pub sm_config_file : String
  pub kubeconfig_file : String
  pub pod_namespace : String
  pub http_scheme : String
  pub https_enabled : Bool
  pub front_http_auth : Bool
  pub back_http_auth : Bool
  pub sm_ca_cert : String
  pub cr_group : String
  pub cr_kind : String
  pub cr_kind_list : String
  pub post_request_timeout : ℤ
  pub get_request_timeout : ℤ

abbrev pub default_config : Config
default_config = record {
  debug = false;
  sm_config_file = "";
  kubeconfig_file = "";
  pod_namespace = "site-manager";
  http_scheme = "http://";
  https_enabled = false;
  front_http_auth = false;
  back_http_auth = false;
  sm_ca_cert = "True";
  cr_group = "legacy.qubership.org";
  cr_kind = "SiteManager";
  cr_kind_list = "SiteManagerList";
  post_request_timeout = pos 30;
  get_request_timeout = pos 10;
}
