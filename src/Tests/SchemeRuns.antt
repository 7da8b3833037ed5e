-- ===== src/Tests/SchemeRuns.antt =====
-- The scheme of Site-Manager and its registrations, with the table as the scheme.
use drnavigator.Common.{
  String, Bool, true, ◌≡◌, ◌⊎◌, refl, none, some, List, [], ◌∷◌, Result, ok, err, GoError, inl, inr,
  ◌==◌, ◌||◌, if◌then◌else◌, Result-cases, ap, sym,
}
use drnavigator.Common.Action.{Action}
use drnavigator.Config.{Config, default_config}
use drnavigator.Common.Num.{pos}
use drnavigator.Utils.{contains}
use drnavigator.Cluster.{KubeClient}
use drnavigator.Tests.ResourceRuns.{cr_v3, sm}
use drnavigator.Start.{Platform, Parts, register_controllers, register_webhooks}
use drnavigator.Start.Schemes.{GroupVersionKind, GoType, GroupVersion, SchemeCalls, init_scheme}
use drnavigator.Start.Schemes.Table.{
  Entry, IsLike, kinds_of, put_all, close, table_calls, find, put, is_clear,
}
use drnavigator.Start.Schemes.Complete.{IsCompatible, table_of}
use drnavigator.Start.Schemes.Initial.{IsScheme, init_scheme_ends}
use drnavigator.Start.Setup.{Builders, register}
use drnavigator.Start.Setup.Accepted.{IsRuntime, init_scheme-register}
use drnavigator.Tests.StartRuns.{cmd, files, codecs}

-- The kinds that every version has.
abbrev reserved : String → Bool
reserved kind =
    kind == "WatchEvent"
    || kind == "ListOptions"
    || kind == "GetOptions"
    || kind == "DeleteOptions"
    || kind == "CreateOptions"
    || kind == "UpdateOptions"
    || kind == "PatchOptions"

abbrev entries : List Entry → List Entry
entries table = table

alike : {A : Type 0} (m : Action (List Entry) String A) → IsLike entries m m
alike m = record {
  ends = λ s. elim (Result-cases (m s).0) [
    | inl (e, fails) ↦ inr ((e, fails), e, fails)
    | inr (a, works) ↦ inl (a, works, works, refl)
  ];
}

table-IsScheme : IsScheme (table_calls reserved) entries reserved (λ group. true) []
unfolding table_calls
table-IsScheme = record {
  client_go = (refl, refl);
  puts = λ k t own. alike _;
  closes = λ gv own. alike _;
  builds = λ gv types own. alike _;
}

-- With its defaults the program starts; in the group qubership.org they collide.
filled :
    init_scheme (table_calls reserved) (ok default_config) []
    ≡ (ok default_config, table_of default_config)
unfolding init_scheme table_calls drnavigator.Start.Schemes.add_to_scheme_v1 put find close is_clear
    drnavigator.Start.Schemes.add_to_scheme_v2 drnavigator.Start.Schemes.add_to_scheme_v3
    drnavigator.Start.Schemes.add_to_scheme put_all
filled = refl

colliding : Config
colliding = record default_config { cr_group = "qubership.org" }

collides : (init_scheme (table_calls reserved) (ok colliding) []).0 ≡ err "double registration"
unfolding init_scheme table_calls drnavigator.Start.Schemes.add_to_scheme_v1 put find colliding
    close is_clear drnavigator.Start.Schemes.add_to_scheme_v2
    drnavigator.Start.Schemes.add_to_scheme_v3 drnavigator.Start.Schemes.add_to_scheme put_all
collides = refl

abbrev read_config : Result String Config
read_config = ok default_config

init_scheme_ends_example :
    ((env : Config) × (read_config ≡ ok env)
      × IsCompatible reserved env
      × ((init_scheme (table_calls reserved) read_config []).0 ≡ ok env)
      × ((init_scheme (table_calls reserved) read_config []).1 ≡ table_of env))
    ⊎ ((¬ ((env : Config) × (read_config ≡ ok env) × IsCompatible reserved env))
        × (e : String) × ((init_scheme (table_calls reserved) read_config []).0 ≡ err e))
init_scheme_ends_example =
    init_scheme_ends (table_calls reserved) entries reserved (λ group. true) [] table-IsScheme refl
      refl refl read_config (λ env read. refl)

-- A manager with a scheme and its controllers.
record Runtime : Type 0 where
  scheme : List Entry
  controllers : List String

abbrev accept : List GroupVersionKind → Runtime → Runtime → GoError × Runtime
accept [] old new = (some "no kind is registered for the type", old)
accept (k ∷ []) old new = (none, new)
accept (k ∷ l ∷ kinds) old new = (some "multiple kinds are registered for the type", old)

abbrev builders : Builders Runtime
builders = record {
  controller_managed_by = λ t name w.
      if contains (λ n m. n == m) w.controllers name
      then (some "the name of the controller is taken", w)
      else accept (kinds_of w.scheme t) w (record w { controllers = name ∷ w.controllers });
  webhook_managed_by = λ t w. accept (kinds_of w.scheme t) w w;
}

builders-IsRuntime : IsRuntime builders (λ w. w.scheme) (λ w. w.controllers)
builders-IsRuntime = record {
  controllers = λ t name w k shown fresh. rw fresh (rw shown (refl, refl, refl));
  webhooks = λ t w k shown. rw shown (refl, refl);
}

abbrev kube : KubeClient Runtime
kube = record {
  list_legacy = λ w. (record { found = []; error = none }, w);
  get_legacy = λ namespace name w. (record { object = cr_v3 none; error = none }, w);
  update_legacy_status = λ x w. (none, w);
  list_site_managers = λ w. (record { found = []; error = none }, w);
  get_site_manager = λ namespace name w. (record { object = sm "pg" "u"; error = none }, w);
  update_site_manager_status = λ x w. (none, w);
}

abbrev platform : Platform Runtime (Unit {0})
platform = record {
  in_cluster_config = λ w. (ok tt, w);
  build_config = λ path w. (ok tt, w);
  split_host_port = λ address. ok ("", "443");
  atoi = λ s. ok (pos 443);
  new_manager = λ config options w. (ok kube, w);
  register = register builders;
  new_watcher = λ w. (none, w);
}

abbrev parts : Parts Runtime
parts = record {
  make_client = λ tls timeout. record {
    check_url = λ url. none;
    do_request = λ req w. (record { response = none; error = some "refused" }, w);
  };
  codecs = codecs;
  outside = record {
    read_file = λ path w. (ok "secret", w);
    add_watch = λ path w. (none, w);
    close = λ w. w;
    review = λ token w. (err "refused", w);
  };
  current_token = λ w. "secret";
}

abbrev runtime : Runtime
runtime = record { scheme = table_of default_config; controllers = [] }

init_scheme-register_example :
    ((register_controllers platform parts cmd files default_config runtime).0 ≡ ok tt)
    × ((register_webhooks platform parts cmd files default_config runtime).0 ≡ ok tt)
init_scheme-register_example =
    init_scheme-register (table_calls reserved) entries reserved (λ group. true) [] table-IsScheme
      refl refl refl read_config (λ env read. refl) platform parts cmd files default_config builders
      (λ w. w.scheme) (λ w. w.controllers) runtime runtime (ap (λ p. p.0) filled) refl
      builders-IsRuntime (sym (ap (λ p. p.1) filled)) refl refl
