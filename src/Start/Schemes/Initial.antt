-- ===== src/Start/Schemes/Initial.antt =====
-- `init` of main.go on any scheme whose calls do what they document.
use mathlib.Core.Path.{subst}
use drnavigator.Common.{
  String, Bool, true, false, ◌≡◌, ◌⊎◌, List, [], Result, ok, err, arith, inl, inr, refl,
}
use drnavigator.Common.Action.{Action, ◌>>◌, pure, continue}
use drnavigator.Config.{Config}
use drnavigator.Start.Schemes.{
  GroupVersion, GroupVersionKind, with_kind, cr_v1, cr_v2, cr_v3, cr_list_v1, cr_list_v2,
  cr_list_v3, GoType, SchemeCalls, add_to_scheme_v1, add_to_scheme_v2, add_to_scheme_v3,
  add_to_scheme, init_scheme,
}
use drnavigator.Start.Schemes.Table.{Entry, EndAlike, IsLike, put, put_all, close, table_calls}
use drnavigator.Start.Schemes.Complete.{IsCompatible, table_of, init_cases}

-- What the libraries document of a scheme: in the groups that are the program's own, `entries` shows
-- what was registered, and the calls do what the table does. The types of client-go are added to a
-- new scheme without an error, and have other groups.
pub record IsScheme {S : Type 0} (calls : SchemeCalls S) (entries : S → List Entry)
    (reserved own : String → Bool) (new : S) : Type 0 where
  pub client_go : ((calls.client_go new).0 ≡ ok tt) × (entries (calls.client_go new).1 ≡ [])
  pub puts :
      (k : GroupVersionKind) (t : GoType)
      → own k.group ≡ true
      → IsLike entries (calls.add_known_type_with_name k t) (put k t)
  pub closes :
      (gv : GroupVersion)
      → own gv.group ≡ true
      → IsLike entries (calls.add_to_group_version gv) (close reserved gv)
  pub builds :
      (gv : GroupVersion) (types : List GoType)
      → own gv.group ≡ true
      → IsLike entries
          (calls.builder_add_to_scheme gv types)
          (put_all gv types >> close reserved gv)

module _ {S A B : Type 0} (entries : S → List Entry) where
  >>-IsLike :
      (m : Action S String A) (m' : Action S String B) (n : Action (List Entry) String A)
      (n' : Action (List Entry) String B)
      → IsLike entries m n
      → IsLike entries m' n'
      → IsLike entries (m >> m') (n >> n')
  >>-IsLike m m' n n' first second = record {
    ends = λ s. elim (first.ends s) [
      | inl (a, good, good', same) ↦
          let later =
            subst (λ (table : List Entry). EndAlike entries (m' (m s).1) (n' table)) same
              (second.ends (m s).1) in
          rw (good, good', continue) later
      | inr (fails, e', bad') ↦
          let (e, bad) = fails in inr ((e, rw (bad, continue) refl), e', rw (bad', continue) refl)
    ];
  }

module _ {S : Type 0} (calls : SchemeCalls S) (entries : S → List Entry)
    (reserved own : String → Bool) (new : S) (law : IsScheme calls entries reserved own new)
    (ours : own "qubership.org" ≡ true) (env : Config) (theirs : own env.cr_group ≡ true) where
  version-IsLike :
      (version : String) (t u : GoType)
      → let gv : GroupVersion = record { group = env.cr_group; version = version } in
        IsLike entries
          (calls.add_known_type_with_name (with_kind gv env.cr_kind) t
            >> (calls.add_known_type_with_name (with_kind gv env.cr_kind_list) u
                >> calls.add_to_group_version gv))
          (put (with_kind gv env.cr_kind) t
            >> (put (with_kind gv env.cr_kind_list) u >> close reserved gv))
  version-IsLike version t u =
      >>-IsLike entries _ _ _ _ (law.puts _ _ theirs)
        (>>-IsLike entries _ _ _ _ (law.puts _ _ theirs) (law.closes _ theirs))

  v1-IsLike :
      IsLike entries (add_to_scheme_v1 calls env) (add_to_scheme_v1 (table_calls reserved) env)
  unfolding add_to_scheme_v1 table_calls
  v1-IsLike = version-IsLike "v1" cr_v1 cr_list_v1

  v2-IsLike :
      IsLike entries (add_to_scheme_v2 calls env) (add_to_scheme_v2 (table_calls reserved) env)
  unfolding add_to_scheme_v2 table_calls
  v2-IsLike = version-IsLike "v2" cr_v2 cr_list_v2

  v3-IsLike :
      IsLike entries (add_to_scheme_v3 calls env) (add_to_scheme_v3 (table_calls reserved) env)
  unfolding add_to_scheme_v3 table_calls
  v3-IsLike = version-IsLike "v3" cr_v3 cr_list_v3

  own-IsLike : IsLike entries (add_to_scheme calls) (add_to_scheme (table_calls reserved))
  unfolding add_to_scheme table_calls
  own-IsLike = law.builds _ _ ours

  pure-IsLike : IsLike entries (pure env) (pure env)
  pure-IsLike = record { ends = λ s. inl (env, refl, refl, refl) }

  all-IsLike :
      IsLike entries
        (add_to_scheme_v1 calls env
          >> (add_to_scheme_v2 calls env
              >> (add_to_scheme_v3 calls env >> (add_to_scheme calls >> pure env))))
        (add_to_scheme_v1 (table_calls reserved) env
          >> (add_to_scheme_v2 (table_calls reserved) env
              >> (add_to_scheme_v3 (table_calls reserved) env
                  >> (add_to_scheme (table_calls reserved) >> pure env))))
  all-IsLike = >>-IsLike entries _ _ _ _ v1-IsLike (
      >>-IsLike entries _ _ _ _ v2-IsLike
        (>>-IsLike entries _ _ _ _ v3-IsLike (>>-IsLike entries _ _ _ _ own-IsLike pure-IsLike)))

module _ {S : Type 0} (calls : SchemeCalls S) (entries : S → List Entry)
    (reserved own : String → Bool) (new : S) (law : IsScheme calls entries reserved own new)
    (ours : own "qubership.org" ≡ true) (free : reserved "SiteManager" ≡ false)
    (free_list : reserved "SiteManagerList" ≡ false) where
  init_scheme-EndAlike :
      (env : Config)
      → own env.cr_group ≡ true
      → EndAlike entries
          (init_scheme calls (ok env) new)
          (init_scheme (table_calls reserved) (ok env) [])
  unfolding init_scheme table_calls
  init_scheme-EndAlike env theirs =
      let (added, none_yet) = law.client_go in
      let rest = all-IsLike calls entries reserved own new law ours env theirs in
      let joined = rw none_yet at (rest.ends (calls.client_go new).1) in rw (added, continue) joined

  -- Let the scheme do what its libraries document, and the group of the environment be of no other
  -- library. `init` returns exactly if the environment is read and its kinds are compatible: they
  -- differ, none is one that every version has, and in the group qubership.org they are not those of
  -- the resource of that group. The scheme then has the types of the three legacy versions under the
  -- kinds of the environment, and those of qubership.org under their names. Otherwise it panics.
  pub init_scheme_ends :
      (init_config : Result String Config)
      → ((env : Config) → init_config ≡ ok env → own env.cr_group ≡ true)
      → ((env : Config) × (init_config ≡ ok env)
          × IsCompatible reserved env
          × ((init_scheme calls init_config new).0 ≡ ok env)
          × (entries (init_scheme calls init_config new).1 ≡ table_of env))
        ⊎ ((¬ ((env : Config) × (init_config ≡ ok env) × IsCompatible reserved env))
            × (e : String) × ((init_scheme calls init_config new).0 ≡ err e))
  unfolding init_scheme
  init_scheme_ends (err e) theirs =
      inr (λ h. let (env, same, c) = h in absurd (ground arith), e, refl)
  init_scheme_ends (ok env) theirs = elim (init_cases reserved env free free_list) [
    | inl (fits, table) ↦ elim (init_scheme-EndAlike env (theirs env refl)) [
      | inl (a, good, good', same) ↦ inl (env, refl, fits, ground arith, ground arith)
      | inr (bad, e, bad') ↦ absurd (ground arith)
    ]
    | inr (unfit, fails) ↦ elim (init_scheme-EndAlike env (theirs env refl)) [
      | inl (a, good, good', same) ↦ absurd (ground arith)
      | inr ((e, bad), e', bad') ↦ inr (
        λ h.
            let (env', same, c) = h in
            let one : env' ≡ env = ground arith in unfit (subst (IsCompatible reserved) one c),
        e,
        bad,
      )
    ]
  ]
