-- ===== src/Start/Schemes/Complete.antt =====
-- When `init` of main.go returns, and what the scheme has then.
use drnavigator.Common.{
  String, Bool, true, false, ◌≡◌, ◌≢◌, ◌⊎◌, List, [], ◌∷◌, ok, err, arith, ◌==◌, ◌&&◌, ◌||◌, inl,
  inr, eq_iff, eq_refl, Bool-cases, refl,
}
use drnavigator.Common.Action.{◌>>◌, pure, continue}
use drnavigator.Config.{Config}
use drnavigator.Start.Schemes.{
  add_to_scheme_v1, add_to_scheme_v2, add_to_scheme_v3, add_to_scheme, init_scheme, cr_v1,
  cr_list_v1, cr_v2, cr_list_v2, cr_v3, cr_list_v3, site_manager_type, site_manager_list_type,
}
use drnavigator.Start.Schemes.Table.{Entry, entry, find, put, put_all, is_clear, close, table_calls}

-- The tables after each legacy version, and after `init`.
abbrev table_v1 : Config → List Entry
table_v1 env =
    entry env.cr_group "v1" env.cr_kind_list cr_list_v1
    ∷ entry env.cr_group "v1" env.cr_kind cr_v1
    ∷ []

abbrev table_v2 : Config → List Entry
table_v2 env =
    entry env.cr_group "v2" env.cr_kind_list cr_list_v2
    ∷ entry env.cr_group "v2" env.cr_kind cr_v2
    ∷ table_v1 env

abbrev table_v3 : Config → List Entry
table_v3 env =
    entry env.cr_group "v3" env.cr_kind_list cr_list_v3
    ∷ entry env.cr_group "v3" env.cr_kind cr_v3
    ∷ table_v2 env

abbrev pub table_of : Config → List Entry
table_of env =
    entry "qubership.org" "v3" "SiteManagerList" site_manager_list_type
    ∷ entry "qubership.org" "v3" "SiteManager" site_manager_type
    ∷ table_v3 env

-- The kinds of the environment differ, none is one that every version has, and in the group
-- qubership.org they are not those of the resource of that group.
abbrev pub IsCompatible : (String → Bool) → Config → Type 0
IsCompatible reserved env =
    (env.cr_kind ≢ env.cr_kind_list)
    × (reserved env.cr_kind ≡ false)
    × (reserved env.cr_kind_list ≡ false)
    × (env.cr_group ≡ "qubership.org"
        → (env.cr_kind ≢ "SiteManager")
          × (env.cr_kind ≢ "SiteManagerList")
          × (env.cr_kind_list ≢ "SiteManager")
          × (env.cr_kind_list ≢ "SiteManagerList"))

module _ (reserved : String → Bool) (env : Config) where
  -- The kinds of the environment cannot be those of one version.
  clash : Bool
  clash = env.cr_kind == env.cr_kind_list || reserved env.cr_kind || reserved env.cr_kind_list

  -- A kind is one of the resource of qubership.org.
  taken : String → Bool
  taken kind =
      env.cr_group == "qubership.org" && (kind == "SiteManager" || kind == "SiteManagerList")

  add_to_scheme_v1-table :
      clash ≡ false → add_to_scheme_v1 (table_calls reserved) env [] ≡ (ok tt, table_v1 env)
  unfolding clash add_to_scheme_v1 find put is_clear close table_calls
  add_to_scheme_v1-table right = ground arith

  add_to_scheme_v2-table :
      clash ≡ false
      → add_to_scheme_v2 (table_calls reserved) env (table_v1 env) ≡ (ok tt, table_v2 env)
  unfolding clash add_to_scheme_v2 find put is_clear close table_calls
  add_to_scheme_v2-table right = ground arith

  add_to_scheme_v3-table :
      clash ≡ false
      → add_to_scheme_v3 (table_calls reserved) env (table_v2 env) ≡ (ok tt, table_v3 env)
  unfolding clash add_to_scheme_v3 find put is_clear close table_calls
  add_to_scheme_v3-table right = ground arith

  init_clash :
      clash ≡ true → (init_scheme (table_calls reserved) (ok env) []).0 ≡ err "double registration"
  unfolding clash init_scheme add_to_scheme_v1 find put is_clear close table_calls
  init_clash wrong = ground (arith, eq_refl env.cr_group)

  clash_lem : clash ≡ true → ¬ IsCompatible reserved env
  unfolding clash
  clash_lem wrong = λ h. ground (arith, eq_iff env.cr_kind env.cr_kind_list)

  taken_lem : (taken env.cr_kind || taken env.cr_kind_list) ≡ true → ¬ IsCompatible reserved env
  unfolding taken
  taken_lem wrong = λ h.
      let (b, r, rl, c) = h in
      ground (
        arith,
        eq_iff env.cr_group "qubership.org",
        eq_iff env.cr_kind "SiteManager",
        eq_iff env.cr_kind_list "SiteManager",
        eq_iff env.cr_kind "SiteManagerList",
        eq_iff env.cr_kind_list "SiteManagerList",
      )

  right_lem :
      clash ≡ false
      → (taken env.cr_kind || taken env.cr_kind_list) ≡ false
      → IsCompatible reserved env
  unfolding clash taken
  right_lem right others = (
    ground (arith, eq_iff env.cr_kind env.cr_kind_list),
    ground arith,
    ground arith,
    λ own. (
      ground (arith, eq_iff env.cr_group "qubership.org", eq_iff env.cr_kind "SiteManager"),
      ground (arith, eq_iff env.cr_group "qubership.org", eq_iff env.cr_kind "SiteManagerList"),
      ground (arith, eq_iff env.cr_group "qubership.org", eq_iff env.cr_kind_list "SiteManager"),
      ground
          (arith, eq_iff env.cr_group "qubership.org", eq_iff env.cr_kind_list "SiteManagerList"),
    ),
  )

  module _ (free : reserved "SiteManager" ≡ false)
      (free_list : reserved "SiteManagerList" ≡ false) where
    add_to_scheme-table :
        taken env.cr_kind ≡ false
        → taken env.cr_kind_list ≡ false
        → clash ≡ false
        → add_to_scheme (table_calls reserved) (table_v3 env) ≡ (ok tt, table_of env)
    unfolding clash taken add_to_scheme put_all find put is_clear close table_calls
    add_to_scheme-table t1 t2 right = ground arith

    add_to_scheme-taken :
        (taken env.cr_kind || taken env.cr_kind_list) ≡ true
        → (add_to_scheme (table_calls reserved) (table_v3 env)).0 ≡ err "double registration"
    unfolding taken add_to_scheme put_all find put is_clear close table_calls
    add_to_scheme-taken wrong = ground arith

    init_legacy :
        clash ≡ false
        → init_scheme (table_calls reserved) (ok env) []
          ≡ (add_to_scheme (table_calls reserved) >> pure env) (table_v3 env)
    unfolding init_scheme table_calls
    init_legacy right =
        rw
          (
            add_to_scheme_v1-table right,
            continue,
            add_to_scheme_v2-table right,
            continue,
            add_to_scheme_v3-table right,
            continue,
          )
          refl

    -- Both ends of `init` on a table.
    pub init_cases :
        (IsCompatible reserved env
          × (init_scheme (table_calls reserved) (ok env) [] ≡ (ok env, table_of env)))
        ⊎ ((¬ IsCompatible reserved env)
            × ((init_scheme (table_calls reserved) (ok env) []).0 ≡ err "double registration"))
    init_cases = elim (Bool-cases clash) [
      | inl wrong ↦ inr (clash_lem wrong, init_clash wrong)
      | inr right ↦ elim (Bool-cases (taken env.cr_kind || taken env.cr_kind_list)) [
        | inl wrong ↦
            let fails = add_to_scheme-taken wrong in
            inr (taken_lem wrong, rw (init_legacy right) (ground arith))
        | inr others ↦
            let works = add_to_scheme-table (ground arith) (ground arith) right in
            inl (right_lem right others, rw (init_legacy right) (rw (works, continue) refl))
      ]
    ]
