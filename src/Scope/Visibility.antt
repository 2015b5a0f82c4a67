-- ===== src/Scope/Visibility.antt =====
-- internal/web/scope.go, buildScopeParams.
use glitchgate.Prelude.{
  String, Bool, false, Option, none, some, ◌==◌, eq_iff, ◌≡◌, ◌≢◌, refl, inl, inr, ◌⊎◌, arith,
  Bool-cases, Option-cases, subst, if◌then◌else◌,
}

-- auth.UISessionContext: `user` and `team_id` are identifiers, `none` for nil.
pub record Session : Type 0 where
  pub is_master_key : Bool
  pub role : String
  pub user : Option String
  pub team_id : Option String

-- The three results of the source: type, user and team.
pub record KeyScope : Type 0 where
  pub scope_type : String
  pub scope_user_id : String
  pub scope_team_id : String

abbrev pub scope : String → String → String → KeyScope
scope t u m = record { scope_type = t; scope_user_id = u; scope_team_id = m }

-- The scope of one's own keys.
abbrev pub own_scope : Option String → KeyScope
own_scope (some user) = scope "user" user ""
own_scope none = scope "none" "" ""

-- `none` for a nil session.
unfoldable pub build_scope_params : Option Session → KeyScope
build_scope_params none = scope "all" "" ""
build_scope_params (some sc) =
    if sc.is_master_key
    then scope "all" "" ""
    else if sc.role == "global_admin"
    then scope "all" "" ""
    else if sc.role == "team_admin"
    then elim sc.team_id [ some team ↦ scope "team" "" team | none ↦ own_scope sc.user ]
    else own_scope sc.user

-- A session that is neither the master key's nor a global administrator's.
unfoldable pub IsLimited : Session → Type 0
IsLimited sc = (sc.is_master_key ≡ false) × (sc.role ≢ "global_admin")

-- What such a session may see.
unfoldable pub IsOwn : Session → KeyScope → Type 0
IsOwn sc k =
    ((team : String) × (sc.role ≡ "team_admin")
      × (sc.team_id ≡ some team)
      × (k ≡ scope "team" "" team))
    ⊎ ((user : String) × (sc.user ≡ some user) × (k ≡ scope "user" user ""))
    ⊎ ((sc.user ≡ none) × (k ≡ scope "none" "" ""))

own_scope-IsOwn : (sc : Session) (o : Option String) → sc.user ≡ o → IsOwn sc (own_scope o)
unfolding IsOwn
own_scope-IsOwn sc (some user) e = inr (inl (user, e, refl))
own_scope-IsOwn sc none e = inr (inr (e, refl))

as_team :
    (sc : Session) (team : String)
    → sc.role ≡ "team_admin"
    → sc.team_id ≡ some team
    → IsOwn sc (scope "team" "" team)
unfolding IsOwn
as_team sc team r t = inl (team, r, t, refl)

not_global : (role : String) → role ≢ "global_admin" → (role == "global_admin") ≡ false
not_global role r = ground (arith, r, eq_iff role "global_admin")

-- A session that is neither the master key's nor a global administrator's sees a team only as that
-- team's administrator, else its own user's keys, or nothing where it has no user.
limited_scope : (sc : Session) → IsLimited sc → IsOwn sc (build_scope_params (some sc))
unfolding build_scope_params IsLimited
limited_scope sc (m, r) = elim (Bool-cases (sc.role == "team_admin")) [
  | inl e ↦ elim (Option-cases sc.team_id) [
    | inl t ↦
        subst (IsOwn sc) (rw (m, not_global sc.role r, e, t) refl) (own_scope-IsOwn sc sc.user refl)
    | inr (team, t) ↦
        subst (IsOwn sc) (rw (m, not_global sc.role r, e, t) refl)
          (as_team sc team ((eq_iff sc.role "team_admin").0 e) t)
  ]
  | inr e ↦
      subst (IsOwn sc) (rw (m, not_global sc.role r, e) refl) (own_scope-IsOwn sc sc.user refl)
]
