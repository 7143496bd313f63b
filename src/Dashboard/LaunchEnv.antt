-- ===== src/Dashboard/LaunchEnv.antt =====
-- What build_runtime_launch_env and build_launch_argv pass on to the child.
use draindeck.Base.{
  String, Bool, true, false, not, [], ◌∷◌, ◌≡◌, refl, ap, Bool-cases, inl, inr, ◌⊎◌, ◌==◌,
  string_comparable,
}
use draindeck.Base.Lists.{In, In-append}
use draindeck.Dashboard.Launcher.{
  Environment, keep_keys, one_of, allowed_names, denied_names, build_runtime_launch_env,
}

pub keep_keys-In :
    (test : String → Bool) (env : Environment) (key value : String)
    → In (key, value) (keep_keys test env)
    → In (key, value) env × (test key ≡ true)
unfolding keep_keys
keep_keys-In test [] key value m = absurd m
keep_keys-In test ((k, v) ∷ env) key value m = elim (Bool-cases (test k)) [
  | inr out ↦
      let (there, passes) = keep_keys-In test env key value (rw (out, keep_keys) at m) in
      (inr there, passes)
  | inl kept ↦ elim (rw (kept, keep_keys) at m) [
    | inl same ↦ (inl same, cc (ap (λ (p : String × String). p.0) same, kept))
    | inr later ↦ let (there, passes) = keep_keys-In test env key value later in (inr there, passes)
  ]
]

-- An entry of the child's environment is one of the dashboard's own, unchanged. Its name is one of
-- the allowed names; or, where the configuration authenticates with a key, the key's name. Where it
-- does not, no name of the denied ones is passed on.
pub build_runtime_launch_env-allowed :
    (upper : String → String) (base : Environment) (auth_mode key value : String)
    → In (key, value) (build_runtime_launch_env upper base auth_mode)
    → In (key, value) base
      × (((one_of (upper key) allowed_names ≡ true) × ((auth_mode == "api_key") ≡ true))
          ⊎ (((upper key == "ANTHROPIC_API_KEY") ≡ true) × ((auth_mode == "api_key") ≡ true))
          ⊎ ((one_of (upper key) allowed_names ≡ true)
              × (one_of key denied_names ≡ false)
              × ((auth_mode == "api_key") ≡ false)))
unfolding build_runtime_launch_env
build_runtime_launch_env-allowed upper base auth_mode key value m =
    elim (Bool-cases (auth_mode == "api_key")) [
      | inl by_key ↦
          elim (In-append (key, value) (keep_keys (λ k. one_of (upper k) allowed_names) base)
            (keep_keys (λ k. upper k == "ANTHROPIC_API_KEY") base)
            (rw (by_key, build_runtime_launch_env) at m)) [
              | inl l ↦
                  let (there, passes) =
                    keep_keys-In (λ k. one_of (upper k) allowed_names) base key value l in
                  (there, inl (passes, by_key))
              | inr r ↦
                  let (there, passes) =
                    keep_keys-In (λ k. upper k == "ANTHROPIC_API_KEY") base key value r in
                  (there, inr (inl (passes, by_key)))
            ]
      | inr by_login ↦
          let (kept, clear) =
            keep_keys-In (λ k. not (one_of k denied_names))
              (keep_keys (λ k. one_of (upper k) allowed_names) base) key value
              (rw (by_login, build_runtime_launch_env) at m) in
          let (there, passes) =
            keep_keys-In (λ k. one_of (upper k) allowed_names) base key value kept in
          (there, inr (inr (passes, not-true (one_of key denied_names) clear, by_login)))
    ]
  where
    not-true : (b : Bool) → not b ≡ true → b ≡ false
    not-true true e = absurd (cc)
    not-true false e = refl
