-- ===== src/Dashboard/Refused.antt =====
-- Whom the handlers of internal/dashboard/dashboard.go that change the server refuse.
use km_resolv.Prelude.{
  ℕ, ◌≡◌, ◌⊎◌, inl, inr, refl, sym, ◌∙◌, ap, Bool, true, false, ◌||◌, Bool-cases, Option-cases,
  Option, none, some, Text, codes, has_prefix, arith,
}
use km_resolv.Cache.{Cache}
use km_resolv.Config.{Config, auth_enabled}
use km_resolv.Records.Build.{RecordConfig, Built}
use km_resolv.Server.Admin.{Admin}
use km_resolv.Dashboard.{
  Request, Response, redirect, sign_token, is_authenticated, require_auth, guarded,
}
use km_resolv.Dashboard.Tokens.{Dotless, verify_token_iff}
use km_resolv.Dashboard.Guards.{
  Served, served, serve_filter_add, serve_filter_remove, serve_filter_mode, serve_records_add,
  serve_records_remove, serve_settings, serve_cache_flush,
}

-- A request to one of the handlers, with its body.
pub data Action : Type 0 where
  filter_add : Option Text → Action
  filter_remove : Option Text → Action
  filter_mode : Option Text → Action
  records_add : Option RecordConfig → Action
  records_remove : Option (Text × Text) → Action
  settings : Option (Option Bool × Option Bool × Option Bool × Option Bool) → Action

module _ (mac : Text → Text → Text) (secret session : Text) where
  -- No login is set, or the request is from the machine itself, or it has the cookie of a login.
  abbrev pub IsAllowed : Config → Request → Type 0
  IsAllowed cfg r =
      (auth_enabled cfg ≡ false)
      ⊎ (((has_prefix r.remote_addr (codes "127.0.0.1:")
              || has_prefix r.remote_addr (codes "[::1]:"))
            ≡ true)
          ⊎ (r.cookie ≡ some (sign_token mac secret session session)))

  authenticated-cookie :
      (r : Request)
      → Dotless session
      → is_authenticated mac secret session r ≡ true
      → r.cookie ≡ some (sign_token mac secret session session)
  unfolding is_authenticated
  authenticated-cookie r d h = elim (Option-cases r.cookie) [
    | inl e ↦ absurd (ground (arith, h, e))
    | inr (value, e) ↦
        e
        ∙ ap some (
            (verify_token_iff mac secret session value d).0
              (sym (rw (is_authenticated, e) refl) ∙ h))
  ]

  require_auth-IsAllowed :
      (cfg : Config) (r : Request)
      → Dotless session
      → require_auth mac secret session cfg r ≡ true
      → IsAllowed cfg r
  unfolding require_auth
  require_auth-IsAllowed cfg r d h = elim (Bool-cases (auth_enabled cfg)) [
    | inr off ↦ inl off
    | inl on ↦
        elim (Bool-cases (
          has_prefix r.remote_addr (codes "127.0.0.1:")
          || has_prefix r.remote_addr (codes "[::1]:"))) [
            | inl near ↦ inr (inl near)
            | inr far ↦ inr (inr (authenticated-cookie r d (ground (arith, h, on, far))))
          ]
  ]

  pub not_allowed :
      (cfg : Config) (r : Request)
      → Dotless session
      → ¬ IsAllowed cfg r
      → require_auth mac secret session cfg r ≡ false
  not_allowed cfg r d n = elim (Bool-cases (require_auth mac secret session cfg r)) [
    | inl on ↦ absurd (n (require_auth-IsAllowed cfg r d on))
    | inr off ↦ off
  ]

  guarded-refused {ℓ} :
      {R : Type ℓ} (cfg : Config) (r : Request) (refuse : Response → R) (handled : R)
      → require_auth mac secret session cfg r ≡ false
      → guarded mac secret session cfg r refuse handled ≡ refuse (redirect (codes "/login"))
  unfolding guarded
  guarded-refused cfg r refuse handled h = rw (guarded, h) refl

  module _ {Files : Type 0} (marshal : Config → Option Text)
      (write_file : Text → Text → Files → Option Files) (build : RecordConfig → Built) where
    unfoldable pub serve : Action → Request → Admin → Files → Served Files
    serve (filter_add body) r a files =
        serve_filter_add marshal write_file build mac secret session r body a files
    serve (filter_remove body) r a files =
        serve_filter_remove marshal write_file build mac secret session r body a files
    serve (filter_mode body) r a files =
        serve_filter_mode marshal write_file build mac secret session r body a files
    serve (records_add body) r a files =
        serve_records_add marshal write_file build mac secret session r body a files
    serve (records_remove body) r a files =
        serve_records_remove marshal write_file build mac secret session r body a files
    serve (settings body) r a files =
        serve_settings marshal write_file build mac secret session r body a files

    serve-unchanged :
        (action : Action) (r : Request) (a : Admin) (files : Files)
        → require_auth mac secret session a.cfg r ≡ false
        → serve action r a files ≡ served a none (redirect (codes "/login"))
    unfolding serve serve_filter_add serve_filter_remove serve_filter_mode serve_records_add
        serve_records_remove serve_settings
    serve-unchanged (filter_add body) r a files h = guarded-refused a.cfg r _ _ h
    serve-unchanged (filter_remove body) r a files h = guarded-refused a.cfg r _ _ h
    serve-unchanged (filter_mode body) r a files h = guarded-refused a.cfg r _ _ h
    serve-unchanged (records_add body) r a files h = guarded-refused a.cfg r _ _ h
    serve-unchanged (records_remove body) r a files h = guarded-refused a.cfg r _ _ h
    serve-unchanged (settings body) r a files h = guarded-refused a.cfg r _ _ h

    -- Where a login is set, a request from another machine whose cookie is not the one that a login
    -- sets is sent to the login page by every handler that changes the filter, the records, the
    -- settings or the cache, whatever its method and body; nothing is changed and nothing is written.
    -- The session token has no dot.
    pub serve-refused :
        (action : Action) (r : Request) (a : Admin) (files : Files) (mode : Text) (now : ℕ)
        (cache : Cache)
        → Dotless session
        → ¬ IsAllowed a.cfg r
        → (serve action r a files ≡ served a none (redirect (codes "/login")))
          × (serve_cache_flush mac secret session a.cfg r mode now cache
              ≡ (cache, redirect (codes "/login")))
    unfolding serve_cache_flush
    serve-refused action r a files mode now cache d n =
        let h = not_allowed a.cfg r d n in
        (serve-unchanged action r a files h, guarded-refused a.cfg r _ _ h)
