-- ===== src/Dashboard.antt =====
-- internal/dashboard/dashboard.go: the login, the guards of the handlers and the handlers that change
-- something. The parameter `mac` stands for hex.EncodeToString of the HMAC by a key, `secret` and
-- `session` for the random values of init, and a nonce of rand.Read is an argument. hmac.Equal is
-- equality. A body is what the JSON decoder makes of it, none for an error.
pub mod Nonces
pub mod Guards
pub mod Tokens
pub mod Refused
pub mod Blocking
pub mod Reads
mod Tests
use km_resolv.Prelude.{
  ℕ, ◌+◌, ◌*◌, Bool, true, false, not, ◌&&◌, ◌||◌, Option, none, some, List, [], ◌∷◌, ◌++◌, Text,
  codes, ◌==◌, nat_eq, list_eq, ltb, select, to_lower, has_prefix, if◌then◌else◌, Map, lookup,
  insert, remove,
}
use km_resolv.Config.{Config, auth_enabled}
use km_resolv.Config.Files.{Saved, saved, no_path, marshal_error, write_error}
use km_resolv.Records.Build.{RecordConfig, Built}
use km_resolv.Server.Admin.{
  Admin, Edited, edited, rejected, crashed, add_block, remove_block, set_filter_mode, add_record,
  remove_record, update_settings,
}

-- the nonces that have been issued, with the time until which each is good
abbrev pub Nonces : Type 0
Nonces = Map Text ℕ

abbrev pub nonce_life : ℕ
nonce_life = 60 * 1000000000

unfoldable pub issue : Text → ℕ → Nonces → Nonces
issue nonce now n = insert nonce (now + nonce_life) n

unfoldable pub consume : Text → ℕ → Nonces → Nonces × Bool
consume nonce now n = elim (lookup nonce n) [
  | none ↦ (remove nonce n, false)
  | some expires ↦ (remove nonce n, not (ltb expires now))
]

-- a tick of cleanup
unfoldable pub cleanup : ℕ → Nonces → Nonces
cleanup now n = select (λ e. not (ltb e.1 now)) n

-- the text before the first dot and the one behind it: strings.SplitN(s, ".", 2)
unfoldable pub split_dot : Text → Option (Text × Text)
split_dot [] = none
split_dot (c ∷ s) =
    let rest = split_dot s in
    if c == b'.' then some ([], s) else elim rest [ none ↦ none | some (a, b) ↦ some (c ∷ a, b) ]

pub record Request : Type 0 where
  pub method : Text
  pub remote_addr : Text
  -- the value of the cookie kmresolv_session
  pub cookie : Option Text

pub data Response : Type 0 where
  page : Response
  login_page : Response
  redirect : Text → Response
  method_not_allowed : Response
  bad_request : Response
  not_found : Response
  save_failed : Response
  ok_json : Response
  nonce_json : Text → Response
  failed_json : Text → Response
  -- {"ok": true} with the session cookie set
  logged_in : Text → Response

abbrev pub is_post : Request → Bool
is_post r = r.method == codes "POST"

pub record LoginBody : Type 0 where
  pub username : Text
  pub response : Text
  pub nonce : Text

module _ (mac : Text → Text → Text) (secret session : Text) where
  unfoldable pub sign_token : Text → Text
  sign_token token = token ++ (codes "." ++ mac secret token)

  unfoldable pub verify_token : Text → Bool
  verify_token signed = elim (split_dot signed) [
    | none ↦ false
    | some (token, signature) ↦ signed == sign_token token && token == session
  ]

  unfoldable pub is_authenticated : Request → Bool
  is_authenticated r = elim r.cookie [ none ↦ false | some value ↦ verify_token value ]

  -- requireAuth: whether the handler goes on
  unfoldable pub require_auth : Config → Request → Bool
  require_auth cfg r =
      if not (auth_enabled cfg)
      then true
      else if has_prefix r.remote_addr (codes "127.0.0.1:")
          || has_prefix r.remote_addr (codes "[::1]:")
      then true
      else is_authenticated r

  -- the handler of /
  unfoldable pub serve_index : Config → Request → Response
  serve_index cfg r = if require_auth cfg r then page else redirect (codes "/login")

  -- the handler of /login
  unfoldable pub serve_login : Config → Request → Response
  serve_login cfg r =
      if not (auth_enabled cfg)
      then redirect (codes "/")
      else if is_authenticated r
      then redirect (codes "/")
      else if r.method == codes "GET"
      then login_page
      else not_found

  -- the handler of /api/login/challenge
  unfoldable pub serve_challenge : Text → ℕ → Request → Nonces → Nonces × Response
  serve_challenge nonce now r n =
      if is_post r then (issue nonce now n, nonce_json nonce) else (n, method_not_allowed)

  -- what /api/login does with a body
  unfoldable pub log_in : Config → LoginBody → ℕ → Nonces → Nonces × Response
  log_in cfg body now n =
      let (n', good) = consume body.nonce now n in
      let expected = mac cfg.dashboard.auth.password body.nonce in
      if not good
      then (n', failed_json (codes "invalid or expired challenge"))
      else if body.username == cfg.dashboard.auth.username && body.response == expected
      then (n', logged_in (sign_token session))
      else (n', failed_json (codes "invalid credentials"))

  -- the handler of /api/login
  unfoldable pub serve_log_in : Config → Request → Option LoginBody → ℕ → Nonces → Nonces × Response
  serve_log_in cfg r body now n =
      if not (is_post r)
      then (n, method_not_allowed)
      else elim body [ none ↦ (n, bad_request) | some b ↦ log_in cfg b now n ]

  -- the guards of a handler that changes something: the login, then the method
  unfoldable pub guarded {ℓ} : {R : Type ℓ} → Config → Request → (Response → R) → R → R
  guarded cfg r refuse handled =
      if not (require_auth cfg r)
      then refuse (redirect (codes "/login"))
      else if not (is_post r)
      then refuse method_not_allowed
      else handled
