-- ===== src/Updater.antt =====
-- internal/updater/updater.go: the check for a newer release. The parameter `atoi` is the number of
-- strconv.Atoi, without its error; what the request comes to is an argument of a call.
pub mod Newer
mod Tests
use km_resolv.Prelude.{
  ℕ, zero, suc, ◌+◌, ◌-◌, ◌*◌, max, Bool, true, false, not, Option, none, some, List, [], ◌∷◌, ◌++◌,
  map, Text, codes, Result, ok, err, ◌==◌, nat_eq, list_eq, ltb, length, get_elem?, drop,
  has_prefix, split_dots, if◌then◌else◌,
}
use km_resolv.Config.{ℤ, pos, negsuc}
use km_resolv.Server.Verdict.{decimal}

abbrev pub cache_ttl : ℕ
cache_ttl = 3600 * 1000000000

pub record Release : Type 0 where
  pub available : Bool
  pub version : Text
  pub url : Text

pub record Cached : Type 0 where
  pub result : Release
  pub cached_at : ℕ

-- What the HTTP client makes of a request: an error, or a status with what the body decodes to, the
-- tag's name and the URL.
abbrev pub Response : Type 0
Response = Result (ℕ × Result (Text × Text))

abbrev pub tagged : Text → Text → Result (Text × Text)
tagged tag url = if tag == [] then err (codes "github API: empty tag_name") else ok (tag, url)

unfoldable pub fetch_latest : Response → Result (Text × Text)
fetch_latest (err e) = err e
fetch_latest (ok (status, body)) =
    if not (status == 200) then err (codes "github API: status " ++ decimal status) else elim body [
      | err e ↦ err (codes "github API: decode: " ++ e)
      | ok (tag, url) ↦ tagged tag url
    ]

-- strings.TrimPrefix(s, "v")
abbrev pub trim_v : Text → Text
trim_v s = if has_prefix s (codes "v") then drop 1 s else s

-- < of int
unfoldable pub less : ℤ → ℤ → Bool
less (pos a) (pos b) = ltb a b
less (pos a) (negsuc b) = false
less (negsuc a) (pos b) = true
less (negsuc a) (negsuc b) = ltb b a

-- the number at a position of a version, 0 behind its end
unfoldable pub part : List ℤ → ℕ → ℤ
part v i = elim (get_elem? v i) [ none ↦ pos 0 | some p ↦ p ]

-- the loop of isNewer, with the rounds that are left and the position
unfoldable pub newer : List ℤ → List ℤ → ℕ → ℕ → Bool
newer lv cv zero i = false
newer lv cv (suc n) i =
    let rest = newer lv cv n (i + 1) in
    if less (part cv i) (part lv i)
    then true
    else if less (part lv i) (part cv i)
    then false
    else rest

module _ (atoi : Text → ℤ) where
  unfoldable pub parse_semver : Text → List ℤ
  parse_semver v = map atoi (split_dots v)

  unfoldable pub is_newer : Text → Text → Bool
  is_newer latest current =
      let lv = parse_semver (trim_v latest) in
      let cv = parse_semver (trim_v current) in newer lv cv (max (length lv) (length cv)) 0

  -- What Check makes of the answer to its request, at the time at which it stores it.
  unfoldable pub refresh : Text → Response → ℕ → Option Cached → Option Cached × Result Release
  refresh current response stored cached = elim (fetch_latest response) [
    | err e ↦ (cached, err e)
    | ok (tag, url) ↦
        let r : Release = record {
          available = is_newer tag current;
          version = trim_v tag;
          url = url;
        } in
        (some (record { result = r; cached_at = stored }), ok r)
  ]

  unfoldable pub check : Text → Response → ℕ → ℕ → Option Cached → Option Cached × Result Release
  check current response now stored cached = elim cached [
    | none ↦ refresh current response stored none
    | some c ↦
        if ltb (now - c.cached_at) cache_ttl
        then (some c, ok c.result)
        else refresh current response stored (some c)
  ]
