-- ===== src/Updater/Tests.antt =====
-- The theorem about Check, at two calls an hour apart.
use km_resolv.Prelude.{
  ◌+◌, ◌≡◌, refl, none, some, [], ◌∷◌, true, Text, codes, ok, split_dots, has_prefix,
}
use km_resolv.Config.{ℤ, pos}
use km_resolv.Records.Build.{parse_uint, digits}
use km_resolv.Updater.{
  Release, Response, cache_ttl, fetch_latest, less, part, newer, parse_semver, is_newer, refresh,
  check,
}
use km_resolv.Updater.Newer.{Call, run, IsJudged, check-IsJudged}

abbrev number : Text → ℤ
number s = elim (parse_uint 63 s) [ none ↦ pos 0 | some n ↦ pos n ]

abbrev answer : Text → Response
answer tag = ok (200, ok (tag, codes "https://a.de/r"))

abbrev first : Call
first = record { response = answer (codes "v1.9"); now = 5; stored = 7 }

abbrev second : Call
second = record { response = answer (codes "v1.10.0"); now = 7 + cache_ttl; stored = 9 + cache_ttl }

abbrev found : Release
found = record { available = true; version = codes "1.10.0"; url = codes "https://a.de/r" }

checked :
    (check number
      (codes "1.9.3")
      second.response
      second.now
      second.stored
      (run number (codes "1.9.3") (first ∷ []) none)).1
    ≡ ok found
unfolding run check refresh fetch_latest is_newer newer parse_semver part less parse_uint digits
    split_dots has_prefix
checked = refl

check-IsJudged_example : IsJudged number (codes "1.9.3") found
check-IsJudged_example = check-IsJudged number (codes "1.9.3") (first ∷ []) second found checked
