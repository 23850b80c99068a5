-- ===== src/Filter/Tests.antt =====
-- The theorems about the block list, at concrete filters.
use km_resolv.Prelude.{
  ◌≡◌, ◌↔◌, ◌⊎◌, refl, true, false, Option, none, List, [], ◌∷◌, Text, codes, arith, to_lower,
  nat_eq, list_eq,
}
use km_resolv.Filter.{
  Filter, FilterConfig, program, blocked, off, blacklist, whitelist, add, clean, set_mode,
  new_filter, reload,
}
use km_resolv.Filter.Walk.{Within, Covers, plain, blocked-blacklist_iff}
use km_resolv.Filter.Edits.{blocked-add_iff, inline_lost}

abbrev ads : Text
ads = codes "ads.de"

abbrev name : Text
name = codes "X.Ads.de."

abbrev filter : Text → Filter
filter mode = record {
  state = record { domains = (ads, true) ∷ []; mode = mode };
  inline = (ads, true) ∷ [];
}

abbrev config : FilterConfig
config = record { mode = codes "Off"; inline = ads ∷ []; lists = []; reload_interval_hours = 24 }

abbrev later : FilterConfig
later = record config { mode = blacklist }

abbrev no_lists : Text → Option (List Text)
no_lists source = none

blocked_test : (blocked name (filter blacklist) ≡ true) × (blocked name (filter whitelist) ≡ false)
unfolding program
blocked_test = (refl, refl)

blocked-blacklist_iff_example :
    (blocked name (filter blacklist) ≡ true) ↔ Covers ((ads, true) ∷ []) (plain name)
blocked-blacklist_iff_example = blocked-blacklist_iff name (filter blacklist) refl

blocked-add_iff_example :
    (blocked name (add (codes " DE") (filter blacklist)) ≡ true)
    ↔ (Within (clean (codes " DE")) (plain name) ⊎ (blocked name (filter blacklist) ≡ true))
blocked-add_iff_example = blocked-add_iff name (codes " DE") (filter blacklist) refl

is_off : to_lower (codes "Off") ≡ off
unfolding program
is_off = refl

is_blacklist : to_lower blacklist ≡ blacklist
unfolding program
is_blacklist = refl

inline_lost_example :
    let f = set_mode blacklist (new_filter no_lists config) in
    (blocked ads f ≡ false) × (blocked ads (reload no_lists later f) ≡ false)
inline_lost_example =
    inline_lost no_lists config later blacklist ads is_off (λ e. ground (arith, e, is_blacklist))
      (λ e. ground (arith, e, is_blacklist)) refl
