-- ===== src/Filter.antt =====
-- internal/filter/filter.go: the block list. A set of domains is a map to true. `fetch` is what
-- http.Get and os.Open give for a source of a list: the lines that the scanner reads, or none for
-- an error; the messages to the log are left out.
pub mod Walk
pub mod Edits
pub mod Lasting
mod Tests
use km_resolv.Prelude.{
  ℕ, zero, suc, ◌+◌, ◌≡◌, refl, Bool, true, false, not, ◌&&◌, ◌||◌, Option, none, some, List, [],
  ◌∷◌, Text, codes, ◌==◌, nat_eq, list_eq, length, take, has_prefix, to_lower, trim_dot, after_dot,
  trim_space, fields, if◌then◌else◌, Map, keys, lookup, insert, remove, has,
}

abbrev pub Domains : Type 0
Domains = Map Text Bool

-- cfg.Filtering
pub record FilterConfig : Type 0 where
  pub mode : Text
  pub inline : List Text
  pub lists : List Text
  pub reload_interval_hours : ℕ

pub record FilterState : Type 0 where
  pub domains : Domains
  pub mode : Text

pub record Filter : Type 0 where
  pub state : FilterState
  pub inline : Domains

abbrev pub off : Text
off = codes "off"

abbrev pub blacklist : Text
blacklist = codes "blacklist"

abbrev pub whitelist : Text
whitelist = codes "whitelist"

-- domains[name], false where the key is missing
unfoldable pub member : Text → Domains → Bool
member name domains = elim (lookup name domains) [ none ↦ false | some b ↦ b ]

-- The loop of Blocked, a round for each unit of fuel: whether the name or what follows one of its
-- dots is a member. `none` means that the fuel ran out.
unfoldable pub walk : ℕ → Text → Domains → Option Bool
walk zero name domains = none
walk (suc fuel) name domains =
    let rest : Option Bool = elim (after_dot name) [
      | none ↦ some false
      | some parent ↦ walk fuel parent domains
    ] in
    if member name domains then some true else rest

-- A name has fewer dots than bytes.
unfoldable pub listed : Text → Domains → Bool
listed name domains = elim (walk (length name + 1) name domains) [ none ↦ false | some b ↦ b ]

-- Blocked
unfoldable pub blocked : Text → Filter → Bool
blocked name f =
    let st = f.state in
    if st.mode == off
    then false
    else if listed (to_lower (trim_dot name)) st.domains
    then st.mode == blacklist
    else st.mode == whitelist

abbrev pub clean : Text → Text
clean domain = to_lower (trim_space domain)

-- Add
unfoldable pub add : Text → Filter → Filter
add domain f =
    let d = clean domain in
    record {
      state = record { domains = insert d true f.state.domains; mode = f.state.mode };
      inline = insert d true f.inline;
    }

-- Remove; `remove` is the deletion from a map
unfoldable pub remove_domain : Text → Filter → Filter
remove_domain domain f =
    let d = clean domain in
    record {
      state = record { domains = remove d f.state.domains; mode = f.state.mode };
      inline = remove d f.inline;
    }

unfoldable pub set_mode : Text → Filter → Filter
set_mode mode f = record f { state = record { domains = f.state.domains; mode = to_lower mode } }

unfoldable pub size : Filter → ℕ
size f = length f.state.domains

-- the bytes before the first `#`, if there is one
unfoldable pub before_hash : Text → Option Text
before_hash [] = none
before_hash (c ∷ s) =
    let rest = before_hash s in
    if c == b'#' then some [] else elim rest [ none ↦ none | some t ↦ some (c ∷ t) ]

-- What parseList adds for the fields of a line.
unfoldable pub add_fields : List Text → Domains → Domains
add_fields (d ∷ []) domains = insert (to_lower d) true domains
add_fields (host ∷ d ∷ []) domains =
    let domain = to_lower d in
    if domain == codes "localhost" || domain == codes "localhost.localdomain"
    then domains
    else insert domain true domains
add_fields other domains = domains

unfoldable pub parse_line : Text → Domains → Domains
parse_line text domains =
    let line = trim_space text in
    let line' : Text = elim (before_hash line) [ none ↦ line | some t ↦ trim_space t ] in
    if line == [] || has_prefix line (codes "#") then domains else add_fields (fields line') domains

-- parseList, over the lines that the scanner reads
unfoldable pub parse_list : List Text → Domains → Domains
parse_list [] domains = domains
parse_list (line ∷ lines) domains = parse_list lines (parse_line line domains)

unfoldable pub add_inline : List Text → Domains → Domains
add_inline [] m = m
add_inline (d ∷ ds) m = add_inline ds (insert (clean d) true m)

-- for d := range from { to[d] = true }
unfoldable pub add_keys : Domains → Domains → Domains
add_keys [] to = to
add_keys ((d, b) ∷ from) to = add_keys from (insert d true to)

-- Reload from its lock on
abbrev pub store_reload : FilterState → Filter → Filter
store_reload loaded f = record f {
  state = record { domains = add_keys f.inline (add_keys loaded.domains []); mode = loaded.mode };
}

module _ (fetch : Text → Option (List Text)) where
  -- loadListFromSource for each source; one that fails adds nothing
  unfoldable pub load_lists : List Text → Domains → Domains
  load_lists [] domains = domains
  load_lists (source ∷ sources) domains =
      load_lists sources
        (elim (fetch source) [ none ↦ domains | some lines ↦ parse_list lines domains ])

  -- NewFilter
  unfoldable pub new_filter : FilterConfig → Filter
  new_filter cfg =
      let mode = to_lower cfg.mode in
      let inline = add_inline cfg.inline [] in
      if mode == off
      then record { state = record { domains = []; mode = mode }; inline = [] }
      else record {
        state = record { domains = load_lists cfg.lists inline; mode = mode };
        inline = inline;
      }

  -- Reload up to its lock: the mode that it has read, and what it has loaded
  abbrev pub load_for_reload : FilterConfig → FilterState
  load_for_reload cfg =
      let mode = to_lower cfg.mode in
      record { domains = if mode == off then [] else load_lists cfg.lists []; mode = mode }

  -- Reload where nothing happens in between
  unfoldable pub reload : FilterConfig → Filter → Filter
  reload cfg f = store_reload (load_for_reload cfg) f

-- To run the functions above in a test.
unfoldable pub program : Unit {0}
unfolding lookup insert remove has_prefix to_lower trim_dot after_dot trim_space fields member walk
    listed blocked add remove_domain set_mode before_hash add_fields parse_line parse_list
    add_inline add_keys load_lists new_filter reload
program = tt

abbrev hosts : List Text
hosts =
    codes "# a list"
    ∷ codes "0.0.0.0 Ads.Example.com # tracker"
    ∷ codes "127.0.0.1 localhost"
    ∷ codes "plain.org"
    ∷ codes "a b c"
    ∷ []

test : parse_list hosts [] ≡ (codes "ads.example.com", true) ∷ (codes "plain.org", true) ∷ []
unfolding program
test = refl
