-- ===== src/Server/Admin.antt =====
-- The operations of internal/server/server.go that change the configuration while the server runs.
-- Save writes the whole configuration; what it returns is in `Saved`.
pub mod Sync
use km_resolv.Prelude.{
  ℕ, Bool, true, false, not, ◌&&◌, Option, none, some, List, [], ◌∷◌, ◌++◌, Text, codes, ◌==◌,
  nat_eq, list_eq, select, to_lower, if◌then◌else◌,
}
use km_resolv.Filter.{Filter, Domains, add, remove_domain, set_mode, size}
use km_resolv.Records.{RecordStore, new_record_store}
use km_resolv.Records.Build.{RecordConfig, Built, built, invalid, panicked}
use km_resolv.Config.{ℤ, Config}
use km_resolv.Config.Files.{Saved, save}
use km_resolv.Server.Verdict.{decimal}

-- the configuration and what is derived from it
pub record Admin : Type 0 where
  pub cfg : Config
  pub filter : Filter
  pub records : RecordStore

-- What a change comes to: the state with the result of Save, an error before anything has changed,
-- or the end of the program by a panic.
pub data Edited (Files : Type 0) : Type 0 where
  edited : Admin → Saved Files → Edited Files
  rejected : Edited Files
  crashed : Edited Files

-- strings.EqualFold, on ASCII
abbrev pub equal_fold : Text → Text → Bool
equal_fold s t = to_lower s == to_lower t

abbrev pub with_inline : List Text → Config → Config
with_inline domains c = record c { filtering = record c.filtering { inline = domains } }

unfoldable pub get_or_keep : Option Bool → Bool → Bool
get_or_keep none old = old
get_or_keep (some b) old = b

module _ {Files : Type 0} (marshal : Config → Option Text)
    (write_file : Text → Text → Files → Option Files) (build : RecordConfig → Built) where
  abbrev pub saved_as : Admin → Files → Edited Files
  saved_as a files = edited a (save marshal write_file a.cfg files)

  unfoldable pub add_block : Text → Admin → Files → Edited Files
  add_block domain a files =
      saved_as
        (record a {
          filter = add domain a.filter;
          cfg = with_inline (a.cfg.filtering.inline ++ domain ∷ []) a.cfg;
        })
        files

  unfoldable pub remove_block : Text → Admin → Files → Edited Files
  remove_block domain a files =
      saved_as
        (record a {
          filter = remove_domain domain a.filter;
          cfg = with_inline (select (λ d. not (equal_fold d domain)) a.cfg.filtering.inline) a.cfg;
        })
        files

  unfoldable pub set_filter_mode : Text → Admin → Files → Edited Files
  set_filter_mode mode a files =
      saved_as
        (record a {
          cfg = record a.cfg { filtering = record a.cfg.filtering { mode = mode } };
          filter = set_mode mode a.filter;
        })
        files

  -- s.records = records.NewRecordStore(s.cfg), and Save
  abbrev pub rebuilt : List RecordConfig → Admin → Files → Edited Files
  rebuilt records a files = elim (new_record_store build records) [
    | none ↦ crashed
    | some store ↦
        saved_as (record a { cfg = record a.cfg { records = records }; records = store }) files
  ]

  unfoldable pub add_record : RecordConfig → Admin → Files → Edited Files
  add_record r a files = elim (build r) [
    | invalid ↦ rejected
    | panicked ↦ crashed
    | built rr ↦ rebuilt (a.cfg.records ++ r ∷ []) a files
  ]

  unfoldable pub remove_record : Text → Text → Admin → Files → Edited Files
  remove_record name type a files =
      rebuilt (select (λ r. not (equal_fold r.name name && equal_fold r.type type)) a.cfg.records) a
        files

  unfoldable pub update_settings :
      Option Bool → Option Bool → Option Bool → Option Bool → Admin → Files → Edited Files
  update_settings edns0 tcp_fallback prefetch update_check a files =
      let r = a.cfg.resolver in
      saved_as
        (record a {
          cfg = record a.cfg {
            resolver = record r {
              edns0 = get_or_keep edns0 r.edns0;
              tcp_fallback = get_or_keep tcp_fallback r.tcp_fallback;
              cache = record r.cache { prefetch = get_or_keep prefetch r.cache.prefetch };
            };
            updater = record {
              check_enabled = get_or_keep update_check a.cfg.updater.check_enabled;
            };
          };
        })
        files
