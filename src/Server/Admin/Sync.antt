-- ===== src/Server/Admin/Sync.antt =====
-- The records in the store are those of the configuration, whatever is changed.
use km_resolv.Prelude.{
  ◌≡◌, ◌⊎◌, subst, refl, Bool, Option-cases, inl, inr, Option, none, some, List, [], ◌∷◌, ◌++◌,
  Text,
}
use km_resolv.Dns.{Rr}
use km_resolv.Filter.{new_filter, add, remove_domain, set_mode}
use km_resolv.Records.{RecordStore, new_record_store}
use km_resolv.Records.Build.{RecordConfig, Built, built, invalid, panicked}
use km_resolv.Config.{Config}
use km_resolv.Server.Admin.{
  Admin, Edited, edited, rejected, crashed, add_block, remove_block, set_filter_mode, rebuilt,
  add_record, remove_record, update_settings,
}

pub data Edit : Type 0 where
  add_block_edit : Text → Edit
  remove_block_edit : Text → Edit
  mode_edit : Text → Edit
  add_record_edit : RecordConfig → Edit
  remove_record_edit : Text → Text → Edit
  settings_edit : Option Bool → Option Bool → Option Bool → Option Bool → Edit

-- The store is the one that is built from the configured records.
pub record InSync (build : RecordConfig → Built) (a : Admin) : Type 0 where
  pub records : new_record_store build a.cfg.records ≡ some a.records

Built-cases : (b : Built) → ((rr : Rr) × (b ≡ built rr)) ⊎ ((b ≡ invalid) ⊎ (b ≡ panicked))
Built-cases (built rr) = inl (rr, refl)
Built-cases invalid = inr (inl refl)
Built-cases panicked = inr (inr refl)

module _ {Files : Type 0} (marshal : Config → Option Text)
    (write_file : Text → Text → Files → Option Files) (build : RecordConfig → Built) where
  unfoldable pub apply : Edit → Admin → Files → Edited Files
  apply (add_block_edit domain) a files = add_block marshal write_file build domain a files
  apply (remove_block_edit domain) a files = remove_block marshal write_file build domain a files
  apply (mode_edit mode) a files = set_filter_mode marshal write_file build mode a files
  apply (add_record_edit r) a files = add_record marshal write_file build r a files
  apply (remove_record_edit name type) a files =
      remove_record marshal write_file build name type a files
  apply (settings_edit e t p u) a files = update_settings marshal write_file build e t p u a files

  -- the state behind a change: a rejected one leaves it as it is, and Save may fail
  abbrev pub state_of : Admin → Edited Files → Option Admin
  state_of a (edited a' result) = some a'
  state_of a rejected = some a
  state_of a crashed = none

  -- the files as the environment leaves them before each change
  unfoldable pub run : List (Edit × Files) → Admin → Option Admin
  run [] a = some a
  run ((e, files) ∷ edits) a = elim (state_of a (apply e a files)) [
    | none ↦ none
    | some a' ↦ run edits a'
  ]

  abbrev pub Keeps : Option Admin → Type 0
  Keeps none = Unit
  Keeps (some a) = InSync build a

  rebuilt-Keeps :
      (records : List RecordConfig) (a : Admin) (files : Files)
      → InSync build a
      → Keeps (state_of a (rebuilt marshal write_file build records a files))
  rebuilt-Keeps records a files v = elim (Option-cases (new_record_store build records)) [
    | inl e ↦ rw (Keeps, state_of, rebuilt, e) tt
    | inr (store, e) ↦ rw (Keeps, state_of, rebuilt, e) (record { records = e })
  ]

  added :
      (r : RecordConfig) (a : Admin) (files : Files)
      → InSync build a
      → Keeps (state_of a (add_record marshal write_file build r a files))
  unfolding add_record
  added r a files v = elim (Built-cases (build r)) [
    | inl (rr, e) ↦ rw (add_record, e) (rebuilt-Keeps (a.cfg.records ++ r ∷ []) a files v)
    | inr (inl e) ↦ rw (add_record, e) v
    | inr (inr e) ↦ rw (add_record, e) tt
  ]

  pub apply-Keeps :
      (e : Edit) (a : Admin) (files : Files) → InSync build a → Keeps (state_of a (apply e a files))
  unfolding apply add_block remove_block set_filter_mode add_record remove_record update_settings
      add remove_domain set_mode
  apply-Keeps (add_block_edit domain) a files v = record { records = v.records }
  apply-Keeps (remove_block_edit domain) a files v = record { records = v.records }
  apply-Keeps (mode_edit mode) a files v = record { records = v.records }
  apply-Keeps (add_record_edit r) a files v = added r a files v
  apply-Keeps (remove_record_edit name type) a files v = rebuilt-Keeps _ a files v
  apply-Keeps (settings_edit e t p u) a files v = record { records = v.records }

  run-Keeps : (edits : List (Edit × Files)) (a : Admin) → InSync build a → Keeps (run edits a)
  unfolding run
  run-Keeps [] a v = v
  run-Keeps ((e, files) ∷ edits) a v =
      let kept = apply-Keeps e a files v in
      elim (Option-cases (state_of a (apply e a files))) [
        | inl gone ↦ rw (run, gone) tt
        | inr (a', same) ↦ rw (run, same) (run-Keeps edits a' (subst Keeps same kept))
      ]

  pub started :
      (fetch : Text → Option (List Text)) (cfg : Config) (store : RecordStore)
      → new_record_store build cfg.records ≡ some store
      → InSync build
          (record { cfg = cfg; filter = new_filter fetch cfg.filtering; records = store })
  unfolding new_filter
  started fetch cfg store h = record { records = h }

  -- From a start on a configuration, whatever is changed through the server, if an error refuses the
  -- change or Save fails or neither: the record store is the one that the configured records give.
  run-InSync :
      (fetch : Text → Option (List Text)) (cfg : Config) (store : RecordStore)
      (edits : List (Edit × Files)) (a : Admin)
      → new_record_store build cfg.records ≡ some store
      → run edits (record { cfg = cfg; filter = new_filter fetch cfg.filtering; records = store })
        ≡ some a
      → InSync build a
  run-InSync fetch cfg store edits a h ran =
      subst Keeps ran (run-Keeps edits _ (started fetch cfg store h))
