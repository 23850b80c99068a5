-- ===== src/Dashboard/Guards.antt =====
-- The handlers of internal/dashboard/dashboard.go that change the server, behind their guards.
use km_resolv.Prelude.{
  ℕ, Bool, ◌||◌, Option, none, some, [], Text, ◌==◌, nat_eq, list_eq, to_lower, if◌then◌else◌,
}
use km_resolv.Cache.{Cache}
use km_resolv.Cache.Sweep.{flush}
use km_resolv.Config.{Config, mode_ok}
use km_resolv.Config.Files.{Saved, saved}
use km_resolv.Records.Build.{RecordConfig, Built}
use km_resolv.Server.Admin.{
  Admin, Edited, edited, rejected, crashed, add_block, remove_block, set_filter_mode, add_record,
  remove_record, update_settings,
}
use km_resolv.Dashboard.{Request, Response, bad_request, save_failed, ok_json, guarded}

-- A change with the response, or the end of the program by a panic.
pub data Served (Files : Type 0) : Type 0 where
  served : Admin → Option Files → Response → Served Files
  crashed_handler : Served Files

-- the file system behind a Save, where it was written
abbrev pub written : {Files : Type 0} → Saved Files → Option Files
written (saved files) = some files
written other = none

abbrev pub answer_save : {Files : Type 0} → Saved Files → Response → Response
answer_save (saved files) failure = ok_json
answer_save other failure = failure

-- The end of a handler: `failure` is its response where the change or Save is an error.
unfoldable pub finish : {Files : Type 0} → Response → Admin → Edited Files → Served Files
finish failure a (edited a' result) = served a' (written result) (answer_save result failure)
finish failure a rejected = served a none failure
finish failure a crashed = crashed_handler

module _ {Files : Type 0} (marshal : Config → Option Text)
    (write_file : Text → Text → Files → Option Files) (build : RecordConfig → Built)
    (mac : Text → Text → Text) (secret session : Text) where
  abbrev pub refuse : Admin → Response → Served Files
  refuse a response = served a none response

  abbrev guard : Request → Admin → Served Files → Served Files
  guard r a handled = guarded mac secret session a.cfg r (refuse a) handled

  -- the handler of /api/filter/add, which only logs an error of Save
  unfoldable pub serve_filter_add : Request → Option Text → Admin → Files → Served Files
  serve_filter_add r body a files = guard r a (elim body [
    | none ↦ refuse a bad_request
    | some domain ↦
        if domain == []
        then refuse a bad_request
        else finish ok_json a (add_block marshal write_file build domain a files)
  ])

  -- the handler of /api/filter/remove, which only logs an error of Save
  unfoldable pub serve_filter_remove : Request → Option Text → Admin → Files → Served Files
  serve_filter_remove r body a files = guard r a (elim body [
    | none ↦ refuse a bad_request
    | some domain ↦
        if domain == []
        then refuse a bad_request
        else finish ok_json a (remove_block marshal write_file build domain a files)
  ])

  -- the handler of /api/filter/mode
  unfoldable pub serve_filter_mode : Request → Option Text → Admin → Files → Served Files
  serve_filter_mode r body a files = guard r a (elim body [
    | none ↦ refuse a bad_request
    | some mode ↦
        if mode_ok (to_lower mode)
        then finish save_failed a (set_filter_mode marshal write_file build (to_lower mode) a files)
        else refuse a bad_request
  ])

  -- the handler of /api/records/add
  unfoldable pub serve_records_add : Request → Option RecordConfig → Admin → Files → Served Files
  serve_records_add r body a files = guard r a (elim body [
    | none ↦ refuse a bad_request
    | some rec ↦
        if rec.name == [] || (rec.type == [] || rec.value == [])
        then refuse a bad_request
        else finish bad_request a (add_record marshal write_file build rec a files)
  ])

  -- the handler of /api/records/remove
  unfoldable pub serve_records_remove :
      Request → Option (Text × Text) → Admin → Files → Served Files
  serve_records_remove r body a files = guard r a (elim body [
    | none ↦ refuse a bad_request
    | some (name, type) ↦
        finish save_failed a (remove_record marshal write_file build name type a files)
  ])

  -- the handler of /api/settings
  unfoldable pub serve_settings :
      Request
      → Option (Option Bool × Option Bool × Option Bool × Option Bool)
      → Admin
      → Files
      → Served Files
  serve_settings r body a files = guard r a (elim body [
    | none ↦ refuse a bad_request
    | some (e, t, p, u) ↦
        finish save_failed a (update_settings marshal write_file build e t p u a files)
  ])

-- the handler of /api/cache/flush
unfoldable pub serve_cache_flush :
    (Text → Text → Text) → Text → Text → Config → Request → Text → ℕ → Cache → Cache × Response
serve_cache_flush mac secret session cfg r mode now c =
    guarded mac secret session cfg r (λ response. (c, response)) (flush mode now c, ok_json)
