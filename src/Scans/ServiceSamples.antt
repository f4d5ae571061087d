-- ===== src/Scans/ServiceSamples.antt =====
-- The theorems of the scan service at concrete requests.
use soc360_pymes.Prelude.{
  String, ◌≡◌, ◌≢◌, ◌≤◌, refl, true, false, none, some, List, [], ◌∷◌, any, All, false, arith,
}
use soc360_pymes.Sql.{count_where}
use soc360_pymes.Outcome.{ok, err}
use soc360_pymes.Json.{object, array, boolean, text, Fields, field, end, cons, nil, get_field, keys}
use soc360_pymes.Database.{Scan, World, Env, TenantQuota, committed_scans}
use soc360_pymes.Scans.Config.{
  config_keys, validate_scan_config, is_boolean, is_list_of, is_filled_text, is_path,
  starts_with_slash,
}
use soc360_pymes.Scans.Config.Reading.{is_foreign}
use soc360_pymes.Scans.Config.Accepted.{IsNormal, HasKey, validate_scan_config_sound}
use soc360_pymes.Scans.Service.{
  get_scan, dispatch_scan, counts_today, scan_not_dispatchable, reserve, mark_dispatched,
  rolled_back,
}
use soc360_pymes.Scans.Service.Isolation.{foreign}
use soc360_pymes.Scans.Service.Quota.{quota_of, dispatch_scan-quota, dispatch_scan-err}
use soc360_pymes.Scans.State.Lifecycle.{claim, reap}
use soc360_pymes.Scans.Service.Once.{
  Call, create_call, update_call, dispatch_call, delete_call, operate, after_calls, IsNew,
  dispatched_once,
}
use soc360_pymes.Scans.Authoring.{ScanCreate, ScanPatch, unset, null_sent, given, effective_config}
use soc360_pymes.Scans.Tenancy.{update, handle, handle-KeepsForeign}
use soc360_pymes.Scans.Samples.{row, session, unique}

full_config : Fields
full_config =
    field "paths" (array (cons (text "/admin") nil))
      (field "checks" (array (cons (text "ssl") nil)) (field "host_discovery" (boolean true) end))

abbrev full_keys : List String
full_keys = "host_discovery" ∷ "checks" ∷ "paths" ∷ []

abbrev full_normalised : Fields
full_normalised = field "host_discovery" (boolean true) (
    field "checks" (array (cons (text "ssl") nil))
      (field "paths" (array (cons (text "/admin") nil)) end))

full_accepted : validate_scan_config "full" (object full_config) ≡ ok full_normalised
unfolding validate_scan_config full_config get_field starts_with_slash
full_accepted = refl

validate_scan_config_sound_example :
    (allowed : List String) × (config : Fields) × (config_keys "full" ≡ some allowed)
    × (object full_config ≡ object config)
    × (any (is_foreign allowed) (keys config) ≡ false)
    × IsNormal allowed config full_normalised
validate_scan_config_sound_example =
    validate_scan_config_sound "full" (object full_config) full_normalised full_accepted

full_type : config_keys "full" ≡ some full_keys
unfolding config_keys
full_type = refl

no_foreign_key : any (is_foreign full_keys) (keys full_config) ≡ false
unfolding keys full_config
no_foreign_key = refl

has_host : HasKey "host_discovery" is_boolean full_keys full_config
unfolding full_config get_field
has_host _ = (boolean true, refl, refl)

has_checks : HasKey "checks" (is_list_of is_filled_text) full_keys full_config
unfolding full_config get_field
has_checks _ = (array (cons (text "ssl") nil), refl, refl)

has_paths : HasKey "paths" (is_list_of is_path) full_keys full_config
unfolding full_config get_field starts_with_slash
has_paths _ = (array (cons (text "/admin") nil), refl, refl)

abbrev world : World
world = record { session = session; events = [] }

abbrev env : Env
env = record { now = 90000; fresh_id = 9; commit_goes = true; publish_goes = true }

abbrev dispatched : Scan
dispatched = row 5 1 (some 90000)

dispatch_result : (dispatch_scan env 5 (some 1) world).0 ≡ ok (some dispatched)
unfolding dispatch_scan get_scan reserve mark_dispatched
dispatch_result = refl

dispatch_scan-quota_example :
    (r : Scan) × (q : TenantQuota) × (get_scan 5 (some 1) world ≡ some r)
    × (quota_of r.tenant_id world ≡ some q)
    × (count_where
          (counts_today 90000 r.tenant_id)
          (committed_scans (dispatch_scan env 5 (some 1) world).1)
        ≤ q.scans_per_day)
dispatch_scan-quota_example = dispatch_scan-quota env 5 (some 1) world dispatched dispatch_result

late_result : (dispatch_scan env 3 (some 1) world).0 ≡ err scan_not_dispatchable
unfolding dispatch_scan get_scan reserve mark_dispatched
late_result = refl

dispatch_scan-err_example :
    (committed_scans (dispatch_scan env 3 (some 1) world).1 ≡ committed_scans world)
    × ((dispatch_scan env 3 (some 1) world).1.events ≡ [])
dispatch_scan-err_example = dispatch_scan-err env 3 (some 1) world scan_not_dispatchable late_result

abbrev daily : ScanCreate
daily = record { asset_id = 7; name = "daily"; scan_type = "full"; config = full_normalised }

abbrev rename : ScanPatch
rename = record {
  name = given "nightly";
  scan_type = unset;
  config = given (field "host_discovery" (boolean false) end);
}

abbrev nameless : ScanPatch
nameless = record {
  name = null_sent;
  scan_type = unset;
  config = given (field "host_discovery" (boolean false) end);
}

row_visible : get_scan 3 (some 1) world ≡ some (row 3 1 (some 20))
unfolding get_scan
row_visible = refl

nameless_config :
    effective_config nameless (row 3 1 (some 20)) ≡ ok (field "host_discovery" (boolean false) end)
unfolding effective_config validate_scan_config get_field
nameless_config = refl

handle-KeepsForeign_example :
    foreign 2 (committed_scans (handle env 2 (update 3 rename) world))
    ≡ foreign 2 (committed_scans world)
handle-KeepsForeign_example = handle-KeepsForeign env 2 (update 3 rename) world refl unique

-- what happens between the two dispatches: edits, a creation, a failed request, a claim and a reap
abbrev between : List Call
between =
    update_call env none 5 rename
    ∷ create_call env 1 daily
    ∷ dispatch_call env (some 1) 5
    ∷ operate (claim (λ _. false) 90010)
    ∷ operate (reap 99999 3600)
    ∷ delete_call env (some 1) 3
    ∷ []

nine_not_five : env.fresh_id ≢ 5
nine_not_five e = omega arith

between-IsNew : All (IsNew 5) between
between-IsNew = (tt, (nine_not_five, (tt, (tt, (tt, (tt, tt))))))

dispatched_once_example :
    (dispatch_scan env 5 none
      (rolled_back (after_calls between (dispatch_scan env 5 (some 1) world).1))).0
    ≢ ok (some dispatched)
dispatched_once_example =
    dispatched_once env env 5 (some 1) none between world dispatched dispatched dispatch_result
      between-IsNew
