-- ===== src/Assets/Service.antt =====
-- The service calls of app/modules/assets/service.py, with the constraints of models.py that fire at the
-- flush, and the cascade of a delete. A raise comes back beside the world that it leaves.
use soc360_pymes.Prelude.{
  ℕ, String, Bool, true, false, not, ◌&&◌, Option, none, some, List, [], ◌∷◌, ◌++◌, if◌then◌else◌,
  ltb, str_eq, ◌==◌, any, length,
}
use soc360_pymes.Sql.{first, update_where, delete_where}
use soc360_pymes.Paging.{page_of}
use soc360_pymes.Outcome.{Result, ok, err, ◌>>=◌}
use soc360_pymes.Text.{codes_eq, strip}
use soc360_pymes.Events.{Event, asset_created, asset_updated, asset_deleted}
use soc360_pymes.Database.{
  Scan, Vulnerability, AssetKey, TenantQuota, Db, World, Env, commit, rollback, assets_of,
  set_assets, set_working,
}
use soc360_pymes.Assets.Values.{
  Text, Libraries, ValueError, not_an_address, not_a_url, not_a_cidr, unknown_asset_type,
  validate_asset_value,
}

pub data AssetError : Type 0 where
  invalid : ValueError → AssetError
  asset_duplicate integrity_error data_error commit_failed publish_failed : AssetError
  no_strip : AssetError

abbrev pub Reply : Type 0 → Type 0
Reply A = Result AssetError A × World

abbrev pub committed : World → World
committed w = record w { session = commit w.session }

abbrev pub rolled_back : World → World
rolled_back w = record w { session = rollback w.session }

-- the commit, then the event
unfoldable pub commit_and_announce : {A : Type 0} → Env → Event → A → World → Reply A
commit_and_announce env event a w =
    if not env.commit_goes
    then (err commit_failed, rolled_back w)
    else if env.publish_goes
    then (ok a, record (committed w) { events = w.events ++ event ∷ [] })
    else (err publish_failed, committed w)

-- `_add_tenant_predicate`
unfoldable pub visible_to : Option ℕ → AssetKey → Bool
visible_to none a = true
visible_to (some tenant) a = a.tenant_id == tenant

-- `uq_assets_tenant_type_value`
unfoldable pub same_asset : AssetKey → AssetKey → Bool
unfolding codes_eq
same_asset a b =
    a.tenant_id == b.tenant_id && str_eq a.asset_type b.asset_type && codes_eq a.value b.value

-- `String(255)` of the column, then the unique constraint, against the other rows
unfoldable pub flush_error : AssetKey → List AssetKey → Option AssetError
unfolding same_asset
flush_error a rows =
    if ltb 255 (length a.value)
    then some data_error
    else if any (λ (r : AssetKey). not (r.id == a.id) && same_asset a r) rows
    then some asset_duplicate
    else none

-- an INSERT besides: the primary key and the tenant
unfoldable pub insert_asset_error : AssetKey → World → Option AssetError
unfolding flush_error
insert_asset_error a w =
    if any (λ (r : AssetKey). r.id == a.id) (assets_of w)
    then some integrity_error
    else elim (flush_error a (assets_of w)) [
      | some e ↦ some e
      | none ↦
          if any (λ (t : TenantQuota). t.id == a.tenant_id) w.session.working.tenants
          then none
          else some integrity_error
    ]

unfoldable pub get_asset : ℕ → Option ℕ → World → Option AssetKey
unfolding visible_to
get_asset asset_id tenant w = first (λ a. a.id == asset_id && visible_to tenant a) (assets_of w)

unfoldable pub list_assets : Option ℕ → ℕ → ℕ → World → List AssetKey × ℕ
unfolding visible_to
list_assets tenant limit offset w =
    page_of (λ a. a.created_at) (λ a. a.id) (visible_to tenant) limit offset (assets_of w)

-- `AssetUpdate`: a key is absent, null or has a value
pub record AssetUpdate : Type 0 where
  pub asset_type : Option (Option String)
  pub value : Option (Option Text)

-- the row with the changed fields
abbrev pub Draft : Type 0
Draft = AssetKey × List String

abbrev pub with_value : Text → AssetKey → AssetKey
with_value v a = record a { value = v }

-- a null type fails the validation that follows in any case
abbrev pub take_type : Option (Option String) → AssetKey → Result AssetError Draft
take_type none a = ok (a, [])
take_type (some none) a = err (invalid unknown_asset_type)
take_type (some (some t)) a =
    if str_eq t a.asset_type then ok (a, []) else ok (record a { asset_type = t }, "type" ∷ [])

-- `_validate_asset_value(…, None)`
unfoldable pub validate_null : String → AssetError
validate_null asset_type =
    if str_eq asset_type "ip"
    then invalid not_an_address
    else if str_eq asset_type "web_app"
    then invalid not_a_url
    else if str_eq asset_type "subnet"
    then invalid not_a_cidr
    else if str_eq asset_type "domain"
    then no_strip
    else if str_eq asset_type "hostname"
    then no_strip
    else if str_eq asset_type "cloud_resource"
    then no_strip
    else invalid unknown_asset_type

-- the value taken over where it differs; `value` stands among the changed fields once
unfoldable pub take_value : Text → Draft → Draft
unfolding codes_eq
take_value v (a, changed) =
    if codes_eq v a.value
    then (a, changed)
    else (with_value v a, if any (str_eq "value") changed then changed else changed ++ "value" ∷ [])

abbrev pub or_invalid : Result ValueError Text → Result AssetError Text
or_invalid (err e) = err (invalid e)
or_invalid (ok text) = ok text

module _ (lib : Libraries) where
  unfoldable pub checked_value : String → Text → Result AssetError Text
  unfolding validate_asset_value
  checked_value asset_type v = or_invalid (validate_asset_value lib asset_type v)

  unfoldable pub patch_value : Option (Option Text) → Draft → Result AssetError Draft
  unfolding validate_null take_value checked_value
  patch_value none d = ok d
  patch_value (some none) d = err (validate_null d.0.asset_type)
  patch_value (some (some v)) d =
      checked_value d.0.asset_type v >>= (λ canonical. ok (take_value canonical d))

  -- the validation of the effective pair
  unfoldable pub settle_value : Draft → Result AssetError Draft
  unfolding take_value checked_value
  settle_value d =
      checked_value d.0.asset_type d.0.value >>= (λ canonical. ok (take_value canonical d))

  unfoldable pub patched_asset : AssetUpdate → AssetKey → Result AssetError Draft
  unfolding patch_value settle_value
  patched_asset p a = take_type p.asset_type a >>= (λ d. patch_value p.value d >>= settle_value)

  abbrev pub new_asset : Env → ℕ → String → Text → AssetKey
  new_asset env tenant asset_type canonical = record {
    id = env.fresh_id;
    tenant_id = tenant;
    asset_type = asset_type;
    value = canonical;
    created_at = env.now;
  }

  -- the event strips its strings
  abbrev pub asset_created_event : AssetKey → Event
  asset_created_event a = asset_created a.tenant_id a.id a.asset_type (strip a.value) a.created_at

  unfoldable pub insert_asset : Env → AssetKey → World → Reply AssetKey
  unfolding insert_asset_error commit_and_announce strip
  insert_asset env a w = elim (insert_asset_error a w) [
    | some e ↦ (err e, w)
    | none ↦
        commit_and_announce env (asset_created_event a) a (set_assets w (assets_of w ++ a ∷ []))
  ]

  -- `create_asset`
  unfoldable pub create_asset : Env → String → Text → ℕ → World → Reply AssetKey
  unfolding checked_value insert_asset
  create_asset env asset_type value tenant w = elim (checked_value asset_type value) [
    | err e ↦ (err e, w)
    | ok canonical ↦ insert_asset env (new_asset env tenant asset_type canonical) w
  ]

  -- Without a change there is no UPDATE, and the row has passed the constraints before.
  unfoldable pub store_asset : Env → AssetKey → List String → World → Reply (Option AssetKey)
  unfolding flush_error commit_and_announce
  store_asset env a changed w = elim (flush_error a (assets_of w)) [
    | some e ↦ (err e, w)
    | none ↦
        commit_and_announce env (asset_updated a.tenant_id a.id changed) (some a)
          (set_assets w (update_where (λ (r : AssetKey). r.id == a.id) (λ _. a) (assets_of w)))
  ]

  -- `update_asset`
  unfoldable pub update_asset : Env → ℕ → Option ℕ → AssetUpdate → World → Reply (Option AssetKey)
  unfolding get_asset patched_asset store_asset
  update_asset env asset_id tenant p w = elim (get_asset asset_id tenant w) [
    | none ↦ (ok none, w)
    | some a ↦ elim (patched_asset p a) [ err e ↦ (err e, w) | ok d ↦ store_asset env d.0 d.1 w ]
  ]

-- the foreign keys with ON DELETE CASCADE: the scans of the asset, and their findings; reports and
-- enrichments, which go too, are in no table here
unfoldable pub scan_of : AssetKey → Scan → Bool
scan_of a s = s.asset_id == a.id && s.tenant_id == a.tenant_id

unfoldable pub finding_of : AssetKey → List Scan → Vulnerability → Bool
unfolding scan_of
finding_of a scans v =
    any (λ (s : Scan). scan_of a s && (s.id == v.scan_id && s.tenant_id == v.tenant_id)) scans

unfoldable pub without_asset : AssetKey → Db → Db
unfolding scan_of finding_of
without_asset a db = record db {
  assets = delete_where (λ (r : AssetKey). r.id == a.id) db.assets;
  scans = delete_where (scan_of a) db.scans;
  vulnerabilities = delete_where (finding_of a db.scans) db.vulnerabilities;
}

-- `delete_asset`
unfoldable pub delete_asset : Env → ℕ → Option ℕ → World → Reply Bool
unfolding get_asset without_asset commit_and_announce
delete_asset env asset_id tenant w = elim (get_asset asset_id tenant w) [
  | none ↦ (ok false, w)
  | some a ↦
      commit_and_announce env (asset_deleted a.tenant_id a.id) true
        (set_working w (without_asset a w.session.working))
]
