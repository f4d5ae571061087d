-- ===== src/Tenants/Service.antt =====
-- `create_tenant`, `update_tenant` and `deactivate_tenant` of app/modules/tenants/service.py, over the
-- rows of the open transaction and the token sets in Redis. `settings_of` is the validation by the
-- pydantic model. A raise leaves the rows to the rollback of the request, while what was written to
-- Redis stays written.
use soc360_pymes.Prelude.{
  ℕ, String, Bool, true, false, not, ◌&&◌, Option, none, some, List, [], ◌∷◌, ◌++◌, map,
  if◌then◌else◌, ltb, leb, ◌==◌, is_some, is_empty, length, str_eq,
}
use soc360_pymes.Sql.{first, select, count_where, update_where}
use soc360_pymes.Outcome.{Result, ok, err, ◌>>=◌}
use soc360_pymes.Text.{codes_eq, strip}
use soc360_pymes.Json.{Value}
use soc360_pymes.Assets.Values.{Text}
use soc360_pymes.Security.Redis.{TokenStore, revoke_all_user_access_tokens}
use soc360_pymes.Auth.Tokens.{User, RefreshToken, revoke_all_user_tokens_for_tenant}
use soc360_pymes.Tenants.Slug.{
  TenantError, bad_plan, slug_taken, not_found, too_many_assets, already_inactive, bad_settings,
  data_error, crashed, partial_failure, generate_slug, search_slug,
}

pub record TenantRow : Type 0 where
  pub id : ℕ
  pub name : Text
  pub slug : Text
  pub plan : String
  pub is_active : Bool
  pub max_assets : ℕ
  pub settings : Value

pub record Tenancy : Type 0 where
  pub tenants : List TenantRow
  pub users : List User
  pub tokens : List RefreshToken
  pub redis : TokenStore

-- `_plan_to_max_assets`
unfoldable pub plan_to_max_assets : String → Result TenantError ℕ
plan_to_max_assets plan =
    if str_eq plan "free"
    then ok 10
    else if str_eq plan "starter"
    then ok 25
    else if str_eq plan "pro"
    then ok 100
    else if str_eq plan "enterprise"
    then ok 500
    else err bad_plan

-- `_is_slug_taken`
unfoldable pub is_slug_taken : List TenantRow → Text → Bool
unfolding codes_eq
is_slug_taken rows slug = ltb 0 (count_where (λ (t : TenantRow). codes_eq t.slug slug) rows)

pub record TenantCreate : Type 0 where
  pub name : Text
  pub slug : Option Text
  pub plan : String
  pub settings : Value

-- the loop with its bound; the fuel is the number of its tests
abbrev pub searched : Option (Result TenantError Text) → Result TenantError Text
searched none = err data_error
searched (some answer) = answer

module _ (ascii_of : Text → Text) (settings_of : Value → Option Value) where
  -- the slug that a request gets
  unfoldable pub chosen_slug : TenantCreate → List TenantRow → Result TenantError Text
  unfolding generate_slug search_slug is_slug_taken
  chosen_slug request rows = elim request.slug [
    | some slug ↦
        if is_empty slug
        then (generate_slug ascii_of request.name
            >>= (λ base. searched (search_slug (is_slug_taken rows) base 100 2 base)))
        else if is_slug_taken rows slug
        then err slug_taken
        else ok slug
    | none ↦
        generate_slug ascii_of request.name
        >>= (λ base. searched (search_slug (is_slug_taken rows) base 100 2 base))
  ]

  abbrev pub checked_settings : Value → Result TenantError Value
  checked_settings v = elim (settings_of v) [ none ↦ err bad_settings | some s ↦ ok s ]

  abbrev pub tenant_row : ℕ → TenantCreate → Text → Value → ℕ → TenantRow
  tenant_row id request slug settings max = record {
    id = id;
    name = strip request.name;
    slug = slug;
    plan = request.plan;
    is_active = true;
    max_assets = max;
    settings = settings;
  }

  -- `String(100)` of the column
  abbrev pub inserted : TenantRow → Tenancy → Result TenantError TenantRow × Tenancy
  inserted t w =
      if leb (length t.slug) 100
      then (ok t, record w { tenants = w.tenants ++ t ∷ [] })
      else (err data_error, w)

  abbrev pub stored_tenant :
      ℕ
      → TenantCreate
      → Result TenantError (Text × Value × ℕ)
      → Tenancy
      → Result TenantError TenantRow × Tenancy
  stored_tenant id request (err e) w = (err e, w)
  stored_tenant id request (ok (slug, settings, max)) w =
      inserted (tenant_row id request slug settings max) w

  -- `create_tenant`
  unfoldable pub create_tenant : ℕ → TenantCreate → Tenancy → Result TenantError TenantRow × Tenancy
  unfolding chosen_slug plan_to_max_assets
  create_tenant id request w =
      stored_tenant id request
        (chosen_slug request w.tenants >>= (λ slug.
          checked_settings request.settings
          >>= (λ settings. plan_to_max_assets request.plan >>= (λ max. ok (slug, settings, max)))))
        w

-- the users of a tenant
unfoldable pub belongs : ℕ → User → Bool
belongs tenant u = elim u.tenant_id [ none ↦ false | some k ↦ k == tenant ]

abbrev pub switch_off : User → User
switch_off u = record u { is_active = false }

abbrev pub tenant_off : TenantRow → TenantRow
tenant_off t = record t { is_active = false }

-- `_revoke_user_tokens_deterministically`: every user, whichever of them fails; the answer is whether
-- all went through. The commands of different users are on different keys.
unfoldable pub revoke_each : (ℕ → ℕ → Bool) → ℕ → ℕ → List ℕ → TokenStore → Bool × TokenStore
unfolding revoke_all_user_access_tokens
revoke_each goes now ttl [] r = (true, r)
revoke_each goes now ttl (user ∷ users) r =
    let answer = revoke_all_user_access_tokens (goes user) now user ttl r in
    let rest = revoke_each goes now ttl users answer.1 in
    (elim answer.0 [ err e ↦ false | ok u ↦ rest.0 ], rest.1)

-- the default of `settings.ACCESS_TOKEN_EXPIRE_MINUTES`, in seconds
abbrev pub access_seconds : ℕ
access_seconds = 900

abbrev pub user_ids : ℕ → List User → List ℕ
user_ids tenant users = map (λ (u : User). u.id) (select (belongs tenant) users)

-- the three statements of a deactivation
unfoldable pub shut_down : ℕ → ℕ → Tenancy → Tenancy
unfolding belongs revoke_all_user_tokens_for_tenant
shut_down now tenant w = record w {
  tenants = update_where (λ (t : TenantRow). t.id == tenant) tenant_off w.tenants;
  users = update_where (belongs tenant) switch_off w.users;
  tokens =
      revoke_all_user_tokens_for_tenant now tenant
        (update_where (belongs tenant) switch_off w.users) w.tokens;
}

abbrev pub revoked_redis : Bool × TokenStore → Tenancy → Result TenantError Bool × Tenancy
revoked_redis (true, r) w = (ok true, record w { redis = r })
revoked_redis (false, r) w = (err partial_failure, record w { redis = r })

-- A PATCH: a key is absent, null or has a value.
pub record TenantUpdate : Type 0 where
  pub name : Option (Option Text)
  pub plan : Option (Option String)
  pub is_active : Option (Option Bool)
  pub max_assets : Option (Option ℕ)
  pub settings : Option (Option Value)

abbrev pub name_step : Option (Option Text) → TenantRow → Result TenantError TenantRow
name_step none t = ok t
name_step (some none) t = err crashed
name_step (some (some name)) t = ok (record t { name = strip name })

-- a new plan brings its limit, unless the request gives one
abbrev pub plan_step : Option (Option String) → Bool → TenantRow → Result TenantError TenantRow
plan_step none limit_given t = ok t
plan_step (some none) limit_given t = err bad_plan
plan_step (some (some plan)) true t = ok (record t { plan = plan })
plan_step (some (some plan)) false t =
    plan_to_max_assets plan >>= (λ max. ok (record t { plan = plan; max_assets = max }))

abbrev pub limited : ℕ → ℕ → TenantRow → Result TenantError TenantRow
limited max limit t =
    if ltb limit max then err too_many_assets else ok (record t { max_assets = max })

-- the plan of the row is the effective one by now
abbrev pub limit_step : Option (Option ℕ) → TenantRow → Result TenantError TenantRow
limit_step none t = ok t
limit_step (some none) t = plan_to_max_assets t.plan >>= (λ limit. err crashed)
limit_step (some (some max)) t = plan_to_max_assets t.plan >>= (λ limit. limited max limit t)

-- a null violates the NOT NULL column at the flush
abbrev pub active_step : Option (Option Bool) → TenantRow → Result TenantError TenantRow
active_step none t = ok t
active_step (some none) t = err data_error
active_step (some (some on)) t = ok (record t { is_active = on })

-- the transition from active to inactive
unfoldable pub is_deactivating : TenantUpdate → TenantRow → Bool
is_deactivating p t = elim p.is_active [
  | none ↦ false
  | some on ↦ elim on [ none ↦ false | some b ↦ not b && t.is_active ]
]

abbrev pub with_settings : Option Value → TenantRow → Result TenantError TenantRow
with_settings none t = err bad_settings
with_settings (some s) t = ok (record t { settings = s })

module _ (merged : Value → Value → Option Value) where
  -- `merged.update(…)` and the validation
  abbrev pub settings_step : Option (Option Value) → TenantRow → Result TenantError TenantRow
  settings_step none t = ok t
  settings_step (some none) t = err crashed
  settings_step (some (some v)) t = with_settings (merged t.settings v) t

  -- the row that a PATCH makes; the order of the failures of the last two keys does not matter
  unfoldable pub patched_tenant : TenantUpdate → TenantRow → Result TenantError TenantRow
  unfolding plan_to_max_assets strip
  patched_tenant p t = name_step p.name t >>= (λ a.
      plan_step p.plan (is_some p.max_assets) a >>= (λ b.
        limit_step p.max_assets b
        >>= (λ c. settings_step p.settings c >>= (λ d. active_step p.is_active d))))

  abbrev pub finish_update :
      (ℕ → ℕ → Bool)
      → ℕ
      → TenantRow
      → Bool
      → Result TenantError TenantRow
      → Tenancy
      → Result TenantError Bool × Tenancy
  finish_update goes now t deactivating (err e) w = (err e, w)
  finish_update goes now t deactivating (ok row) w =
      let stored : Tenancy = record w {
        tenants = update_where (λ (x : TenantRow). x.id == t.id) (λ _. row) w.tenants;
      } in
      let off = shut_down now t.id stored in
      if deactivating
      then revoked_redis (revoke_each goes now access_seconds (user_ids t.id off.users) off.redis)
          off
      else (ok true, stored)

  -- `update_tenant`
  unfoldable pub update_tenant :
      (ℕ → ℕ → Bool) → ℕ → ℕ → TenantUpdate → Tenancy → Result TenantError Bool × Tenancy
  unfolding patched_tenant is_deactivating shut_down revoke_each
  update_tenant goes now tenant p w = elim (first (λ (t : TenantRow). t.id == tenant) w.tenants) [
    | none ↦ (err not_found, w)
    | some t ↦ finish_update goes now t (is_deactivating p t) (patched_tenant p t) w
  ]

-- `deactivate_tenant`
unfoldable pub deactivate_tenant :
    (ℕ → ℕ → Bool) → ℕ → ℕ → Tenancy → Result TenantError Bool × Tenancy
unfolding shut_down revoke_each
deactivate_tenant goes now tenant w = elim (first (λ (t : TenantRow). t.id == tenant) w.tenants) [
  | none ↦ (err not_found, w)
  | some t ↦
      if not t.is_active
      then (err already_inactive, w)
      else (let off = shut_down now tenant w in
          revoked_redis (revoke_each goes now access_seconds (user_ids tenant off.users) off.redis)
            off)
]
