-- ===== src/Tenants/Limits.antt =====
-- The asset limits of app/modules/tenants/service.py: every tenant stays within its plan.
use mathlib.Core.Path.{subst}
use soc360_pymes.Prelude.{
  ℕ, ◌≤◌, ◌≡◌, refl, ap, ◌∙◌, String, Bool, true, false, Option, none, some, List, [], ◌∷◌, All,
  All-append, arith, Bool-cases, Option-cases, inl, inr, ltb, leb, length, ◌==◌, is_some,
}
use soc360_pymes.Sql.{first, first-All, update_where, All-update_where}
use soc360_pymes.Outcome.{Result, ok, err, ◌>>=◌, >>=-ok, ok-injective, err_not_ok}
use soc360_pymes.Json.{Value}
use soc360_pymes.Assets.Values.{Text}
use soc360_pymes.Security.Redis.{TokenStore}
use soc360_pymes.Tenants.Slug.{
  TenantError, crashed, bad_plan, too_many_assets, bad_settings, data_error,
}
use soc360_pymes.Tenants.Service.{
  TenantRow, Tenancy, TenantCreate, TenantUpdate, plan_to_max_assets, create_tenant, chosen_slug,
  checked_settings, stored_tenant, inserted, tenant_row, name_step, plan_step, limited, limit_step,
  active_step, with_settings, settings_step, patched_tenant, is_deactivating, finish_update,
  update_tenant, deactivate_tenant, shut_down, tenant_off, revoked_redis, revoke_each,
  access_seconds, user_ids,
}

-- The plan is one of the four, and the number of assets is at most what it allows.
abbrev pub WithinPlan : TenantRow → Type 0
WithinPlan t = (limit : ℕ) × (plan_to_max_assets t.plan ≡ ok limit) × (t.max_assets ≤ limit)

within_if_ok :
    {x y : TenantRow}
    → Path (Result TenantError TenantRow) (ok x) (ok y)
    → WithinPlan x
    → WithinPlan y
within_if_ok {x} {y} e h = subst WithinPlan (ok-injective x y e) h

name-WithinPlan :
    (name : Option (Option Text)) (t t' : TenantRow)
    → name_step name t ≡ ok t'
    → WithinPlan t
    → WithinPlan t'
name-WithinPlan none t t' e h = within_if_ok e h
name-WithinPlan (some none) t t' e h = absurd (err_not_ok crashed t' e)
name-WithinPlan (some (some name)) t t' e h = within_if_ok e h

with_settings-WithinPlan :
    (settings : Option Value) (t t' : TenantRow)
    → with_settings settings t ≡ ok t'
    → WithinPlan t
    → WithinPlan t'
with_settings-WithinPlan none t t' e h = absurd (err_not_ok bad_settings t' e)
with_settings-WithinPlan (some s) t t' e h = within_if_ok e h

settings-WithinPlan :
    (merged : Value → Value → Option Value) (settings : Option (Option Value)) (t t' : TenantRow)
    → settings_step merged settings t ≡ ok t'
    → WithinPlan t
    → WithinPlan t'
settings-WithinPlan merged none t t' e h = within_if_ok e h
settings-WithinPlan merged (some none) t t' e h = absurd (err_not_ok crashed t' e)
settings-WithinPlan merged (some (some v)) t t' e h =
    with_settings-WithinPlan (merged t.settings v) t t' e h

active-WithinPlan :
    (on : Option (Option Bool)) (t t' : TenantRow)
    → active_step on t ≡ ok t'
    → WithinPlan t
    → WithinPlan t'
active-WithinPlan none t t' e h = within_if_ok e h
active-WithinPlan (some none) t t' e h = absurd (err_not_ok data_error t' e)
active-WithinPlan (some (some on)) t t' e h = within_if_ok e h

limited-WithinPlan :
    (max limit : ℕ) (t t' : TenantRow)
    → plan_to_max_assets t.plan ≡ ok limit
    → limited max limit t ≡ ok t'
    → WithinPlan t'
limited-WithinPlan max limit t t' p e = elim (Bool-cases (ltb limit max)) [
  | inl q ↦ absurd (err_not_ok too_many_assets t' (simp q at e))
  | inr q ↦
      within_if_ok {x = record t { max_assets = max }} (simp q at e) (limit, p, ground (arith, q))
]

-- a new plan brings its limit, or a limit that is given is compared with the plan of the row
plan_limit-WithinPlan :
    (plan : Option (Option String)) (max : Option (Option ℕ)) (a b c : TenantRow)
    → plan_step plan (is_some max) a ≡ ok b
    → limit_step max b ≡ ok c
    → WithinPlan a
    → WithinPlan c
plan_limit-WithinPlan plan (some none) a b c e f h =
    let (limit, p, g) = >>=-ok (plan_to_max_assets b.plan) (λ limit. err crashed) f in
    absurd (err_not_ok crashed c g)
plan_limit-WithinPlan plan (some (some max)) a b c e f h =
    let (limit, p, g) = >>=-ok (plan_to_max_assets b.plan) (λ limit. limited max limit b) f in
    limited-WithinPlan max limit b c p g
plan_limit-WithinPlan none none a b c e f h = within_if_ok f (within_if_ok e h)
plan_limit-WithinPlan (some none) none a b c e f h = absurd (err_not_ok bad_plan b e)
plan_limit-WithinPlan (some (some plan)) none a b c e f h =
    let (max, p, g) =
      >>=-ok (plan_to_max_assets plan) (λ max. ok (record a { plan = plan; max_assets = max })) e in
    within_if_ok f
      (within_if_ok {x = record a { plan = plan; max_assets = max }} g (max, p, omega arith))

pub patched_tenant-WithinPlan :
    (merged : Value → Value → Option Value) (p : TenantUpdate) (t t' : TenantRow)
    → patched_tenant merged p t ≡ ok t'
    → WithinPlan t
    → WithinPlan t'
unfolding patched_tenant
patched_tenant-WithinPlan merged p t t' e h =
    let (a, ea, e₁) = >>=-ok (name_step p.name t) _ e in
    let (b, eb, e₂) = >>=-ok (plan_step p.plan (is_some p.max_assets) a) _ e₁ in
    let (c, ec, e₃) = >>=-ok (limit_step p.max_assets b) _ e₂ in
    let (d, ed, e₄) = >>=-ok (settings_step merged p.settings c) _ e₃ in
    active-WithinPlan p.is_active d t' e₄ (
      settings-WithinPlan merged p.settings c d ed
        (plan_limit-WithinPlan p.plan p.max_assets a b c eb ec (name-WithinPlan p.name t a ea h)))

abbrev AllWithin : Tenancy → Type 0
AllWithin w = All WithinPlan w.tenants

shut_down-AllWithin :
    (now tenant : ℕ) (w : Tenancy) → AllWithin w → AllWithin (shut_down now tenant w)
unfolding shut_down
shut_down-AllWithin now tenant w h =
    All-update_where WithinPlan (λ (t : TenantRow). t.id == tenant) tenant_off (λ t _ k. k)
      w.tenants h

revoked-AllWithin :
    (answer : Bool × TokenStore) (w : Tenancy) → AllWithin w → AllWithin (revoked_redis answer w).1
revoked-AllWithin (true, r) w h = h
revoked-AllWithin (false, r) w h = h

module _ (ascii_of : Text → Text) (settings_of : Value → Option Value) where
  inserted-AllWithin :
      (t : TenantRow) (w : Tenancy)
      → WithinPlan t
      → AllWithin w
      → AllWithin (inserted ascii_of settings_of t w).1
  inserted-AllWithin t w k h = elim (Bool-cases (leb (length t.slug) 100)) [
    | inl e ↦ simp e (All-append WithinPlan w.tenants (t ∷ []) h (k, tt))
    | inr e ↦ simp e h
  ]

  stored-AllWithin :
      (id : ℕ) (request : TenantCreate) (r : Result TenantError (Text × Value × ℕ)) (w : Tenancy)
      → ((x : Text × Value × ℕ) → r ≡ ok x → plan_to_max_assets request.plan ≡ ok x.2)
      → AllWithin w
      → AllWithin (stored_tenant ascii_of settings_of id request r w).1
  stored-AllWithin id request (err e) w k h = h
  stored-AllWithin id request (ok (slug, settings, max)) w k h =
      inserted-AllWithin (tenant_row ascii_of settings_of id request slug settings max) w
        (max, k (slug, settings, max) refl, omega arith) h

  create_tenant-AllWithin :
      (id : ℕ) (request : TenantCreate) (w : Tenancy)
      → AllWithin w
      → AllWithin (create_tenant ascii_of settings_of id request w).1
  unfolding create_tenant
  create_tenant-AllWithin id request w h =
      stored-AllWithin id request
        (chosen_slug ascii_of settings_of request w.tenants >>= (λ slug.
          checked_settings ascii_of settings_of request.settings
          >>= (λ settings. plan_to_max_assets request.plan >>= (λ max. ok (slug, settings, max)))))
        w
        (λ x e.
          let (slug, _, e₁) = >>=-ok (chosen_slug ascii_of settings_of request w.tenants) _ e in
          let (settings, _, e₂) =
            >>=-ok (checked_settings ascii_of settings_of request.settings) _ e₁ in
          let (max, p, e₃) = >>=-ok (plan_to_max_assets request.plan) _ e₂ in
          p ∙ ap ok (ap (λ (y : Text × Value × ℕ). y.2) (ok-injective (slug, settings, max) x e₃)))
        h

module _ (merged : Value → Value → Option Value) (goes : ℕ → ℕ → Bool) (now : ℕ) where
  finish-AllWithin :
      (t : TenantRow) (deactivating : Bool) (r : Result TenantError TenantRow) (w : Tenancy)
      → ((row : TenantRow) → r ≡ ok row → WithinPlan row)
      → AllWithin w
      → AllWithin (finish_update merged goes now t deactivating r w).1
  finish-AllWithin t deactivating (err e) w k h = h
  finish-AllWithin t deactivating (ok row) w k h =
      let stored : Tenancy = record w {
        tenants = update_where (λ (x : TenantRow). x.id == t.id) (λ _. row) w.tenants;
      } in
      let kept : AllWithin stored =
        All-update_where WithinPlan (λ (x : TenantRow). x.id == t.id) (λ _. row)
          (λ _ _ _. k row refl) w.tenants h in
      let off = shut_down now t.id stored in
      elim (Bool-cases deactivating) [
        | inl d ↦ simp d (
            revoked-AllWithin
              (revoke_each goes now access_seconds (user_ids t.id off.users) off.redis) off
              (shut_down-AllWithin now t.id stored kept))
        | inr d ↦ simp d kept
      ]

  update_tenant-AllWithin :
      (tenant : ℕ) (p : TenantUpdate) (w : Tenancy)
      → AllWithin w
      → AllWithin (update_tenant merged goes now tenant p w).1
  unfolding update_tenant
  update_tenant-AllWithin tenant p w h =
      elim (Option-cases (first (λ (t : TenantRow). t.id == tenant) w.tenants)) [
        | inl e ↦ simp (e, update_tenant) h
        | inr (t, e) ↦
            simp (e, update_tenant)
              (finish-AllWithin t (is_deactivating p t) (patched_tenant merged p t) w
                (λ row q.
                  patched_tenant-WithinPlan merged p t row q
                    (first-All WithinPlan (λ (x : TenantRow). x.id == tenant) w.tenants h e))
                h)
      ]

  deactivate_tenant-AllWithin :
      (tenant : ℕ) (w : Tenancy) → AllWithin w → AllWithin (deactivate_tenant goes now tenant w).1
  unfolding deactivate_tenant
  deactivate_tenant-AllWithin tenant w h =
      elim (Option-cases (first (λ (t : TenantRow). t.id == tenant) w.tenants)) [
        | inl e ↦ simp (e, deactivate_tenant) h
        | inr (t, e) ↦ elim (Bool-cases t.is_active) [
          | inr a ↦ simp (e, a, deactivate_tenant) h
          | inl a ↦
              let off = shut_down now tenant w in
              simp (e, a, deactivate_tenant)
                (revoked-AllWithin
                  (revoke_each goes now access_seconds (user_ids tenant off.users) off.redis) off
                  (shut_down-AllWithin now tenant w h))
        ]
      ]

-- The calls that write tenants.
pub data Call : Type 0 where
  create : ℕ → TenantCreate → Call
  update : ℕ → TenantUpdate → Call
  deactivate : ℕ → Call

module _ (ascii_of : Text → Text) (settings_of : Value → Option Value)
    (merged : Value → Value → Option Value) (goes : ℕ → ℕ → Bool) (now : ℕ) where
  abbrev pub call : Call → Tenancy → Tenancy
  call (create id request) w = (create_tenant ascii_of settings_of id request w).1
  call (update tenant p) w = (update_tenant merged goes now tenant p w).1
  call (deactivate tenant) w = (deactivate_tenant goes now tenant w).1

  abbrev pub calls : List Call → Tenancy → Tenancy
  calls [] w = w
  calls (c ∷ cs) w = calls cs (call c w)

  call-AllWithin : (c : Call) (w : Tenancy) → AllWithin w → AllWithin (call c w)
  call-AllWithin (create id request) w h =
      create_tenant-AllWithin ascii_of settings_of id request w h
  call-AllWithin (update tenant p) w h = update_tenant-AllWithin merged goes now tenant p w h
  call-AllWithin (deactivate tenant) w h = deactivate_tenant-AllWithin merged goes now tenant w h

  -- Whatever tenants are created, updated and deactivated, every tenant has one of the four plans and at
  -- most the assets of its plan, if that is so before.
  pub calls-WithinPlan :
      (cs : List Call) (w : Tenancy)
      → All WithinPlan w.tenants
      → All WithinPlan (calls cs w).tenants
  calls-WithinPlan [] w h = h
  calls-WithinPlan (c ∷ cs) w h = calls-WithinPlan cs (call c w) (call-AllWithin c w h)
