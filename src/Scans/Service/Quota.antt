-- ===== src/Scans/Service/Quota.antt =====
-- The daily quota and the single dispatch of `dispatch_scan`, app/modules/scans/service.py.
use soc360_pymes.Prelude.{
  ℕ, ◌≡◌, ◌≢◌, ◌≤◌, refl, sym, ap, ◌∙◌, inl, inr, Option, some, arith, ◌==◌, Option-cases,
}
use soc360_pymes.Sql.{first, count_where, first-key}
use soc360_pymes.Outcome.{ok, err}
use soc360_pymes.Database.{Scan, World, Env, TenantQuota, scans_of, committed_scans}
use soc360_pymes.Scans.Service.{
  ServiceError, get_scan, visible, dispatch_scan, reserve, committed, is_dispatchable,
  mark_dispatched, counts_today, scan_not_dispatchable,
}

abbrev pub quota_of : ℕ → World → Option TenantQuota
quota_of tenant w = first (λ (q : TenantQuota). q.id == tenant) w.session.working.tenants

module _ (env : Env) (r : Scan) (limit : ℕ) (w : World) where
  reserve_ok :
      {x : Option Scan}
      → (reserve env r limit w).0 ≡ ok x
      → ((reserve env r limit w).1 ≡ committed (mark_dispatched r.id env.now w))
        × (count_where
              (counts_today env.now r.tenant_id)
              (scans_of (mark_dispatched r.id env.now w))
            ≤ limit)
  unfolding reserve
  reserve_ok {x} h = ground arith

  reserve_err :
      {e : ServiceError}
      → (reserve env r limit w).0 ≡ err e
      → (committed_scans (reserve env r limit w).1 ≡ committed_scans w)
        × ((reserve env r limit w).1.events ≡ w.events)
  unfolding reserve mark_dispatched
  reserve_err {e} h = ground arith

pub get_scan-id :
    (scan_id : ℕ) (tenant : Option ℕ) (w : World) {r : Scan}
    → get_scan scan_id tenant w ≡ some r
    → r.id ≡ scan_id
unfolding get_scan
get_scan-id scan_id tenant w {r} e =
    first-key (λ a. a.id) scan_id (visible tenant) (scans_of w) {r = r} e

module _ (env : Env) (scan_id : ℕ) (tenant : Option ℕ) (w : World) where
  -- what a call has found when it gets as far as the reservation
  dispatch_reserves :
      {r : Scan} {q : TenantQuota}
      → get_scan scan_id tenant w ≡ some r
      → quota_of r.tenant_id w ≡ some q
      → dispatch_scan env scan_id tenant w ≡ reserve env r q.scans_per_day w
  unfolding dispatch_scan
  dispatch_reserves e n = rw (e, dispatch_scan, n)

  dispatch_found :
      {x : Scan}
      → (dispatch_scan env scan_id tenant w).0 ≡ ok (some x)
      → (r : Scan) × (q : TenantQuota) × (get_scan scan_id tenant w ≡ some r)
        × (quota_of r.tenant_id w ≡ some q)
  unfolding dispatch_scan
  dispatch_found h = elim (Option-cases (get_scan scan_id tenant w)) [
    | inl e ↦ absurd (cc (rw (e, dispatch_scan) at h))
    | inr (r, e) ↦ elim (Option-cases (quota_of r.tenant_id w)) [
      | inl n ↦ absurd (cc (rw (e, dispatch_scan, n) at h))
      | inr (q, n) ↦ (r, q, e, n)
    ]
  ]

-- A dispatch that answers with a scan leaves at most the tenant's daily quota of counted scans, and
-- what it counted is what it has committed.
pub dispatch_scan-quota :
    (env : Env) (scan_id : ℕ) (tenant : Option ℕ) (w : World) (x : Scan)
    → (dispatch_scan env scan_id tenant w).0 ≡ ok (some x)
    → (r : Scan) × (q : TenantQuota) × (get_scan scan_id tenant w ≡ some r)
      × (quota_of r.tenant_id w ≡ some q)
      × (count_where
            (counts_today env.now r.tenant_id)
            (committed_scans (dispatch_scan env scan_id tenant w).1)
          ≤ q.scans_per_day)
unfolding mark_dispatched
dispatch_scan-quota env scan_id tenant w x h =
    let (r, q, e, n) = dispatch_found env scan_id tenant w h in
    let eq = dispatch_reserves env scan_id tenant w e n in
    let (same, fits) =
      reserve_ok env r q.scans_per_day w {x = some x} (sym (ap (λ p. p.0) eq) ∙ h) in
    (r, q, e, n, rw (eq, same) fits)

-- A dispatch that raises, over quota, too late or for any other reason, commits nothing and
-- publishes nothing.
pub dispatch_scan-err :
    (env : Env) (scan_id : ℕ) (tenant : Option ℕ) (w : World) (x : ServiceError)
    → (dispatch_scan env scan_id tenant w).0 ≡ err x
    → (committed_scans (dispatch_scan env scan_id tenant w).1 ≡ committed_scans w)
      × ((dispatch_scan env scan_id tenant w).1.events ≡ w.events)
unfolding dispatch_scan
dispatch_scan-err env scan_id tenant w x h = elim (Option-cases (get_scan scan_id tenant w)) [
  | inl e ↦ absurd (cc (rw (e, dispatch_scan) at h))
  | inr (r, e) ↦ elim (Option-cases (quota_of r.tenant_id w)) [
    | inl n ↦ rw (e, dispatch_scan, n) (refl, refl)
    | inr (q, n) ↦
        rw (e, dispatch_scan, n)
          (reserve_err env r q.scans_per_day w {e = x} (rw (e, dispatch_scan, n) at h))
  ]
]

not_twice :
    (env : Env) (r : Scan) (limit : ℕ) (w : World)
    → count_where (is_dispatchable r.id) (scans_of w) ≡ 0
    → (reserve env r limit w).0 ≡ err scan_not_dispatchable
unfolding reserve
not_twice env r limit w h = rw h

-- A dispatch that answered with a scan leaves the marked rows, committed.
pub first_dispatch :
    (env : Env) (scan_id : ℕ) (tenant : Option ℕ) (w : World) (x : Scan)
    → (dispatch_scan env scan_id tenant w).0 ≡ ok (some x)
    → (dispatch_scan env scan_id tenant w).1 ≡ committed (mark_dispatched scan_id env.now w)
first_dispatch env scan_id tenant w x h =
    let (r, q, e, n) = dispatch_found env scan_id tenant w h in
    let eq = dispatch_reserves env scan_id tenant w e n in
    let (same, _) = reserve_ok env r q.scans_per_day w {x = some x} (sym (ap (λ p. p.0) eq) ∙ h) in
    ap (λ p. p.1) eq
    ∙ same
    ∙ ap (λ k. committed (mark_dispatched k env.now w)) (get_scan-id scan_id tenant w e)

-- Where no row is dispatchable at the id, no dispatch answers with a scan.
pub no_dispatch :
    (env : Env) (scan_id : ℕ) (tenant : Option ℕ) (w : World) (x : Scan)
    → count_where (is_dispatchable scan_id) (scans_of w) ≡ 0
    → (dispatch_scan env scan_id tenant w).0 ≢ ok (some x)
no_dispatch env scan_id tenant w x gone again =
    let (r, q, e, n) = dispatch_found env scan_id tenant w again in
    let gone' : count_where (is_dispatchable r.id) (scans_of w) ≡ 0 =
      rw (get_scan-id scan_id tenant w e) gone in
    cc (not_twice env r q.scans_per_day w gone', dispatch_reserves env scan_id tenant w e n, again)
