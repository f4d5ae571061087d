-- ===== src/Scans/Service/Isolation.antt =====
-- Tenant isolation of the scan service, app/modules/scans/service.py: what a call for one tenant
-- leaves of the committed rows of the others.
use soc360_pymes.Prelude.{
  ℕ, ◌≡◌, refl, ap, ◌∙◌, ◌⊎◌, inl, inr, Bool, true, false, not, ◌&&◌, none, some, List, arith, ◌==◌,
  All, All-map_impl, Bool-cases, Option-cases, ==_refl,
}
use soc360_pymes.Sql.{
  select, first, update_where, delete_where, select-update_where, select-delete_where, only_row,
  first-key,
}
use soc360_pymes.Outcome.{Result, ok, err, Result-cases}
use soc360_pymes.Events.{Event, scan_deleted}
use soc360_pymes.Database.{Scan, Session, World, Env, Db, TenantQuota, scans_of, committed_scans}
use soc360_pymes.Scans.Status.{ScanStatus}
use soc360_pymes.Scans.State.{
  StateError, check_transition, may_move, assign, move_scan, transition_scan,
}
use soc360_pymes.Scans.State.Moves.{
  may_move-id, move_scan-rows, transition_scan-ok, transition_scan-err,
}
use soc360_pymes.Scans.State.Outcomes.{UniqueIds}
use soc360_pymes.Scans.Service.{
  without_scan, visible, get_scan, cancel_scan, finish_cancel, dispatch_scan, reserve, delete_scan,
  publish, committed, rolled_back, is_dispatchable, dispatch_now, mark_dispatched,
}

-- the rows that the tenant does not own
abbrev pub foreign : ℕ → List Scan → List Scan
foreign t = select (λ r. not (r.tenant_id == t))

-- A request begins with a fresh transaction.
abbrev pub IsFresh : World → Type 0
IsFresh w = scans_of w ≡ committed_scans w

-- The committed rows of the other tenants are the same, in the same order.
abbrev pub KeepsForeign : ℕ → World → World → Type 0
KeepsForeign t w w' = foreign t (committed_scans w') ≡ foreign t (committed_scans w)

module _ (t scan_id : ℕ) (xs : List Scan) {r : Scan} (u : UniqueIds xs)
    (found : first (λ a. a.id == scan_id && visible (some t) a) xs ≡ some r) where
  own_row : All (λ a. (a.id == scan_id) ≡ true → (a.tenant_id == t) ≡ true) xs
  unfolding visible
  own_row = only_row (λ a. a.tenant_id == t) (λ a. a.id) scan_id xs u found

  -- An UPDATE of rows with the id of a visible row, which keeps the tenant, is not seen by others.
  pub foreign-update :
      (p : Scan → Bool) (f : Scan → Scan)
      → ((a : Scan) → p a ≡ true → (a.id == scan_id) ≡ true)
      → ((a : Scan) → (f a).tenant_id ≡ a.tenant_id)
      → foreign t (update_where p f xs) ≡ foreign t xs
  foreign-update p f only keep =
      select-update_where (λ a. not (a.tenant_id == t)) p f xs
        (All-map_impl (λ a. (a.id == scan_id) ≡ true → (a.tenant_id == t) ≡ true)
          (λ a.
            p a ≡ true → (not (a.tenant_id == t) ≡ false) × (not ((f a).tenant_id == t) ≡ false))
          (λ a own h.
            let e : not (a.tenant_id == t) ≡ false = ap not (own (only a h)) in (e, rw (keep a) e))
          xs own_row)

  foreign-delete :
      (p : Scan → Bool)
      → ((a : Scan) → p a ≡ true → (a.id == scan_id) ≡ true)
      → foreign t (delete_where p xs) ≡ foreign t xs
  foreign-delete p only =
      select-delete_where (λ a. not (a.tenant_id == t)) p xs
        (All-map_impl (λ a. (a.id == scan_id) ≡ true → (a.tenant_id == t) ≡ true)
          (λ a. p a ≡ true → not (a.tenant_id == t) ≡ false) (λ a own h. ap not (own (only a h))) xs
          own_row)

pub publish-committed :
    {A : Type 0} (env : Env) (e : Event) (a : A) (w : World)
    → committed_scans (publish env e a w).1 ≡ committed_scans w
unfolding publish
publish-committed env e a w = ground arith

pub id_test : (a k : ℕ) → (a == k) ≡ true → (n : ℕ) → k ≡ n → (a == n) ≡ true
id_test a k h n e = rw (← e) h

assign-tenant :
    (target : ScanStatus) (now : ℕ) (a : Scan)
    → (assign target none none now a).tenant_id ≡ a.tenant_id
unfolding assign
assign-tenant target now a = refl

transition_scan-committed :
    (scan_id now : ℕ) (s : Session)
    → (transition_scan scan_id "cancelled" none none false now s).1.committed ≡ s.committed
unfolding move_scan
transition_scan-committed scan_id now s =
    elim (Result-cases (check_transition "cancelled" none none)) [
      | inl (target, g) ↦ rw (transition_scan-ok scan_id "cancelled" none none false now s g)
      | inr (x, g) ↦ rw (transition_scan-err scan_id "cancelled" none none false now s g)
    ]

-- Either nothing is committed or the marked rows are.
pub reserve_committed :
    (env : Env) (r : Scan) (limit : ℕ) (w : World)
    → (committed_scans (reserve env r limit w).1 ≡ committed_scans w)
      ⊎ (committed_scans (reserve env r limit w).1
          ≡ update_where (is_dispatchable r.id) (dispatch_now env.now) (scans_of w))
unfolding reserve mark_dispatched
reserve_committed env r limit w = ground arith

pub is_dispatchable-id :
    (scan_id : ℕ) (a : Scan) → is_dispatchable scan_id a ≡ true → (a.id == scan_id) ≡ true
unfolding is_dispatchable
is_dispatchable-id scan_id a h = ground arith

module _ (t : ℕ) (w : World) (fresh : IsFresh w) where
  pub KeepsForeign-same :
      (w' : World) → committed_scans w' ≡ committed_scans w → KeepsForeign t w w'
  KeepsForeign-same w' e = ap (foreign t) e

  pub KeepsForeign-working :
      (w' : World) → foreign t (committed_scans w') ≡ foreign t (scans_of w) → KeepsForeign t w w'
  KeepsForeign-working w' e = e ∙ ap (foreign t) fresh

  -- A cancellation without a commit leaves the committed rows alone, one with a commit the moved.
  finish-KeepsForeign :
      (env : Env) (r : Scan) (x : Result StateError Bool × Session)
      → x.1.committed ≡ w.session.committed
      → foreign t x.1.working.scans ≡ foreign t (scans_of w)
      → KeepsForeign t w (finish_cancel env r x w).1
  unfolding finish_cancel
  finish-KeepsForeign env r (err e, s) c m = ap (λ (d : Db). foreign t d.scans) c
  finish-KeepsForeign env r (ok false, s) c m = ap (λ (d : Db). foreign t d.scans) c
  finish-KeepsForeign env r (ok true, s) c m = elim (Bool-cases env.commit_goes) [
    | inl g ↦ rw g (m ∙ ap (foreign t) fresh)
    | inr g ↦ rw g (ap (λ (d : Db). foreign t d.scans) c)
  ]

  module _ (env : Env) (scan_id : ℕ) (u : UniqueIds (scans_of w)) where
    pub found_id : {r : Scan} → get_scan scan_id (some t) w ≡ some r → r.id ≡ scan_id
    unfolding get_scan
    found_id {r} e = first-key (λ a. a.id) scan_id (λ a. a.tenant_id == t) (scans_of w) e

    pub delete_scan-KeepsForeign : KeepsForeign t w (delete_scan env scan_id (some t) w).1
    unfolding delete_scan without_scan
    delete_scan-KeepsForeign = elim (Option-cases (get_scan scan_id (some t) w)) [
      | inl e ↦ rw (e, delete_scan) (KeepsForeign-same w refl)
      | inr (r, e) ↦ elim (Bool-cases env.commit_goes) [
        | inl c ↦
            rw (e, delete_scan, c)
              (KeepsForeign-working
                (publish env (scan_deleted r.tenant_id r.id) true (committed (without_scan r w))).1
                (ap (foreign t) (
                    publish-committed env (scan_deleted r.tenant_id r.id) true
                      (committed (without_scan r w)))
                  ∙ foreign-delete t scan_id (scans_of w) u e (λ a. a.id == r.id)
                      (λ a h. id_test a.id r.id h scan_id (found_id e))))
        | inr c ↦ rw (e, delete_scan, c) (KeepsForeign-same (rolled_back w) refl)
      ]
    ]

    -- what the transition leaves of the working rows
    moved-foreign :
        {r : Scan}
        → get_scan scan_id (some t) w ≡ some r
        → foreign t
            (transition_scan scan_id "cancelled" none none false env.now w.session).1.working.scans
          ≡ foreign t (scans_of w)
    unfolding get_scan
    moved-foreign e = elim (Result-cases (check_transition "cancelled" none none)) [
      | inl (target, g) ↦
          rw
            (
              transition_scan-ok scan_id "cancelled" none none false env.now w.session g,
              move_scan-rows scan_id target none none false env.now w.session,
            )
            (foreign-update t scan_id (scans_of w) u e (may_move scan_id target)
              (assign target none none env.now)
              (λ a h. rw (may_move-id scan_id target a h) (==_refl scan_id))
              (λ a. assign-tenant target env.now a))
      | inr (x, g) ↦
          rw (transition_scan-err scan_id "cancelled" none none false env.now w.session g)
    ]

    pub cancel_scan-KeepsForeign : KeepsForeign t w (cancel_scan env scan_id (some t) w).1
    unfolding cancel_scan
    cancel_scan-KeepsForeign = elim (Option-cases (get_scan scan_id (some t) w)) [
      | inl e ↦ rw (e, cancel_scan) (KeepsForeign-same w refl)
      | inr (r, e) ↦
          rw (e, cancel_scan)
            (finish-KeepsForeign env r
              (transition_scan scan_id "cancelled" none none false env.now w.session)
              (transition_scan-committed scan_id env.now w.session) (moved-foreign e))
    ]

    pub dispatch_scan-KeepsForeign : KeepsForeign t w (dispatch_scan env scan_id (some t) w).1
    unfolding dispatch_scan
    dispatch_scan-KeepsForeign = elim (Option-cases (get_scan scan_id (some t) w)) [
      | inl e ↦ rw (e, dispatch_scan) (KeepsForeign-same w refl)
      | inr (r, e) ↦
          elim (Option-cases
            (first (λ (q : TenantQuota). q.id == r.tenant_id) w.session.working.tenants)) [
              | inl n ↦ rw (e, dispatch_scan, n) (KeepsForeign-same w refl)
              | inr (q, n) ↦
                  rw (e, dispatch_scan, n)
                    (elim (reserve_committed env r q.scans_per_day w) [
                      | inl same ↦ KeepsForeign-same (reserve env r q.scans_per_day w).1 same
                      | inr moved ↦ KeepsForeign-working (reserve env r q.scans_per_day w).1 (
                          ap (foreign t) moved
                          ∙ foreign-update t scan_id (scans_of w) u e (is_dispatchable r.id)
                              (dispatch_now env.now)
                              (λ a h.
                                id_test a.id r.id (is_dispatchable-id r.id a h) scan_id
                                  (found_id e))
                              (λ a. refl))
                    ])
            ]
    ]
