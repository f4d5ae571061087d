-- ===== src/Scans/State/Claim.antt =====
-- The claim of app/modules/scans/state.py as a queue: the earliest ready row, to one worker only.
use mathlib.Core.Path.{subst}
use mathlib.Core.Option.{some-injective}
use soc360_pymes.Prelude.{
  ℕ, ◌≡◌, ◌≢◌, refl, sym, ap, ◌∙◌, ◌⊎◌, inl, inr, Bool, true, false, not, ◌&&◌, Option, none, some,
  List, [], ◌∷◌, arith, All, All-map_impl, if◌then◌else◌, ◌==◌, Option-cases, Bool-cases, and→both,
  both→and, ◌↔◌, ==_refl, ==_sym,
}
use soc360_pymes.Sql.{
  UniqueKeys-Pointwise, by_key-Pointwise, by_key-update_where, map_option, update_where,
}
use soc360_pymes.Database.{Scan, Session, with_scans, commit}
use soc360_pymes.Scans.Status.{pending, status_eq}
use soc360_pymes.Scans.State.{is_ready, before, older, oldest_ready, claim_next_scan, start_run}
use soc360_pymes.Scans.State.Outcomes.{scan_by_id, UniqueIds}
use soc360_pymes.Scans.State.Lifecycle.{Op, run_all, NotBack, claim-NotBack, run_all-NotBack}

abbrev IsFree : (ℕ → Bool) → Scan → Type 0
IsFree locked r = (is_ready r && not (locked r.id)) ≡ true

before_trans : (a b c : Scan) → before a b ≡ true → before b c ≡ true → before a c ≡ true
unfolding before
before_trans a b c h k = ground arith

before_total : (a b : Scan) → before a b ≡ false → before b a ≡ true
unfolding before
before_total a b h = ground arith

before_refl : (a : Scan) → before a a ≡ true
unfolding before
before_refl a = ground arith

-- One step of the choice: the new row wins, or the old choice stays.
older_cases :
    (x : Scan) (o : Option Scan) (free : Bool) {r : Scan}
    → (if free then some (older x o) else o) ≡ some r
    → ((free ≡ true) × (x ≡ r) × ((y : Scan) → o ≡ some y → before x y ≡ true))
      ⊎ ((o ≡ some r) × (free ≡ true → before r x ≡ true))
older_cases x o false e = inr (e, λ h. cc)
older_cases x none true e = inl (refl, ground arith, λ y h. cc)
older_cases x (some y) true e = elim (Bool-cases (before x y)) [
  | inl b ↦
      inl (refl, ground arith, λ z h. subst (λ (v : Scan). before x v ≡ true) (ground arith) b)
  | inr b ↦
      let e' : y ≡ _ = ground arith in
      inr (ap some e', λ h. subst (λ (v : Scan). before v x ≡ true) e' (before_total x y b))
]

module _ (locked : ℕ → Bool) where
  free_test : Scan → Bool
  free_test x = is_ready x && not (locked x.id)

  oldest_cases :
      (x : Scan) (xs : List Scan) {r : Scan}
      → oldest_ready locked (x ∷ xs) ≡ some r
      → (IsFree locked x
          × (x ≡ r)
          × ((y : Scan) → oldest_ready locked xs ≡ some y → before x y ≡ true))
        ⊎ ((oldest_ready locked xs ≡ some r) × (IsFree locked x → before r x ≡ true))
  unfolding oldest_ready
  oldest_cases x xs e = older_cases x (oldest_ready locked xs) (is_ready x && not (locked x.id)) e

  oldest_ready-IsFree :
      (xs : List Scan) {r : Scan} → oldest_ready locked xs ≡ some r → IsFree locked r
  unfolding oldest_ready
  oldest_ready-IsFree [] e = cc
  oldest_ready-IsFree (x ∷ xs) e = elim (oldest_cases x xs e) [
    | inl (free, same, _) ↦ subst (IsFree locked) same free
    | inr (rest, _) ↦ oldest_ready-IsFree xs rest
  ]

  none-IsFree : (xs : List Scan) → oldest_ready locked xs ≡ none → All (λ x. IsFree locked x → ⊥) xs
  unfolding oldest_ready
  none-IsFree [] e = tt
  none-IsFree (x ∷ xs) e = (ground arith, none-IsFree xs (ground arith))

  -- What stands before the first free row stands before every free row.
  before-All :
      (r : Scan) (xs : List Scan)
      → ((y : Scan)
          → oldest_ready locked xs ≡ some y
          → All (λ x. IsFree locked x → before y x ≡ true) xs)
      → ((y : Scan) → oldest_ready locked xs ≡ some y → before r y ≡ true)
      → All (λ x. IsFree locked x → before r x ≡ true) xs
  before-All r xs firsts ahead = elim (Option-cases (oldest_ready locked xs)) [
    | inl e ↦
        All-map_impl (λ x. IsFree locked x → ⊥) (λ x. IsFree locked x → before r x ≡ true)
          (λ x h f. absurd (h f)) xs (none-IsFree xs e)
    | inr (y, e) ↦
        All-map_impl (λ x. IsFree locked x → before y x ≡ true)
          (λ x. IsFree locked x → before r x ≡ true) (λ x h f. before_trans r y x (ahead y e) (h f))
          xs (firsts y e)
  ]

  oldest_ready-first :
      (xs : List Scan) {r : Scan}
      → oldest_ready locked xs ≡ some r
      → All (λ x. IsFree locked x → before r x ≡ true) xs
  unfolding oldest_ready
  oldest_ready-first [] e = tt
  oldest_ready-first (x ∷ xs) {r} e = elim (oldest_cases x xs e) [
    | inl (free, same, ahead) ↦
        subst (λ (v : Scan). All (λ y. IsFree locked y → before v y ≡ true) (x ∷ xs)) same
          (λ _. before_refl x, before-All x xs (λ y e'. oldest_ready-first xs e') ahead)
    | inr (rest, ahead) ↦ (ahead, oldest_ready-first xs rest)
  ]

  oldest_ready-All :
      (P : Scan → Type 0) (xs : List Scan) {r : Scan}
      → All P xs
      → oldest_ready locked xs ≡ some r
      → P r
  unfolding oldest_ready
  oldest_ready-All P [] h e = cc
  oldest_ready-All P (x ∷ xs) h e = elim (oldest_cases x xs e) [
    | inl (free, same, _) ↦ subst P same h.0
    | inr (rest, _) ↦ oldest_ready-All P xs h.1 rest
  ]

  oldest_ready-by_key :
      (xs : List Scan) {r : Scan}
      → UniqueIds xs
      → oldest_ready locked xs ≡ some r
      → scan_by_id r.id xs ≡ some r
  unfolding oldest_ready
  oldest_ready-by_key [] u e = cc
  oldest_ready-by_key (x ∷ xs) {r} u e = elim (oldest_cases x xs e) [
    | inl (free, same, _) ↦
        subst (λ (v : Scan). scan_by_id v.id (x ∷ xs) ≡ some v) same (rw (==_refl x.id))
    | inr (rest, _) ↦
        rw (==_sym r.id x.id (oldest_ready-All (λ y. (y.id == x.id) ≡ false) xs u.0 rest))
          (oldest_ready-by_key xs u.1 rest)
  ]

module _ (locked : ℕ → Bool) (now : ℕ) (s : Session) where
  claim_none : oldest_ready locked s.working.scans ≡ none → (claim_next_scan locked now s).0 ≡ none
  unfolding claim_next_scan
  claim_none e = rw (e, claim_next_scan)

  claim_some :
      {r : Scan}
      → oldest_ready locked s.working.scans ≡ some r
      → claim_next_scan locked now s ≡ (
        some (r.id, r.tenant_id),
        commit (
            with_scans s
              (update_where (λ x. x.id == r.id && is_ready x) (start_run now) s.working.scans)),
      )
  unfolding claim_next_scan
  claim_some e = rw (e, claim_next_scan)

  claim_row :
      (k tenant : ℕ)
      → (claim_next_scan locked now s).0 ≡ some (k, tenant)
      → (r : Scan) × (oldest_ready locked s.working.scans ≡ some r)
        × (r.id ≡ k)
        × (r.tenant_id ≡ tenant)
  claim_row k tenant h = elim (Option-cases (oldest_ready locked s.working.scans)) [
    | inl e ↦ absurd (cc (h, claim_none e))
    | inr (r, e) ↦ let eq = claim_some e in (r, e, ground (arith, h, eq), ground (arith, h, eq))
  ]

-- The statement of the claim hits exactly the row that was chosen.
claim_after :
    (locked : ℕ → Bool) (now : ℕ) (s : Session) {r : Scan}
    → UniqueIds s.working.scans
    → oldest_ready locked s.working.scans ≡ some r
    → scan_by_id r.id (claim_next_scan locked now s).1.working.scans ≡ some (start_run now r)
claim_after locked now s {r} u e = rw (claim_some locked now s e) (
    by_key-update_where (λ x. x.id) (λ x. x.id == r.id && is_ready x) (start_run now) (λ a. refl)
      r.id s.working.scans
    ∙ ap (map_option (λ a. if a.id == r.id && is_ready a then start_run now a else a))
        (oldest_ready-by_key locked s.working.scans u e)
    ∙ ap (λ (b : Bool). some (if b then start_run now r else r))
        (both→and (r.id == r.id) (is_ready r) (==_refl r.id)
          (and→both (is_ready r) (not (locked r.id))
            (oldest_ready-IsFree locked s.working.scans e)).0))

-- With ids that name one row each, a claim that answers with an id and a tenant has taken a ready
-- row of that id and tenant that no other transaction had locked and that no such row precedes in
-- the order of dispatch time and id, and that row is now running and started now.
pub claim_next_scan-oldest :
    (locked : ℕ → Bool) (now : ℕ) (s : Session) (k tenant : ℕ)
    → UniqueIds s.working.scans
    → (claim_next_scan locked now s).0 ≡ some (k, tenant)
    → (r : Scan) × (scan_by_id k s.working.scans ≡ some r)
      × (r.tenant_id ≡ tenant)
      × (is_ready r && not (locked k) ≡ true)
      × All (λ x. is_ready x && not (locked x.id) ≡ true → before r x ≡ true) s.working.scans
      × (scan_by_id k (claim_next_scan locked now s).1.working.scans ≡ some (start_run now r))
claim_next_scan-oldest locked now s k tenant u h =
    let (r, e, same, owner) = claim_row locked now s k tenant h in
    (
      r,
      subst (λ (n : ℕ). scan_by_id n s.working.scans ≡ some r) same
          (oldest_ready-by_key locked s.working.scans u e),
      owner,
      subst (λ (n : ℕ). is_ready r && not (locked n) ≡ true) same
          (oldest_ready-IsFree locked s.working.scans e),
      oldest_ready-first locked s.working.scans e,
      subst
          (λ (n : ℕ).
            scan_by_id n (claim_next_scan locked now s).1.working.scans ≡ some (start_run now r))
          same (claim_after locked now s u e),
    )

-- A claim comes back empty exactly if every ready row is locked by another transaction.
pub claim_next_scan-none :
    (locked : ℕ → Bool) (now : ℕ) (s : Session)
    → ((claim_next_scan locked now s).0 ≡ none)
      ↔ All (λ x. is_ready x && not (locked x.id) ≡ true → ⊥) s.working.scans
claim_next_scan-none locked now s = (
  λ h. elim (Option-cases (oldest_ready locked s.working.scans)) [
    | inl e ↦ none-IsFree locked s.working.scans e
    | inr (r, e) ↦ absurd (cc (h, claim_some locked now s e))
  ],
  λ h. elim (Option-cases (oldest_ready locked s.working.scans)) [
    | inl e ↦ claim_none locked now s e
    | inr (r, e) ↦ absurd (
        oldest_ready-All locked (λ x. IsFree locked x → ⊥) s.working.scans h e
          (oldest_ready-IsFree locked s.working.scans e))
  ],
)

pending_of_free :
    (locked : ℕ → Bool) (r : Scan) → IsFree locked r → status_eq r.status pending ≡ true
unfolding is_ready
pending_of_free locked r h = ground arith

abbrev SameId : (a b : Scan) → NotBack a b → b.id ≡ a.id
SameId a b h = h.0

-- A scan is claimed once: after one claim has answered with an id, and any further operations of
-- any callers, no later claim answers with that id. Ids name one row each.
pub claimed_once :
    (locked locked' : ℕ → Bool) (now now' : ℕ) (ops : List Op) (s : Session)
    (k tenant k' tenant' : ℕ)
    → UniqueIds s.working.scans
    → (claim_next_scan locked now s).0 ≡ some (k, tenant)
    → (claim_next_scan locked' now' (run_all ops (claim_next_scan locked now s).1)).0
      ≡ some (k', tenant')
    → k ≢ k'
unfolding status_eq
claimed_once locked locked' now now' ops s k tenant k' tenant' u h h' same =
    let t : Session = (claim_next_scan locked now s).1 in
    let v : Session = run_all ops t in
    let u-t =
      UniqueKeys-Pointwise (λ r. r.id) NotBack SameId s.working.scans t.working.scans
        (claim-NotBack locked now s) u in
    let u-v =
      UniqueKeys-Pointwise (λ r. r.id) NotBack SameId t.working.scans v.working.scans
        (run_all-NotBack ops t) u-t in
    let (r, e, id-r, _) = claim_row locked now s k tenant h in
    let (r', e', id-r', _) = claim_row locked' now' v k' tenant' h' in
    let (b, found, left) =
      by_key-Pointwise (λ x. x.id) NotBack SameId r.id t.working.scans v.working.scans
        (run_all-NotBack ops t) (claim_after locked now s u e) in
    let there : scan_by_id r.id v.working.scans ≡ some r' =
      subst (λ (n : ℕ). scan_by_id n v.working.scans ≡ some r') (id-r' ∙ sym same ∙ sym id-r)
        (oldest_ready-by_key locked' v.working.scans u-v e') in
    cc (
      some-injective b r' (sym found ∙ there),
      left.1 refl,
      pending_of_free locked' r' (oldest_ready-IsFree locked' v.working.scans e'),
    )
