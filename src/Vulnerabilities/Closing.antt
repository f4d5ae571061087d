-- ===== src/Vulnerabilities/Closing.antt =====
-- The close time of a finding, and what an update leaves behind, for the service calls of
-- app/modules/vulnerabilities/service.py.
use soc360_pymes.Prelude.{
  ℕ, ◌≡◌, String, refl, ◌⊎◌, inl, inr, Bool, true, false, ◌&&◌, Option, none, some, List, [], ◌∷◌,
  ◌++◌, arith, All, All-append, is_none, ◌==◌, Bool-cases, Option-cases,
}
use mathlib.Core.Path.{subst}
use mathlib.Core.Option.{some-injective}
use soc360_pymes.Sql.{first, update_where, delete_where, All-update_where, All-delete_where}
use soc360_pymes.Events.{Event, vulnerability_created, vulnerability_deleted}
use soc360_pymes.Database.{
  Vulnerability, FindingStatus, open_finding, fixed, accepted_risk, false_positive, World, Env,
  vulnerabilities_of, set_vulnerabilities, committed_vulnerabilities,
}
use soc360_pymes.Vulnerabilities.Service.{
  VulnerabilityCreate, VulnerabilityUpdate, status_eq, new_vulnerability, insert_error,
  create_vulnerability, get_vulnerability, close_time, take_status, apply_update, store_update,
  update_vulnerability, delete_vulnerability, commit_and_publish, shown_to,
}

abbrev pub is_open : FindingStatus → Bool
is_open open_finding = true
is_open fixed = false
is_open accepted_risk = false
is_open false_positive = false

-- A finding has a close time exactly if it is not open.
abbrev pub IsTimed : Vulnerability → Type 0
IsTimed v = is_none v.closed_at ≡ is_open v.status

take_status-IsTimed :
    (now : ℕ) (new : Option FindingStatus) (v : Vulnerability)
    → IsTimed v
    → IsTimed (take_status now new v).0
unfolding take_status status_eq close_time
take_status-IsTimed now none v h = h
take_status-IsTimed now (some open_finding) v h = ground (arith, h)
take_status-IsTimed now (some fixed) v h = ground (arith, h)
take_status-IsTimed now (some accepted_risk) v h = ground (arith, h)
take_status-IsTimed now (some false_positive) v h = ground (arith, h)

apply_update-IsTimed :
    (now : ℕ) (p : VulnerabilityUpdate) (v : Vulnerability)
    → IsTimed v
    → IsTimed (apply_update now p v).0
unfolding apply_update
apply_update-IsTimed now p v h = take_status-IsTimed now p.status v h

pub commit_kept :
    {A : Type 0} (env : Env) (event : Event) (a : A) (w : World)
    → (committed_vulnerabilities (commit_and_publish env event a w).1 ≡ committed_vulnerabilities w)
      ⊎ (committed_vulnerabilities (commit_and_publish env event a w).1 ≡ vulnerabilities_of w)
unfolding commit_and_publish
commit_kept env event a w = ground arith

abbrev pub created_event : Vulnerability → Event
created_event v =
    vulnerability_created v.tenant_id v.id v.scan_id v.title v.severity v.cve_id v.created_at

-- One call of the service.
pub data Request : Type 0 where
  create : VulnerabilityCreate → ℕ → Request
  update : ℕ → Option ℕ → VulnerabilityUpdate → Request
  delete : ℕ → Option ℕ → Request

abbrev pub world_after : Env → Request → World → World
world_after env (create d tenant) w = (create_vulnerability env d tenant w).1
world_after env (update vulnerability_id tenant p) w =
    (update_vulnerability env vulnerability_id tenant p w).1
world_after env (delete vulnerability_id tenant) w =
    (delete_vulnerability env vulnerability_id tenant w).1

abbrev pub Timed : List Vulnerability → Type 0
Timed = All IsTimed

first-IsTimed :
    (q : Vulnerability → Bool) (rows : List Vulnerability) {v : Vulnerability}
    → first q rows ≡ some v
    → Timed rows
    → IsTimed v
first-IsTimed q [] e h = cc
first-IsTimed q (x ∷ rows) {v} e h = elim (Bool-cases (q x)) [
  | inl t ↦ subst IsTimed (some-injective x v (rw t at e)) h.0
  | inr f ↦ first-IsTimed q rows {v = v} (rw f at e) h.1
]

pub store_committed :
    (env : Env) (v : Vulnerability) (changed : List String) (w : World)
    → (committed_vulnerabilities (store_update env v changed w).1 ≡ committed_vulnerabilities w)
      ⊎ (committed_vulnerabilities (store_update env v changed w).1
          ≡ update_where (λ q. q.id == v.id) (λ _. v) (vulnerabilities_of w))
unfolding store_update commit_and_publish
store_committed env v changed w = ground arith

module _ (env : Env) (w : World) (working : Timed (vulnerabilities_of w))
    (before : Timed (committed_vulnerabilities w)) where
  create-Timed :
      (d : VulnerabilityCreate) (tenant : ℕ)
      → Timed (committed_vulnerabilities (create_vulnerability env d tenant w).1)
  unfolding create_vulnerability
  create-Timed d tenant =
      let v = new_vulnerability env tenant d in
      elim (Option-cases (insert_error v w)) [
        | inr (x, e) ↦ rw (e, create_vulnerability) before
        | inl e ↦
            rw (e, create_vulnerability)
              (elim (commit_kept env (created_event v) v
                (set_vulnerabilities w (vulnerabilities_of w ++ v ∷ []))) [
                  | inl same ↦ rw same before
                  | inr added ↦
                      rw added
                        (All-append IsTimed (vulnerabilities_of w) (v ∷ []) working (refl, tt))
                ])
      ]

  update-Timed :
      (vulnerability_id : ℕ) (tenant : Option ℕ) (p : VulnerabilityUpdate)
      → Timed (committed_vulnerabilities (update_vulnerability env vulnerability_id tenant p w).1)
  unfolding update_vulnerability get_vulnerability
  update-Timed vulnerability_id tenant p =
      elim (Option-cases (get_vulnerability vulnerability_id tenant w)) [
        | inl e ↦ rw (e, update_vulnerability) before
        | inr (v, e) ↦
            let (v', changed) = apply_update env.now p v in
            let timed : IsTimed v' = apply_update-IsTimed env.now p v (
              first-IsTimed (λ a. a.id == vulnerability_id && shown_to tenant a)
                (vulnerabilities_of w) e working) in
            rw (e, update_vulnerability)
              (elim (store_committed env v' changed w) [
                | inl same ↦ rw same before
                | inr moved ↦ rw moved (
                    All-update_where IsTimed (λ q. q.id == v'.id) (λ _. v') (λ _ _ _. timed)
                      (vulnerabilities_of w) working)
              ])
      ]

  delete-Timed :
      (vulnerability_id : ℕ) (tenant : Option ℕ)
      → Timed (committed_vulnerabilities (delete_vulnerability env vulnerability_id tenant w).1)
  unfolding delete_vulnerability
  delete-Timed vulnerability_id tenant =
      elim (Option-cases (get_vulnerability vulnerability_id tenant w)) [
        | inl e ↦ rw (e, delete_vulnerability) before
        | inr (v, e) ↦
            let kept = delete_where (λ (q : Vulnerability). q.id == v.id) (vulnerabilities_of w) in
            rw (e, delete_vulnerability)
              (elim (commit_kept env (vulnerability_deleted v.tenant_id v.id) true
                (set_vulnerabilities w kept)) [
                  | inl same ↦ rw same before
                  | inr gone ↦
                      rw gone (
                        All-delete_where IsTimed (λ q. q.id == v.id) (vulnerabilities_of w) working)
                ])
      ]

  -- Whatever call is made, and whether or not commit and publishing go through: if every finding that
  -- the session sees and every committed one has a close time exactly if it is not open, every
  -- finding committed afterwards has.
  pub world_after-Timed : (r : Request) → Timed (committed_vulnerabilities (world_after env r w))
  world_after-Timed (create d tenant) = create-Timed d tenant
  world_after-Timed (update vulnerability_id tenant p) = update-Timed vulnerability_id tenant p
  world_after-Timed (delete vulnerability_id tenant) = delete-Timed vulnerability_id tenant
