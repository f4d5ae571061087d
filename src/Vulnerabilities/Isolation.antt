-- ===== src/Vulnerabilities/Isolation.antt =====
-- Tenant isolation of app/modules/vulnerabilities/service.py: what a call for one tenant leaves of the
-- committed findings of the others.
use mathlib.Core.Path.{subst}
use mathlib.Core.Option.{some-injective}
use soc360_pymes.Prelude.{
  ℕ, ◌≡◌, refl, ap, ◌∙◌, inl, inr, Bool, true, false, not, ◌&&◌, some, List, [], ◌∷◌, ◌++◌, arith,
  ◌==◌, All, All-map_impl, Bool-cases, Option-cases, ==_refl, and→both,
}
use soc360_pymes.Sql.{
  select, first, update_where, delete_where, select-update_where, select-delete_where,
  select-append_none, only_row, first-key, UniqueKeys,
}
use soc360_pymes.Events.{vulnerability_deleted}
use soc360_pymes.Database.{
  Vulnerability, World, Env, vulnerabilities_of, set_vulnerabilities, committed_vulnerabilities,
}
use soc360_pymes.Vulnerabilities.Service.{
  VulnerabilityCreate, VulnerabilityUpdate, new_vulnerability, insert_error, create_vulnerability,
  get_vulnerability, take_status, apply_update, update_vulnerability, delete_vulnerability,
}
use soc360_pymes.Vulnerabilities.Closing.{created_event, commit_kept, store_committed}

abbrev pub foreign : ℕ → List Vulnerability → List Vulnerability
foreign t = select (λ v. not (v.tenant_id == t))

-- What a caller of one tenant can ask.
pub data TenantRequest : Type 0 where
  create : VulnerabilityCreate → TenantRequest
  update : ℕ → VulnerabilityUpdate → TenantRequest
  delete : ℕ → TenantRequest

abbrev pub handle : Env → ℕ → TenantRequest → World → World
handle env t (create d) w = (create_vulnerability env d t w).1
handle env t (update vulnerability_id p) w =
    (update_vulnerability env vulnerability_id (some t) p w).1
handle env t (delete vulnerability_id) w = (delete_vulnerability env vulnerability_id (some t) w).1

first-test :
    (q : Vulnerability → Bool) (rows : List Vulnerability) {v : Vulnerability}
    → first q rows ≡ some v
    → q v ≡ true
first-test q [] e = cc
first-test q (x ∷ rows) {v} e = elim (Bool-cases (q x)) [
  | inl t ↦ subst (λ a. q a ≡ true) (some-injective x v (rw t at e)) t
  | inr f ↦ first-test q rows {v = v} (rw f at e)
]

apply_update-keeps :
    (now : ℕ) (p : VulnerabilityUpdate) (v : Vulnerability)
    → ((apply_update now p v).0.id ≡ v.id) × ((apply_update now p v).0.tenant_id ≡ v.tenant_id)
unfolding apply_update take_status
apply_update-keeps now p v = ground arith

module _ (env : Env) (t : ℕ) (w : World)
    (fresh : vulnerabilities_of w ≡ committed_vulnerabilities w)
    (u : UniqueKeys (λ (v : Vulnerability). v.id) (vulnerabilities_of w)) where
  abbrev Kept : World → Type 0
  Kept w' = foreign t (committed_vulnerabilities w') ≡ foreign t (committed_vulnerabilities w)

  Kept-working :
      (w' : World) (rows : List Vulnerability)
      → committed_vulnerabilities w' ≡ rows
      → foreign t rows ≡ foreign t (vulnerabilities_of w)
      → Kept w'
  Kept-working w' rows e h = ap (foreign t) e ∙ h ∙ ap (foreign t) fresh

  -- the row that the call found is of the tenant, and so is every row with its id
  module _ (k : ℕ) {v : Vulnerability} (e : get_vulnerability k (some t) w ≡ some v) where
    found : first (λ a. a.id == k && a.tenant_id == t) (vulnerabilities_of w) ≡ some v
    unfolding get_vulnerability
    found = e

    own : (v.tenant_id == t) ≡ true
    own =
        (and→both (v.id == k) (v.tenant_id == t)
          (first-test (λ a. a.id == k && a.tenant_id == t) (vulnerabilities_of w) found)).1

    same_id : v.id ≡ k
    same_id =
        first-key (λ (a : Vulnerability). a.id) k (λ a. a.tenant_id == t) (vulnerabilities_of w)
          found

    own_rows :
        All (λ a. (a.id == v.id) ≡ true → not (a.tenant_id == t) ≡ false) (vulnerabilities_of w)
    own_rows = rw same_id (
        All-map_impl (λ a. (a.id == k) ≡ true → (a.tenant_id == t) ≡ true)
          (λ a. (a.id == k) ≡ true → not (a.tenant_id == t) ≡ false) (λ a h g. ap not (h g))
          (vulnerabilities_of w)
          (only_row (λ (a : Vulnerability). a.tenant_id == t) (λ a. a.id) k (vulnerabilities_of w) u
            found))

    foreign-update :
        (v' : Vulnerability)
        → v'.id ≡ v.id
        → v'.tenant_id ≡ v.tenant_id
        → foreign t (update_where (λ a. a.id == v'.id) (λ _. v') (vulnerabilities_of w))
          ≡ foreign t (vulnerabilities_of w)
    foreign-update v' i same =
        select-update_where (λ a. not (a.tenant_id == t)) (λ a. a.id == v'.id) (λ _. v')
          (vulnerabilities_of w)
          (All-map_impl (λ a. (a.id == v.id) ≡ true → not (a.tenant_id == t) ≡ false)
            (λ a.
              (a.id == v'.id) ≡ true
              → (not (a.tenant_id == t) ≡ false) × (not (v'.tenant_id == t) ≡ false))
            (λ a h g. (h (rw (← i) g), rw same (ap not own))) (vulnerabilities_of w) own_rows)

    foreign-delete :
        foreign t (delete_where (λ a. a.id == v.id) (vulnerabilities_of w))
        ≡ foreign t (vulnerabilities_of w)
    foreign-delete =
        select-delete_where (λ a. not (a.tenant_id == t)) (λ a. a.id == v.id) (vulnerabilities_of w)
          own_rows

  create-Kept : (d : VulnerabilityCreate) → Kept (create_vulnerability env d t w).1
  unfolding create_vulnerability
  create-Kept d =
      let v = new_vulnerability env t d in
      let rows = vulnerabilities_of w ++ v ∷ [] in
      elim (Option-cases (insert_error v w)) [
        | inr (x, e) ↦ rw (e, create_vulnerability) refl
        | inl e ↦
            let w' = set_vulnerabilities w rows in
            rw (e, create_vulnerability)
              (elim (commit_kept env (created_event v) v w') [
                | inl same ↦ ap (foreign t) same
                | inr added ↦
                    ap (foreign t) added
                    ∙ select-append_none (λ a. not (a.tenant_id == t)) (vulnerabilities_of w) v
                        (ap not (==_refl t))
                    ∙ ap (foreign t) fresh
              ])
      ]

  update-Kept : (k : ℕ) (p : VulnerabilityUpdate) → Kept (update_vulnerability env k (some t) p w).1
  unfolding update_vulnerability
  update-Kept k p = elim (Option-cases (get_vulnerability k (some t) w)) [
    | inl e ↦ rw (e, update_vulnerability) refl
    | inr (v, e) ↦
        let (v', changed) = apply_update env.now p v in
        let (id_kept, tenant_kept) = apply_update-keeps env.now p v in
        rw (e, update_vulnerability)
          (elim (store_committed env v' changed w) [
            | inl same ↦ ap (foreign t) same
            | inr moved ↦
                ap (foreign t) moved
                ∙ foreign-update k e v' id_kept tenant_kept
                ∙ ap (foreign t) fresh
          ])
  ]

  delete-Kept : (k : ℕ) → Kept (delete_vulnerability env k (some t) w).1
  unfolding delete_vulnerability
  delete-Kept k = elim (Option-cases (get_vulnerability k (some t) w)) [
    | inl e ↦ rw (e, delete_vulnerability) refl
    | inr (v, e) ↦
        let rows = delete_where (λ (q : Vulnerability). q.id == v.id) (vulnerabilities_of w) in
        rw (e, delete_vulnerability)
          (elim (commit_kept env (vulnerability_deleted v.tenant_id v.id) true
            (set_vulnerabilities w rows)) [
              | inl same ↦ ap (foreign t) same
              | inr gone ↦ ap (foreign t) gone ∙ foreign-delete k e ∙ ap (foreign t) fresh
            ])
  ]

  -- Whatever a caller of one tenant asks, in a fresh transaction over rows with distinct ids, and
  -- whether or not commit and publishing go through, the committed findings of the other tenants stay
  -- the same rows in the same order.
  pub handle-Kept :
      (r : TenantRequest)
      → foreign t (committed_vulnerabilities (handle env t r w))
        ≡ foreign t (committed_vulnerabilities w)
  handle-Kept (create d) = create-Kept d
  handle-Kept (update k p) = update-Kept k p
  handle-Kept (delete k) = delete-Kept k
