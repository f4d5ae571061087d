-- ===== src/Scans/Authoring/Outcomes.antt =====
-- Commit before publish in `create_scan` and `update_scan` of app/modules/scans/service.py: what a
-- call leaves in the database and on the stream, on every path.
use soc360_pymes.Prelude.{
  ℕ, ◌≡◌, refl, ◌⊎◌, inl, inr, true, false, Option, none, some, List, [], ◌∷◌, ◌++◌, ◌==◌, is_empty,
  Bool-cases, Option-cases,
}
use soc360_pymes.Sql.{update_where}
use soc360_pymes.Outcome.{ok, err, Result-cases}
use soc360_pymes.Events.{Event, scan_created, scan_updated}
use soc360_pymes.Json.{object, Fields}
use soc360_pymes.Database.{Scan, World, Env, scans_of, committed_scans}
use soc360_pymes.Scans.Config.{validate_scan_config}
use soc360_pymes.Scans.Service.{
  ServiceError, integrity_error, config_error, commit_failed, publish_failed, Reply, get_scan,
  publish,
}
use soc360_pymes.Scans.Authoring.{
  ScanCreate, ScanPatch, create_scan, update_scan, insert_scan, insert_violation, new_scan,
  store_patch, update_violation, patched, changed_fields, effective_config, violation_error,
  null_sent,
}

-- Three ways in which a writing call can end: it has stored the rows and announced them, it has
-- stored them and the stream refused the event, or nothing was stored or announced.
abbrev pub Announced : {A : Type 0} → World → List Scan → Event → A → Reply A → Type 0
Announced w rows event a (result, w') =
    (result ≡ ok a) × (committed_scans w' ≡ rows) × (w'.events ≡ w.events ++ event ∷ [])

abbrev pub Unannounced : {A : Type 0} → World → List Scan → Reply A → Type 0
Unannounced w rows (result, w') =
    (result ≡ err publish_failed) × (committed_scans w' ≡ rows) × (w'.events ≡ w.events)

abbrev pub Nothing : {A : Type 0} → World → Reply A → Type 0
Nothing w (result, w') =
    ((e : ServiceError) × (result ≡ err e))
    × (committed_scans w' ≡ committed_scans w)
    × (w'.events ≡ w.events)

abbrev pub created_event : Scan → Event
created_event r = scan_created r.tenant_id r.id r.asset_id r.name r.scan_type r.created_at

insert_outcomes :
    (env : Env) (r : Scan) (w : World)
    → Announced w (scans_of w ++ r ∷ []) (created_event r) r (insert_scan env r w)
      ⊎ (Unannounced w (scans_of w ++ r ∷ []) (insert_scan env r w)
          ⊎ Nothing w (insert_scan env r w))
unfolding insert_scan publish
insert_outcomes env r w = elim (Option-cases (insert_violation r w)) [
  | inr (v, e) ↦ inr (inr (rw (e, insert_scan) ((violation_error v, refl), refl, refl)))
  | inl e ↦ elim (Bool-cases env.commit_goes) [
    | inr c ↦ inr (inr (rw (e, insert_scan, c) ((commit_failed, refl), refl, refl)))
    | inl c ↦ elim (Bool-cases env.publish_goes) [
      | inl p ↦ inl (rw (e, insert_scan, c, p) (refl, refl, refl))
      | inr p ↦ inr (inl (rw (e, insert_scan, c, p) (refl, refl, refl)))
    ]
  ]
]

-- `create_scan` ends in one of three ways. The new row, pending and of the caller's tenant, is
-- committed and `scan.created` is on the stream behind it; or the row is committed, the stream
-- refused the event, and the call raises; or the call raises, and nothing is committed or
-- announced.
create_scan_outcomes :
    (env : Env) (d : ScanCreate) (tenant : ℕ) (w : World)
    → ((normalised : Fields) × (validate_scan_config d.scan_type (object d.config) ≡ ok normalised)
        × (Announced w
              (scans_of w ++ new_scan env tenant d normalised ∷ [])
              (created_event (new_scan env tenant d normalised))
              (new_scan env tenant d normalised)
              (create_scan env d tenant w)
            ⊎ Unannounced w
                (scans_of w ++ new_scan env tenant d normalised ∷ [])
                (create_scan env d tenant w)))
      ⊎ Nothing w (create_scan env d tenant w)
unfolding create_scan
create_scan_outcomes env d tenant w =
    elim (Result-cases (validate_scan_config d.scan_type (object d.config))) [
      | inr (x, e) ↦ inr (rw (e, create_scan) ((config_error x, refl), refl, refl))
      | inl (n, e) ↦ elim (insert_outcomes env (new_scan env tenant d n) w) [
        | inl a ↦ inl (n, e, rw (e, create_scan) (inl a))
        | inr rest ↦ elim rest [
          | inl u ↦ inl (n, e, rw (e, create_scan) (inr u))
          | inr z ↦ inr (rw (e, create_scan) z)
        ]
      ]
    ]

-- An update that is stored, with the event of its changed fields if there are any.
abbrev pub Updated : Env → ScanPatch → Fields → Scan → World → Reply (Option Scan) → Type 0
Updated env p n scan w (result, w') =
    (committed_scans w' ≡ update_where (λ q. q.id == scan.id) (patched p n) (scans_of w))
    × (((is_empty (changed_fields p n scan) ≡ true)
          × (result ≡ ok (some (patched p n scan)))
          × (w'.events ≡ w.events))
        ⊎ ((is_empty (changed_fields p n scan) ≡ false)
            × (((result ≡ ok (some (patched p n scan)))
                  × (w'.events
                      ≡ w.events
                        ++ scan_updated scan.tenant_id scan.id (changed_fields p n scan) ∷ []))
                ⊎ ((result ≡ err publish_failed) × (w'.events ≡ w.events)))))

store_outcomes :
    (env : Env) (p : ScanPatch) (n : Fields) (scan : Scan) (w : World)
    → Updated env p n scan w (store_patch env p n scan w) ⊎ Nothing w (store_patch env p n scan w)
unfolding store_patch publish patched
store_outcomes env p n scan w = elim (Option-cases (update_violation p (patched p n scan) w)) [
  | inr (v, e) ↦ inr (rw (e, store_patch) ((violation_error v, refl), refl, refl))
  | inl e ↦ elim (Bool-cases env.commit_goes) [
    | inr c ↦ inr (rw (e, store_patch, c) ((commit_failed, refl), refl, refl))
    | inl c ↦ elim (Bool-cases (is_empty (changed_fields p n scan))) [
      | inl z ↦ inl (rw (e, store_patch, c, z) (refl, inl (refl, refl, refl)))
      | inr z ↦ elim (Bool-cases env.publish_goes) [
        | inl g ↦ inl (rw (e, store_patch, c, z, g) (refl, inr (refl, inl (refl, refl))))
        | inr g ↦ inl (rw (e, store_patch, c, z, g) (refl, inr (refl, inr (refl, refl))))
      ]
    ]
  ]
]

-- `update_scan` answers None for a scan that is not visible, and then leaves everything alone.
-- Otherwise it ends in one of two ways. The row is committed with the effective values, and
-- `scan.updated` with the fields that changed is on the stream, or was refused by it, exactly if a
-- field changed; or the call raises, and nothing is committed or announced.
update_scan_outcomes :
    (env : Env) (scan_id : ℕ) (tenant : Option ℕ) (p : ScanPatch) (w : World)
    → ((get_scan scan_id tenant w ≡ none) × (update_scan env scan_id tenant p w ≡ (ok none, w)))
      ⊎ (((scan : Scan) × (n : Fields) × (get_scan scan_id tenant w ≡ some scan)
            × (effective_config p scan ≡ ok n)
            × Updated env p n scan w (update_scan env scan_id tenant p w))
          ⊎ Nothing w (update_scan env scan_id tenant p w))
unfolding update_scan
update_scan_outcomes env scan_id tenant p w = elim (Option-cases (get_scan scan_id tenant w)) [
  | inl e ↦ inl (e, rw (e, update_scan))
  | inr (scan, e) ↦ elim (Result-cases (effective_config p scan)) [
    | inr (x, g) ↦ inr (inr (rw (e, update_scan, g) ((config_error x, refl), refl, refl)))
    | inl (n, g) ↦ elim (store_outcomes env p n scan w) [
      | inl u ↦ inr (inl (scan, n, e, g, rw (e, update_scan, g) u))
      | inr z ↦ inr (inr (rw (e, update_scan, g) z))
    ]
  ]
]

-- A patch that sends null for the name of a visible scan, with an effective configuration that is
-- accepted, raises the integrity error of the NOT NULL column, which no handler turns into a reply.
update_scan-null_name :
    (env : Env) (scan_id : ℕ) (tenant : Option ℕ) (p : ScanPatch) (w : World) (scan : Scan)
    (n : Fields)
    → get_scan scan_id tenant w ≡ some scan
    → effective_config p scan ≡ ok n
    → p.name ≡ null_sent
    → update_scan env scan_id tenant p w ≡ (err integrity_error, w)
unfolding update_scan store_patch update_violation
update_scan-null_name env scan_id tenant p w scan n e g h = rw (e, update_scan, g, h)
