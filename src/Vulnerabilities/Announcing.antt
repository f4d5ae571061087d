-- ===== src/Vulnerabilities/Announcing.antt =====
-- Commit before publish in app/modules/vulnerabilities/service.py.
use soc360_pymes.Prelude.{◌≡◌, ◌⊎◌, true, false, Bool, List, [], ◌∷◌, ◌++◌, String, ◌==◌}
use soc360_pymes.Sql.{update_where}
use soc360_pymes.Events.{Event, vulnerability_updated}
use soc360_pymes.Database.{Vulnerability, World, vulnerabilities_of, set_vulnerabilities}
use soc360_pymes.Vulnerabilities.Service.{committed}

abbrev updated_event : Vulnerability → List String → Event
updated_event v changed = vulnerability_updated v.tenant_id v.id changed

-- A commit that fails leaves the stream and the committed rows; an event stands on the stream only where
-- the commit has gone through, and then all that the session sees is committed.
abbrev pub AnnouncedAfterCommit : Bool → World → World → Type 0
AnnouncedAfterCommit goes w w' =
    (goes ≡ false → (w'.events ≡ w.events) × (w'.session.committed ≡ w.session.committed))
    × ((w'.events ≡ w.events)
        ⊎ ((event : Event) × (w'.events ≡ w.events ++ event ∷ [])
            × (goes ≡ true)
            × (w'.session.committed ≡ w'.session.working)))

abbrev stored : Vulnerability → World → World
stored v w =
    set_vulnerabilities w (update_where (λ q. q.id == v.id) (λ _. v) (vulnerabilities_of w))
