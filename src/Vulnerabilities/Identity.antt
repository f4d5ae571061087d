-- ===== src/Vulnerabilities/Identity.antt =====
-- `finding_identity` of app/modules/vulnerabilities/service.py. `repr` is Python's text of a list or
-- a dict inside the metadata, which the scanner's own drafts never hold.
use soc360_pymes.Prelude.{
  ℕ, suc, String, true, false, not, Option, none, some, List, [], ◌∷◌, ◌++◌, if◌then◌else◌, any,
  is_empty,
}
use soc360_pymes.Text.{codes, strip, lower, upper, digits}
use soc360_pymes.Json.{Value, null, boolean, number, text, array, object, Fields, get_field}

-- `app/modules/scans/nmap/findings.py`, with scores in tenths
pub record FindingDraft : Type 0 where
  pub title : String
  pub description : String
  pub severity : String
  pub cve_id : Option String
  pub cvss_score : Option ℕ
  pub metadata : Fields

module _ (repr : Value → List ℕ) where
  -- `str(value)`
  unfoldable pub str_of : Value → List ℕ
  unfolding digits
  str_of null = codes "None"
  str_of (boolean true) = codes "True"
  str_of (boolean false) = codes "False"
  str_of (number n) = digits (suc n) n []
  str_of (text t) = codes t
  str_of (array xs) = repr (array xs)
  str_of (object fs) = repr (object fs)

  -- the inner `field`
  unfoldable pub field_text : Fields → String → List ℕ
  unfolding get_field str_of strip
  field_text fields name = elim (get_field name fields) [
    | none ↦ []
    | some value ↦ elim value [ null ↦ [] | other ↦ strip (str_of other) ]
  ]

abbrev pub or_blank : Option String → List ℕ
or_blank none = []
or_blank (some t) = codes t

-- `"|".join(parts)`
unfoldable pub join_bars : List (List ℕ) → List ℕ
join_bars [] = []
join_bars (p ∷ []) = p
join_bars (p ∷ q ∷ ps) = p ++ (b'|' ∷ join_bars (q ∷ ps))

module _ (repr : Value → List ℕ) where
  unfoldable pub finding_identity : Fields → Option String → String → List ℕ
  unfolding field_text join_bars lower upper strip
  finding_identity fields cve_id title =
      let parts =
        lower (field_text repr fields "script_id")
        ∷ lower (field_text repr fields "host")
        ∷ field_text repr fields "port"
        ∷ lower (field_text repr fields "protocol")
        ∷ upper (strip (or_blank cve_id))
        ∷ [] in
      if not (any (λ p. not (is_empty p)) parts)
      then lower (strip (codes title))
      else join_bars parts

  abbrev pub draft_key : FindingDraft → List ℕ
  draft_key d = finding_identity d.metadata d.cve_id d.title
