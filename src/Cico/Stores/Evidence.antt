-- ===== src/Cico/Stores/Evidence.antt =====
-- FileEvidenceAuthorizationStore of cico-service/src/durable-stores.ts. `digest` is the SHA-256 digest of
-- a value under a domain, as lower-case hexadecimal.
pub mod Laws
pub mod Exclusive
use midnight_referendum_app.Base.{
  ◌≡◌, Bool, true, false, not, ◌&&◌, ◌||◌, Option, none, some, [], ◌∷◌, if◌then◌else◌,
}
use midnight_referendum_app.Base.Text.{Text, codes, text_eq, is_digest}
use midnight_referendum_app.Base.Maps.{Map, get, set}
use midnight_referendum_app.Base.Json.{
  Value, Fields, undefined, string, object, end, field, property,
}
use midnight_referendum_app.Cico.Stores.File.{
  File, StoreError, invalid, Outcome, returned, threw, Io, Codec, Mutator, update,
}
use midnight_referendum_app.Cico.Stores.Keyed.{Entry, keyed_codec}

pub record EvidenceRecord : Type 0 where
  pub enrollment_key : Text
  pub material_key : Option Text

abbrev pub EvidenceState : Type 0
EvidenceState = Map EvidenceRecord

-- A text that `/^[a-f0-9]{64}$/u` accepts.
abbrev pub as_digest : Value → Option Text
as_digest (string s) = if is_digest s then some s else none
as_digest _ = none

-- `item.materialKey`, which may be missing.
abbrev pub as_material : Value → Option (Option Text)
as_material undefined = some none
as_material (string s) = if is_digest s then some (some s) else none
as_material _ = none

abbrev evidence_record : Bool → Option Text → Option (Option Text) → Option EvidenceRecord
evidence_record true (some enrollment) (some material) =
    some (record { enrollment_key = enrollment; material_key = material })
evidence_record _ _ _ = none

unfoldable pub parse_evidence : Text → Value → Option EvidenceRecord
unfolding property text_eq
parse_evidence key (object f) =
    evidence_record (is_digest key) (as_digest (property f (codes "enrollmentKey")))
      (as_material (property f (codes "materialKey")))
parse_evidence key _ = none

abbrev material_field : Option Text → Fields
material_field none = end
material_field (some key) = field (codes "materialKey") (string key) end

unfoldable pub evidence_value : EvidenceRecord → Value
evidence_value r =
    object (field (codes "enrollmentKey") (string r.enrollment_key) (material_field r.material_key))

abbrev pub evidence_entry : Entry EvidenceRecord
evidence_entry = record { parse = parse_evidence; render = evidence_value }

abbrev pub evidence_codec : Codec EvidenceState
evidence_codec = keyed_codec evidence_entry (codes "authorizations")

-- One claim, by the digests of what the caller gives.
pub record Claim : Type 0 where
  pub authorization_key : Text
  pub enrollment_key : Text
  pub material_key : Option Text

-- `existing.materialKey && materialKey && existing.materialKey !== materialKey`
abbrev pub materials_differ : Option Text → Option Text → Bool
materials_differ (some known) (some given) = not (text_eq known given)
materials_differ _ _ = false

abbrev pub strengthened : EvidenceRecord → Option Text → EvidenceRecord
strengthened r given = record r {
  material_key = elim r.material_key [ none ↦ given | some known ↦ some known ];
}

-- The two tests that answer `false`.
abbrev pub is_refused : EvidenceRecord → Claim → Bool
is_refused existing claim =
    not (text_eq existing.enrollment_key claim.enrollment_key)
    || materials_differ existing.material_key claim.material_key

abbrev pub grant : Claim → EvidenceState → Option EvidenceRecord → Bool × EvidenceState
grant claim state none = (
  true,
  set state claim.authorization_key
      (record { enrollment_key = claim.enrollment_key; material_key = claim.material_key }),
)
grant claim state (some existing) =
    if is_refused existing claim
    then (false, state)
    else (true, set state claim.authorization_key (strengthened existing claim.material_key))

-- The change of the state; a claim that is not granted writes it back as it was.
unfoldable pub claimed : Claim → Mutator EvidenceState Bool
claimed claim state = returned (grant claim state (get state claim.authorization_key))

abbrev pub is_present : Text → Bool
is_present [] = false
is_present (c ∷ s) = true

abbrev pub is_present_or_absent : Option Text → Bool
is_present_or_absent none = true
is_present_or_absent (some s) = is_present s

module _ (digest : Text → Text → Text) where
  abbrev pub claim_of : Text → Text → Option Text → Claim
  claim_of authorization enrollment_id material = record {
    authorization_key = digest (codes "evidence") authorization;
    enrollment_key = digest (codes "enrollment") enrollment_id;
    material_key = elim material [ none ↦ none | some m ↦ some (digest (codes "material") m) ];
  }

  unfoldable pub claim : Text → Text → Option Text → Io → File → Outcome Bool × File
  unfolding claimed
  claim authorization enrollment_id material io file =
      if is_present authorization && is_present enrollment_id && is_present_or_absent material
      then update evidence_codec io (claimed (claim_of authorization enrollment_id material)) file
      else (threw invalid, file)
