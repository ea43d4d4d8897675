-- ===== src/Cico/Stores/Evidence/Laws.antt =====
-- What the evidence authorizations of cico-service/src/durable-stores.ts promise.
use midnight_referendum_app.Base.{
  ◌≡◌, refl, ap, Bool, true, Option, none, some, [], arith, subst, if_both,
}
use mathlib.Core.Option.{some-injective}
use midnight_referendum_app.Base.Text.{Text, codes, text_eq, is_digest}
use midnight_referendum_app.Base.Maps.{get}
use midnight_referendum_app.Base.Json.{Value, string, object, property}
use midnight_referendum_app.Cico.Stores.File.{Outcome, returned, threw, IsCodec}
use midnight_referendum_app.Cico.Stores.File.Refines.{Keeps}
use midnight_referendum_app.Cico.Stores.Keyed.{
  get-IsStored, IsStored, keyed_codec-IsCodec, set-IsStored,
}
use midnight_referendum_app.Cico.Stores.Evidence.{
  EvidenceRecord, EvidenceState, as_digest, as_material, parse_evidence, evidence_value,
  evidence_entry, evidence_codec, evidence_record, Claim, is_refused, strengthened, grant, claimed,
}

as_digest-again : (v : Value) (s : Text) → as_digest v ≡ some s → is_digest s ≡ true
as_digest-again (string t) s h = ground (arith, h)
as_digest-again v s h = ground (arith, h)

as_material-again : (v : Value) (s : Text) → as_material v ≡ some (some s) → is_digest s ≡ true
as_material-again (string t) s h = ground (arith, h)
as_material-again v s h = ground (arith, h)

abbrev IsWritten : Text → EvidenceRecord → Type 0
IsWritten key r = parse_evidence key (evidence_value r) ≡ some r

-- A record of digests is read as it was written.
pub parse_evidence-value :
    (key enrollment : Text) (material : Option Text)
    → is_digest key ≡ true
    → is_digest enrollment ≡ true
    → ((s : Text) → material ≡ some s → is_digest s ≡ true)
    → IsWritten key (record { enrollment_key = enrollment; material_key = material })
unfolding parse_evidence evidence_value
parse_evidence-value key enrollment none h k j = simp (h, k)
parse_evidence-value key enrollment (some s) h k j = simp (h, k, j s refl)

evidence_record-IsWritten :
    (key : Text) (b : Bool) (o : Option Text) (m : Option (Option Text)) (r : EvidenceRecord)
    → is_digest key ≡ b
    → ((s : Text) → o ≡ some s → is_digest s ≡ true)
    → ((s : Text) → m ≡ some (some s) → is_digest s ≡ true)
    → evidence_record b o m ≡ some r
    → IsWritten key r
evidence_record-IsWritten key true (some enrollment) (some material) r h k j eq =
    subst (IsWritten key) (some-injective _ _ eq) (
      parse_evidence-value key enrollment material h (k enrollment refl)
        (λ s same. j s (ap some same)))
evidence_record-IsWritten key b o m r h k j eq = cc

parse_evidence-IsWritten :
    (key : Text) (v : Value) (r : EvidenceRecord) → parse_evidence key v ≡ some r → IsWritten key r
unfolding parse_evidence
parse_evidence-IsWritten key (object f) r eq =
    evidence_record-IsWritten key (is_digest key) _ _ r refl
      (as_digest-again (property f (codes "enrollmentKey")))
      (as_material-again (property f (codes "materialKey"))) eq
parse_evidence-IsWritten key v r eq = cc

pub evidence_codec-IsCodec : IsCodec evidence_codec (IsStored evidence_entry)
unfolding text_eq
evidence_codec-IsCodec =
    keyed_codec-IsCodec evidence_entry (codes "authorizations")
      (record { stable = parse_evidence-IsWritten }) refl

-- The digests of a claim.
pub record IsDigested (claim : Claim) : Type 0 where
  pub authorization_key : is_digest claim.authorization_key ≡ true
  pub enrollment_key : is_digest claim.enrollment_key ≡ true
  pub material_key : (s : Text) → claim.material_key ≡ some s → is_digest s ≡ true

abbrev pub AreDigests : Text → Option Text → Type 0
AreDigests enrollment material =
    (is_digest enrollment ≡ true) × ((s : Text) → material ≡ some s → is_digest s ≡ true)

IsWritten-AreDigests :
    (key enrollment : Text) (material : Option Text)
    → IsWritten key (record { enrollment_key = enrollment; material_key = material })
    → AreDigests enrollment material
unfolding parse_evidence evidence_value
IsWritten-AreDigests key enrollment none h = (ground (arith, h), λ s e. cc)
IsWritten-AreDigests key enrollment (some m) h = (ground (arith, h), λ s e. ground (arith, h, e))

strengthened-IsWritten :
    (key enrollment : Text) (known given : Option Text)
    → is_digest key ≡ true
    → ((s : Text) → given ≡ some s → is_digest s ≡ true)
    → IsWritten key (record { enrollment_key = enrollment; material_key = known })
    → IsWritten key
        (strengthened (record { enrollment_key = enrollment; material_key = known }) given)
strengthened-IsWritten key enrollment (some known) given h k j = j
strengthened-IsWritten key enrollment none given h k j =
    parse_evidence-value key enrollment given h (IsWritten-AreDigests key enrollment none j).0 k

grant-IsStored :
    (claim : Claim) (state : EvidenceState) (o : Option EvidenceRecord)
    → IsDigested claim
    → get state claim.authorization_key ≡ o
    → IsStored evidence_entry state
    → IsStored evidence_entry (grant claim state o).1
grant-IsStored claim state none h eq k =
    set-IsStored evidence_entry state _ _
      (parse_evidence-value _ _ _ h.authorization_key h.enrollment_key h.material_key) k
grant-IsStored claim state (some existing) h eq k =
    if_both (λ (x : Bool × EvidenceState). IsStored evidence_entry x.1) (is_refused existing claim)
      _ _ (λ _. k)
      (λ _.
        set-IsStored evidence_entry state _ _
          (strengthened-IsWritten _ existing.enrollment_key existing.material_key claim.material_key
            h.authorization_key h.material_key (get-IsStored evidence_entry state _ existing k eq))
          k)

abbrev state_of : Outcome (Bool × EvidenceState) → EvidenceState
state_of (returned (b, t)) = t
state_of (threw e) = []

-- A claim keeps the state well formed.
pub claimed-Keeps :
    (claim : Claim) → IsDigested claim → Keeps (IsStored evidence_entry) (claimed claim)
unfolding claimed
claimed-Keeps claim h s b t k eq =
    subst (λ o. IsStored evidence_entry (state_of o)) eq
      (grant-IsStored claim s (get s claim.authorization_key) h refl k)
