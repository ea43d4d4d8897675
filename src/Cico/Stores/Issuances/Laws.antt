-- ===== src/Cico/Stores/Issuances/Laws.antt =====
-- What the issuance store of cico-service/src/durable-stores.ts keeps.
use midnight_referendum_app.Base.{
  ◌≡◌, ◌≢◌, refl, subst, true, some, [], ◌∷◌, arith, Bool-cases, inl, inr,
}
use mathlib.Core.Option.{some-injective}
use midnight_referendum_app.Base.Text.{Text, codes, text_eq, is_digest}
use midnight_referendum_app.Base.Json.{Value, Fields, object, property, string, as_non_empty}
use midnight_referendum_app.Receipts.{receipt_value, ◌>>=◌}
use midnight_referendum_app.Receipts.Laws.{Ensures, bind-Ensures, as_non_empty-ne}
use midnight_referendum_app.Cico.Stores.File.{IsCodec}
use midnight_referendum_app.Cico.Stores.Keyed.{IsStored, keyed_codec-IsCodec}
use midnight_referendum_app.Cico.Stores.Evidence.{as_digest}
use midnight_referendum_app.Cico.Stores.Receipts.{canonical_receipt}
use midnight_referendum_app.Cico.Stores.Receipts.Laws.{
  canonical_stable, and_left, and_right, same_text, same_receipt-eq,
}
use midnight_referendum_app.Cico.Stores.Issuances.{
  PersistedResult, PersistedRecord, result_of_fields, parse_persisted_result, record_of_fields,
  parse_issuance, issuance_value, issuance_entry, issuance_codec, same_record,
}

-- A result that the store can read back.
pub record IsReadable (r : PersistedResult) : Type 0 where
  pub issuance_id : r.issuance_id ≢ []
  pub blind : is_digest r.credential_blind_hex ≡ true
  pub leaf : is_digest r.credential_leaf_hex ≡ true
  pub receipt : canonical_receipt (receipt_value r.receipt) ≡ some r.receipt

pub record IsRecord (r : PersistedRecord) : Type 0 where
  pub fingerprint : is_digest r.fingerprint_hash ≡ true
  pub result : IsReadable r.result

as_non_empty-string : (s : Text) → s ≢ [] → as_non_empty (string s) ≡ some s
as_non_empty-string [] h = absurd (h refl)
as_non_empty-string (c ∷ s) h = refl

pub parse_issuance-value :
    (key : Text) (r : PersistedRecord)
    → is_digest key ≡ true
    → IsRecord r
    → parse_issuance key (issuance_value r) ≡ some r
unfolding parse_issuance issuance_value ◌>>=◌
parse_issuance-value key r h k = simp (
  h,
  k.fingerprint,
  as_non_empty-string _ k.result.issuance_id,
  k.result.blind,
  k.result.leaf,
  k.result.receipt,
)

as_digest-IsDigest : (v : Value) (s : Text) → as_digest v ≡ some s → is_digest s ≡ true
as_digest-IsDigest (string t) s h = ground (arith, h)
as_digest-IsDigest v s h = ground (arith, h)

result_of_fields-IsReadable : (f : Fields) → Ensures IsReadable (result_of_fields f)
result_of_fields-IsReadable f = bind-Ensures IsReadable _ _ λ id h1.
    bind-Ensures IsReadable _ _ λ blind h2. bind-Ensures IsReadable _ _ λ leaf h3.
      bind-Ensures IsReadable _ _ λ receipt h4 r e.
        subst IsReadable (some-injective _ _ e) (record {
          issuance_id = as_non_empty-ne (property f (codes "issuanceId")) id h1;
          blind = as_digest-IsDigest (property f (codes "credentialBlindHex")) blind h2;
          leaf = as_digest-IsDigest (property f (codes "credentialLeafHex")) leaf h3;
          receipt = canonical_stable (property f (codes "receipt")) receipt h4;
        })

parse_persisted-IsReadable :
    (v : Value) (r : PersistedResult) → parse_persisted_result v ≡ some r → IsReadable r
parse_persisted-IsReadable (object f) r e = result_of_fields-IsReadable f r e
parse_persisted-IsReadable v r e = cc

record_of_fields-IsRecord : (f : Fields) → Ensures IsRecord (record_of_fields f)
record_of_fields-IsRecord f = bind-Ensures IsRecord _ _ λ fingerprint h1.
    bind-Ensures IsRecord _ _ λ result h2 r e. subst IsRecord (some-injective _ _ e) (record {
      fingerprint = as_digest-IsDigest (property f (codes "fingerprintHash")) fingerprint h1;
      result = parse_persisted-IsReadable (property f (codes "result")) result h2;
    })

parse_issuance_stable :
    (key : Text) (v : Value) (r : PersistedRecord)
    → parse_issuance key v ≡ some r
    → parse_issuance key (issuance_value r) ≡ some r
unfolding parse_issuance
parse_issuance_stable key (object f) r e = elim (Bool-cases (is_digest key)) [
  | inl h ↦ parse_issuance-value key r h (record_of_fields-IsRecord f r (simp (h) at e))
  | inr h ↦ absurd (cc (simp (h) at e))
]
parse_issuance_stable key v r e = cc

pub issuance_codec-IsCodec : IsCodec issuance_codec (IsStored issuance_entry)
unfolding text_eq
issuance_codec-IsCodec =
    keyed_codec-IsCodec issuance_entry (codes "issuances")
      (record { stable = parse_issuance_stable }) refl

pub same_record-eq : (a b : PersistedRecord) → same_record a b ≡ true → a ≡ b
unfolding same_record
same_record-eq a b h0 =
    let h1 = and_left _ _ h0 in
    let h2 = and_left _ _ h1 in
    let h3 = and_left _ _ h2 in
    let h4 = and_left _ _ h3 in
    λ i. record {
      fingerprint_hash = same_text a.fingerprint_hash b.fingerprint_hash h4 i;
      result = record {
        issuance_id = same_text a.result.issuance_id b.result.issuance_id (and_right _ _ h3) i;
        credential_blind_hex =
            same_text a.result.credential_blind_hex b.result.credential_blind_hex (and_right _ _ h2)
              i;
        credential_leaf_hex =
            same_text a.result.credential_leaf_hex b.result.credential_leaf_hex (and_right _ _ h1)
              i;
        receipt = same_receipt-eq a.result.receipt b.result.receipt (and_right _ _ h0) i;
      };
    }
