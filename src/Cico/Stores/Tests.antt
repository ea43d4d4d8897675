-- ===== src/Cico/Stores/Tests.antt =====
-- Runs of the stores of cico-service/src/durable-stores.ts.
use midnight_referendum_app.Base.{◌≡◌, refl, Bool, true, none, some, List, [], ◌∷◌, arith, All}
use midnight_referendum_app.Base.Text.{Text, codes, is_digest, text_eq}
use midnight_referendum_app.Base.Maps.{get, set}
use midnight_referendum_app.Receipts.{
  CanonicalReceipt, credential, preview, receipt_value, sanitize_canonical_receipt, ◌>>=◌,
}
use midnight_referendum_app.Cico.Registry.{Bytes, hex_bytes}
use midnight_referendum_app.Cico.Stores.File.{
  missing, returned, Io, completes, unwritten, unsynced, run, update, Mutator,
}
use midnight_referendum_app.Cico.Stores.File.Refines.{Stores, ActsAll, run-Refines, missing-Stores}
use midnight_referendum_app.Cico.Stores.Keyed.{IsStored, parse_keyed, render_keyed}
use midnight_referendum_app.Cico.Stores.Insert.{insert}
use midnight_referendum_app.Cico.Stores.Evidence.{
  EvidenceState, evidence_entry, evidence_codec, Claim, claimed, parse_evidence, evidence_value,
}
use midnight_referendum_app.Cico.Stores.Evidence.Laws.{
  IsDigested, evidence_codec-IsCodec, claimed-Keeps,
}
use midnight_referendum_app.Cico.Stores.Evidence.Exclusive.{Agree, grants-Agree, claims}
use midnight_referendum_app.Cico.Stores.Receipts.{
  canonical_receipt, receipt_entry, receipt_codec, put, get_receipt, found, put_receipt,
}
use midnight_referendum_app.Cico.Stores.Receipts.Laws.{receipt_codec-IsCodec, get_receipt-put, puts}
use midnight_referendum_app.Cico.Stores.Hex.{bytes_to_hex, hex_bytes-bytes_to_hex, IsByte}
use midnight_referendum_app.Cico.Stores.Issuances.{
  IssuanceResult, issuance_entry, issuance_codec, put_issuance, get_issuance,
  serialize_issuance_result,
}
use midnight_referendum_app.Cico.Stores.Issuances.Laws.{issuance_codec-IsCodec}
use midnight_referendum_app.Cico.Stores.Issuances.Replay.{IsIssued, inserts, get_issuance-put}

abbrev digest_a : Text
digest_a = codes "aaaaaaaaaaaaaaaaaaaaaaaaaaaaaaaaaaaaaaaaaaaaaaaaaaaaaaaaaaaaaaaa"

abbrev digest_b : Text
digest_b = codes "bbbbbbbbbbbbbbbbbbbbbbbbbbbbbbbbbbbbbbbbbbbbbbbbbbbbbbbbbbbbbbbb"

digest_a-IsDigest : is_digest digest_a ≡ true
unfolding is_digest
digest_a-IsDigest = refl

digest_b-IsDigest : is_digest digest_b ≡ true
unfolding is_digest
digest_b-IsDigest = refl

abbrev plain_claim : Claim
plain_claim = record {
  authorization_key = digest_a;
  enrollment_key = digest_b;
  material_key = none;
}

abbrev full_claim : Claim
full_claim = record plain_claim { material_key = some digest_a }

plain_claim-IsDigested : IsDigested plain_claim
plain_claim-IsDigested = record {
  authorization_key = digest_a-IsDigest;
  enrollment_key = digest_b-IsDigest;
  material_key = λ s e. cc;
}

full_claim-IsDigested : IsDigested full_claim
full_claim-IsDigested = record {
  authorization_key = digest_a-IsDigest;
  enrollment_key = digest_b-IsDigest;
  material_key = λ s e. ground (arith, e, digest_a-IsDigest);
}

empty_evidence : Stores evidence_codec (IsStored evidence_entry) evidence_codec-IsCodec missing []
empty_evidence = missing-Stores evidence_codec (IsStored evidence_entry) evidence_codec-IsCodec

abbrev evidence_calls : List (Io × Mutator EvidenceState Bool)
evidence_calls = (unsynced, claimed plain_claim) ∷ (completes, claimed full_claim) ∷ []

run-Refines_example :
    (t : EvidenceState) × ActsAll evidence_calls [] (run evidence_codec evidence_calls missing).0 t
    × Stores evidence_codec
        (IsStored evidence_entry)
        evidence_codec-IsCodec
        (run evidence_codec evidence_calls missing).1
        t
run-Refines_example =
    run-Refines evidence_codec (IsStored evidence_entry) evidence_codec-IsCodec evidence_calls
      missing []
      (
        claimed-Keeps plain_claim plain_claim-IsDigested,
        (claimed-Keeps full_claim full_claim-IsDigested, tt),
      )
      empty_evidence

first_is_granted : (update evidence_codec completes (claimed full_claim) missing).0 ≡ returned true
unfolding update claimed get
first_is_granted = refl

abbrev lost_claims : List (Io × Claim)
lost_claims = (unwritten, plain_claim) ∷ []

second_is_granted :
    (update evidence_codec completes
      (claimed full_claim)
      (run evidence_codec
        (claims lost_claims)
        (update evidence_codec completes (claimed full_claim) missing).1).1).0
    ≡ returned true
unfolding update run claimed parse_keyed render_keyed text_eq get set parse_evidence evidence_value
    is_digest
second_is_granted = refl

grants-Agree_example : Agree full_claim full_claim
grants-Agree_example =
    grants-Agree missing [] full_claim full_claim completes completes lost_claims empty_evidence
      full_claim-IsDigested full_claim-IsDigested (plain_claim-IsDigested, tt) refl first_is_granted
      second_is_granted

abbrev receipt : CanonicalReceipt
receipt = record {
  action = credential;
  network = preview;
  transaction_id = codes "t1";
  transaction_hash = codes "h";
  contract_address = codes "c";
  circuit = codes "addCredential";
  block_height = 1;
  block_hash = codes "b";
  block_timestamp = codes "s";
  explorer_url = none;
}

receipt_is_canonical : canonical_receipt (receipt_value receipt) ≡ some receipt
unfolding canonical_receipt sanitize_canonical_receipt receipt_value ◌>>=◌
receipt_is_canonical = refl

put_returns : (put (receipt_value receipt) completes missing).0 ≡ returned tt
unfolding put put_receipt sanitize_canonical_receipt receipt_value ◌>>=◌ update get
put_returns = refl

get_receipt-put_example :
    get_receipt
      (codes "t1")
      completes
      (run receipt_codec (puts []) (put (receipt_value receipt) completes missing).1).1
    ≡ returned (found receipt)
get_receipt-put_example =
    get_receipt-put missing [] (receipt_value receipt) receipt completes []
      (missing-Stores receipt_codec (IsStored receipt_entry) receipt_codec-IsCodec)
      receipt_is_canonical put_returns tt

abbrev thirty_two : Bytes
thirty_two =
    0 ∷ 1 ∷ 2 ∷ 3 ∷ 4 ∷ 5 ∷ 6 ∷ 7 ∷ 8 ∷ 9 ∷ 10 ∷ 11 ∷ 12 ∷ 13 ∷ 14 ∷ 15 ∷ 240 ∷ 241 ∷ 242 ∷ 243
    ∷ 244 ∷ 245 ∷ 246 ∷ 247 ∷ 248 ∷ 249 ∷ 250 ∷ 251 ∷ 252 ∷ 253 ∷ 254 ∷ 255 ∷ []

thirty_two-bytes : All IsByte thirty_two
thirty_two-bytes = omega arith

abbrev result : IssuanceResult
result = record {
  issuance_id = codes "credential:t1";
  credential_blind = thirty_two;
  credential_leaf = thirty_two;
  receipt = receipt;
}

result-IsIssued : IsIssued result
result-IsIssued = record {
  issuance_id = λ e. cc e;
  blind_size = refl;
  blind = thirty_two-bytes;
  leaf_size = refl;
  leaf = thirty_two-bytes;
  receipt = receipt_is_canonical;
}

abbrev digest : Text → Text → Text
digest domain value = digest_a

put_issuance_returns :
    (put_issuance digest (codes "e") digest_b result completes missing).0 ≡ returned tt
unfolding put_issuance serialize_issuance_result update insert is_digest canonical_receipt
    sanitize_canonical_receipt receipt_value ◌>>=◌ get
put_issuance_returns = refl

get_issuance-put_example :
    get_issuance digest
      (codes "e")
      completes
      (run issuance_codec
        (inserts [])
        (put_issuance digest (codes "e") digest_b result completes missing).1).1
    ≡ returned (some (record { fingerprint_hash = digest_b; result = result }))
get_issuance-put_example =
    get_issuance-put digest missing [] (codes "e") digest_b result completes []
      (λ d v. digest_a-IsDigest)
      (missing-Stores issuance_codec (IsStored issuance_entry) issuance_codec-IsCodec)
      result-IsIssued tt put_issuance_returns

hex_bytes-bytes_to_hex_example : hex_bytes (bytes_to_hex thirty_two) ≡ thirty_two
hex_bytes-bytes_to_hex_example = hex_bytes-bytes_to_hex thirty_two thirty_two-bytes
