-- ===== src/Cico/Stores/Issuances.antt =====
-- FileCredentialIssuanceStore of cico-service/src/durable-stores.ts.
pub mod Laws
pub mod Replay
use midnight_referendum_app.Base.{
  ℕ, ◌≡◌, Bool, true, false, ◌&&◌, ◌||◌, Option, none, some, List, [], ◌∷◌, ◌==◌, if◌then◌else◌,
  length, any,
}
use midnight_referendum_app.Base.Text.{Text, codes, text_eq, is_digest}
use midnight_referendum_app.Base.Maps.{Map, get, values}
use midnight_referendum_app.Base.Json.{
  Value, Fields, string, object, end, field, property, as_non_empty,
}
use midnight_referendum_app.Receipts.{CanonicalReceipt, ◌>>=◌, receipt_value}
use midnight_referendum_app.Cico.Registry.{Bytes, hex_bytes}
use midnight_referendum_app.Cico.Stores.File.{
  File, StoreError, invalid, Outcome, returned, threw, Io, Codec, Mutator, update, read,
}
use midnight_referendum_app.Cico.Stores.Keyed.{Entry, keyed_codec}
use midnight_referendum_app.Cico.Stores.Insert.{insert}
use midnight_referendum_app.Cico.Stores.Evidence.{as_digest, is_present}
use midnight_referendum_app.Cico.Stores.Receipts.{canonical_receipt, same_receipt}
use midnight_referendum_app.Cico.Stores.Hex.{bytes_to_hex}

-- CivicCredentialIssuanceResult
pub record IssuanceResult : Type 0 where
  pub issuance_id : Text
  pub credential_blind : Bytes
  pub credential_leaf : Bytes
  pub receipt : CanonicalReceipt

pub record IssuanceRecord : Type 0 where
  pub fingerprint_hash : Text
  pub result : IssuanceResult

-- PersistedCredentialIssuanceResult
pub record PersistedResult : Type 0 where
  pub issuance_id : Text
  pub credential_blind_hex : Text
  pub credential_leaf_hex : Text
  pub receipt : CanonicalReceipt

pub record PersistedRecord : Type 0 where
  pub fingerprint_hash : Text
  pub result : PersistedResult

abbrev pub result_of_fields : Fields → Option PersistedResult
result_of_fields f = do
  issuance_id ← as_non_empty (property f (codes "issuanceId"))
  blind ← as_digest (property f (codes "credentialBlindHex"))
  leaf ← as_digest (property f (codes "credentialLeafHex"))
  receipt ← canonical_receipt (property f (codes "receipt"))
  some (record {
    issuance_id = issuance_id;
    credential_blind_hex = blind;
    credential_leaf_hex = leaf;
    receipt = receipt;
  })

-- `parsePersistedIssuanceResult`
abbrev pub parse_persisted_result : Value → Option PersistedResult
parse_persisted_result (object f) = result_of_fields f
parse_persisted_result _ = none

abbrev pub record_of_fields : Fields → Option PersistedRecord
record_of_fields f = do
  fingerprint ← as_digest (property f (codes "fingerprintHash"))
  result ← parse_persisted_result (property f (codes "result"))
  some (record { fingerprint_hash = fingerprint; result = result })

unfoldable pub parse_issuance : Text → Value → Option PersistedRecord
unfolding property text_eq
parse_issuance key (object f) = if is_digest key then record_of_fields f else none
parse_issuance key _ = none

abbrev pub result_value : PersistedResult → Value
result_value r = object (
    field (codes "issuanceId") (string r.issuance_id) (
      field (codes "credentialBlindHex") (string r.credential_blind_hex) (
        field (codes "credentialLeafHex") (string r.credential_leaf_hex)
          (field (codes "receipt") (receipt_value r.receipt) end))))

unfoldable pub issuance_value : PersistedRecord → Value
issuance_value r = object (
    field (codes "fingerprintHash") (string r.fingerprint_hash)
      (field (codes "result") (result_value r.result) end))

abbrev pub issuance_entry : Entry PersistedRecord
issuance_entry = record { parse = parse_issuance; render = issuance_value }

abbrev pub issuance_codec : Codec (Map PersistedRecord)
issuance_codec = keyed_codec issuance_entry (codes "issuances")

abbrev pub persisted : IssuanceResult → Option CanonicalReceipt → Option PersistedResult
persisted r none = none
persisted r (some receipt) =
    if (length r.credential_blind == 32) && (length r.credential_leaf == 32)
    then some (record {
      issuance_id = r.issuance_id;
      credential_blind_hex = bytes_to_hex r.credential_blind;
      credential_leaf_hex = bytes_to_hex r.credential_leaf;
      receipt = receipt;
    })
    else none

-- `serializeIssuanceResult`; `none` is its throw.
unfoldable pub serialize_issuance_result : IssuanceResult → Option PersistedResult
serialize_issuance_result r = persisted r (canonical_receipt (receipt_value r.receipt))

-- `decodeIssuanceRecord`
unfoldable pub decode_issuance_record : PersistedRecord → IssuanceRecord
decode_issuance_record r = record {
  fingerprint_hash = r.fingerprint_hash;
  result = record {
    issuance_id = r.result.issuance_id;
    credential_blind = hex_bytes r.result.credential_blind_hex;
    credential_leaf = hex_bytes r.result.credential_leaf_hex;
    receipt = r.result.receipt;
  };
}

-- Both tests of `put` on a record that is there: the same digest, the same JSON of the result.
unfoldable pub same_record : PersistedRecord → PersistedRecord → Bool
same_record a b =
    text_eq a.fingerprint_hash b.fingerprint_hash
    && text_eq a.result.issuance_id b.result.issuance_id
    && text_eq a.result.credential_blind_hex b.result.credential_blind_hex
    && text_eq a.result.credential_leaf_hex b.result.credential_leaf_hex
    && same_receipt a.result.receipt b.result.receipt

abbrev pub put_persisted :
    Text → Text → Option PersistedResult → Io → File → Outcome (Unit {0}) × File
put_persisted key fingerprint none io file = (threw invalid, file)
put_persisted key fingerprint (some r) io file =
    update issuance_codec io
      (insert same_record key (record { fingerprint_hash = fingerprint; result = r })) file

abbrev pub decoded : Option PersistedRecord → Option IssuanceRecord
decoded none = none
decoded (some r) = some (decode_issuance_record r)

abbrev pub issuance_in : Text → Outcome (Map PersistedRecord) → Outcome (Option IssuanceRecord)
issuance_in key (returned m) = returned (decoded (get m key))
issuance_in key (threw e) = threw e

abbrev pub id_in : Text → Outcome (Map PersistedRecord) → Outcome Bool
id_in id (returned m) = returned (any (λ r. text_eq r.result.issuance_id id) (values m))
id_in id (threw e) = threw e

module _ (digest : Text → Text → Text) where
  unfoldable pub put_issuance : Text → Text → IssuanceResult → Io → File → Outcome (Unit {0}) × File
  put_issuance enrollment_id fingerprint result io file =
      if is_present enrollment_id && is_digest fingerprint
      then put_persisted (digest (codes "enrollment") enrollment_id) fingerprint
          (serialize_issuance_result result) io file
      else (threw invalid, file)

  unfoldable pub get_issuance : Text → Io → File → Outcome (Option IssuanceRecord)
  get_issuance enrollment_id io file =
      if is_present enrollment_id
      then issuance_in (digest (codes "enrollment") enrollment_id) (read issuance_codec io file)
      else threw invalid

unfoldable pub has_issuance_id : Text → Io → File → Outcome Bool
has_issuance_id issuance_id io file =
    if is_present issuance_id
    then id_in issuance_id (read issuance_codec io file)
    else threw invalid
