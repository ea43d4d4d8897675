-- ===== src/Cico/Stores/Issuances/Replay.antt =====
-- A credential that was issued is answered again from the file of cico-service/src/durable-stores.ts.
use midnight_referendum_app.Base.{
  ◌≡◌, ◌≢◌, refl, sym, ◌∙◌, ap, true, ◌&&◌, some, List, [], ◌∷◌, All, Bool-cases, inl, inr, length,
}
use midnight_referendum_app.Base.Text.{Text, codes, is_digest}
use midnight_referendum_app.Base.Maps.{Map, get}
use midnight_referendum_app.Receipts.{receipt_value}
use midnight_referendum_app.Cico.Stores.File.{
  File, Outcome, returned, Io, completes, Mutator, update, run, read, load,
}
use midnight_referendum_app.Cico.Stores.File.Refines.{Stores, AllKeep}
use midnight_referendum_app.Cico.Stores.Keyed.{IsStored}
use midnight_referendum_app.Cico.Stores.Insert.{insert, insert-kept, insert-Keeps, insert-there}
use midnight_referendum_app.Cico.Stores.Persist.{AllPreserve, persists}
use midnight_referendum_app.Cico.Stores.Evidence.{is_present}
use midnight_referendum_app.Cico.Stores.Receipts.{canonical_receipt}
use midnight_referendum_app.Cico.Stores.Receipts.Laws.{and_left, and_right}
use midnight_referendum_app.Cico.Stores.Hex.{
  bytes_to_hex, IsByte, hex_bytes-bytes_to_hex, is_digest-bytes_to_hex,
}
use midnight_referendum_app.Cico.Stores.Issuances.{
  IssuanceResult, PersistedResult, PersistedRecord, issuance_entry, issuance_codec,
  serialize_issuance_result, decode_issuance_record, same_record, put_persisted, put_issuance,
  get_issuance, decoded,
}
use midnight_referendum_app.Cico.Stores.Issuances.Laws.{
  IsReadable, IsRecord, issuance_codec-IsCodec, parse_issuance-value, same_record-eq,
}

-- A result as the issuer makes it.
pub record IsIssued (r : IssuanceResult) : Type 0 where
  pub issuance_id : r.issuance_id ≢ []
  pub blind_size : length r.credential_blind ≡ 32
  pub blind : All IsByte r.credential_blind
  pub leaf_size : length r.credential_leaf ≡ 32
  pub leaf : All IsByte r.credential_leaf
  pub receipt : canonical_receipt (receipt_value r.receipt) ≡ some r.receipt

abbrev pub serialized : IssuanceResult → PersistedResult
serialized r = record {
  issuance_id = r.issuance_id;
  credential_blind_hex = bytes_to_hex r.credential_blind;
  credential_leaf_hex = bytes_to_hex r.credential_leaf;
  receipt = r.receipt;
}

serialize_lem :
    (r : IssuanceResult) → IsIssued r → serialize_issuance_result r ≡ some (serialized r)
unfolding serialize_issuance_result
serialize_lem r h = simp (h.receipt, h.blind_size, h.leaf_size) refl

serialized-IsReadable : (r : IssuanceResult) → IsIssued r → IsReadable (serialized r)
serialized-IsReadable r h = record {
  issuance_id = h.issuance_id;
  blind = is_digest-bytes_to_hex r.credential_blind h.blind_size h.blind;
  leaf = is_digest-bytes_to_hex r.credential_leaf h.leaf_size h.leaf;
  receipt = h.receipt;
}

-- Serializing and decoding give the record back.
pub decode-serialized :
    (fingerprint : Text) (r : IssuanceResult)
    → IsIssued r
    → decode_issuance_record (record { fingerprint_hash = fingerprint; result = serialized r })
      ≡ record { fingerprint_hash = fingerprint; result = r }
unfolding decode_issuance_record
decode-serialized fingerprint r h = λ i. record {
  fingerprint_hash = fingerprint;
  result = record r {
    credential_blind = hex_bytes-bytes_to_hex r.credential_blind h.blind i;
    credential_leaf = hex_bytes-bytes_to_hex r.credential_leaf h.leaf i;
  };
}

abbrev pub inserts :
    List (Io × (Text × PersistedRecord)) → List (Io × Mutator (Map PersistedRecord) (Unit {0}))
inserts [] = []
inserts ((io, (key, r)) ∷ calls) = (io, insert same_record key r) ∷ inserts calls

-- What a call of `put` inserts.
abbrev pub IsInsert : Io × (Text × PersistedRecord) → Type 0
IsInsert (io, (key, r)) = (is_digest key ≡ true) × IsRecord r

inserts-AllKeep :
    (calls : List (Io × (Text × PersistedRecord)))
    → All IsInsert calls
    → AllKeep issuance_codec (IsStored issuance_entry) issuance_codec-IsCodec (inserts calls)
inserts-AllKeep [] h = tt
inserts-AllKeep ((io, (key, r)) ∷ calls) ((k, is_record), h) = (
  insert-Keeps same_record issuance_entry key r (parse_issuance-value key r k is_record),
  inserts-AllKeep calls h,
)

inserts-AllPreserve : (calls : List (Io × (Text × PersistedRecord))) → AllPreserve (inserts calls)
inserts-AllPreserve [] = tt
inserts-AllPreserve ((io, (key, r)) ∷ calls) =
    (λ k old s t u eq h. insert-kept same_record key k r old s t u eq h, inserts-AllPreserve calls)

module _ (digest : Text → Text → Text) where
  get_issuance_lem :
      (id : Text) (file : File) (u : Map PersistedRecord) (r : PersistedRecord)
      → is_present id ≡ true
      → load issuance_codec file ≡ some u
      → get u (digest (codes "enrollment") id) ≡ some r
      → get_issuance digest id completes file ≡ returned (some (decode_issuance_record r))
  unfolding get_issuance read
  get_issuance_lem id file u r h e k = simp (h, e) (ap (λ o. returned (decoded o)) k)

  put_issuance_lem :
      (id fingerprint : Text) (r : IssuanceResult) (io : Io) (file : File)
      → (is_present id && is_digest fingerprint) ≡ true
      → IsIssued r
      → put_issuance digest id fingerprint r io file
        ≡ update issuance_codec io
            (insert same_record
              (digest (codes "enrollment") id)
              (record { fingerprint_hash = fingerprint; result = serialized r }))
            file
  unfolding put_issuance
  put_issuance_lem id fingerprint r io file h issued = simp (h) (
      ap (λ o. put_persisted (digest (codes "enrollment") id) fingerprint o io file)
        (serialize_lem r issued))

  module _ (file : File) (s : Map PersistedRecord) (id fingerprint : Text) (r : IssuanceResult)
      (io : Io) (calls : List (Io × (Text × PersistedRecord))) where
    -- Once `put` has returned for an enrolment, `get` answers with the same fingerprint and the same
    -- result, bytes included, whatever is put later and however the file system ends those calls.
    -- The digests have the form of SHA-256 digests, and the result is one that the issuer makes.
    pub get_issuance-put :
        ((d v : Text) → is_digest (digest d v) ≡ true)
        → Stores issuance_codec (IsStored issuance_entry) issuance_codec-IsCodec file s
        → IsIssued r
        → All IsInsert calls
        → (put_issuance digest id fingerprint r io file).0 ≡ returned tt
        → get_issuance digest id completes
            (run issuance_codec (inserts calls) (put_issuance digest id fingerprint r io file).1).1
          ≡ returned (some (record { fingerprint_hash = fingerprint; result = r }))
    unfolding put_issuance
    get_issuance-put digests h issued later first =
        elim (Bool-cases (is_present id && is_digest fingerprint)) [
          | inr refused ↦ absurd (cc (simp (refused) at first))
          | inl good ↦
              let key = digest (codes "enrollment") id in
              let stored : PersistedRecord = record {
                fingerprint_hash = fingerprint;
                result = serialized r;
              } in
              let is_record : IsRecord stored = record {
                fingerprint = and_right (is_present id) (is_digest fingerprint) good;
                result = serialized-IsReadable r issued;
              } in
              let same = put_issuance_lem id fingerprint r io file good issued in
              let (u, e, k) =
                persists issuance_codec (IsStored issuance_entry) issuance_codec-IsCodec file s io
                  (insert same_record key stored) tt key stored (inserts calls) h
                  (insert-Keeps same_record issuance_entry key stored
                    (parse_issuance-value key stored (digests (codes "enrollment") id) is_record))
                  (λ t x eq. insert-there same_record key stored s t x same_record-eq eq)
                  (ap (λ (p : Outcome (Unit {0}) × File). p.0) (sym same) ∙ first)
                  (inserts-AllKeep calls later) (inserts-AllPreserve calls) in
              ap
                (λ (p : Outcome (Unit {0}) × File).
                  get_issuance digest id completes (run issuance_codec (inserts calls) p.1).1)
                same
              ∙ get_issuance_lem id _ u stored
                  (and_left (is_present id) (is_digest fingerprint) good) e k
              ∙ ap (λ x. returned (some x)) (decode-serialized fingerprint r issued)
        ]
