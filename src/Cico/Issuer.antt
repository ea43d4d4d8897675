-- ===== src/Cico/Issuer.antt =====
-- CredentialIssuerService of cico-service/src/credential-issuer-service.ts over the two file stores of
-- durable-stores.ts. The encoding of the claims and the derivation of the leaf, of
-- api/src/passport-v2/crypto.ts, and the functions of Node are parameters; how each awaited call of
-- an issuance ends comes with it. The service has its optional issuance store, and `opened` says
-- whether the epoch boundary, where there is one, lets the mutation run.
pub mod Laws
pub mod Again
pub mod Restart
mod Tests
use midnight_referendum_app.Base.{
  ℕ, ◌≡◌, Bool, true, false, not, ◌&&◌, ◌||◌, Option, none, some, List, [], ◌∷◌, ◌++◌, ◌==◌,
  if◌then◌else◌, length,
}
use midnight_referendum_app.Base.Text.{Text, codes, text_eq}
use midnight_referendum_app.Base.Maps.{Map, get, set, delete}
use midnight_referendum_app.Base.Json.{Value, string, object, field, end}
use midnight_referendum_app.Receipts.{CanonicalReceipt, action_text, network_text}
use midnight_referendum_app.Cico.Registry.{Bytes}
use midnight_referendum_app.Cico.Program.{
  Ran, done, failed, Program, ◌>>=◌, ◌>>◌, return, require, or_throw,
}
use midnight_referendum_app.Cico.Stores.File.{File, Io, Outcome, returned, threw}
use midnight_referendum_app.Cico.Stores.Evidence
use midnight_referendum_app.Cico.Stores.Issuances.{
  IssuanceResult, IssuanceRecord, put_issuance, get_issuance,
}
use midnight_referendum_app.Cico.Stores.Hex.{bytes_to_hex}

-- CivicCredentialIssuanceRequest; `claims` is its JSON value.
pub record Request : Type 0 where
  pub enrollment_id : Text
  pub provider : Text
  pub evidence_authorization : Text
  pub holder_binding : Bytes
  pub claims : Value

-- The claims as the registry's witness takes them.
pub record EncodedClaims : Type 0 where
  pub country : Bytes
  pub age_class : ℕ
  pub assurance : ℕ
  pub claim_epoch : ℕ
  pub valid_until : ℕ

-- CredentialRegistryV1PrivateState
pub record PrivateState : Type 0 where
  pub issuer_secret : Bytes
  pub holder_binding : Bytes
  pub credential_blind : Bytes
  pub claims : EncodedClaims

pub data IssuerError : Type 0 where
  conflict invalid_claims issuance_failed type_error call_failed : IssuerError

-- An addCredential that the registry has taken.
pub record Addition : Type 0 where
  pub private_state : PrivateState
  pub receipt : CanonicalReceipt

-- An entry of the map `issuances` whose operation has ended.
pub record Entry : Type 0 where
  pub fingerprint : Text
  pub result : IssuanceResult

-- The object, the files of its stores, and what the registry has taken, the last one first.
pub record State : Type 0 where
  pub issuances : Map Entry
  pub evidence_file : File
  pub issuance_file : File
  pub additions : List Addition

-- How the awaited calls of one issuance end; `none` and `false` for `joined` and `opened` are throws.
pub record Answers : Type 0 where
  pub read_io : Io
  pub is_authorized : Option Bool
  pub random_bytes : Bytes
  pub opened : Bool
  pub claim_io : Io
  pub joined : Bool
  pub added : Option CanonicalReceipt
  pub write_io : Io

abbrev pub Step : Type 0 → Type 0
Step A = Program State IssuerError A

abbrev pub settled : {A : Type 0} → Outcome A → Option A
settled (returned a) = some a
settled (threw e) = none

-- `requireBytes32`
abbrev pub is_bytes32 : Bytes → Bool
is_bytes32 b = length b == 32

-- The receipt that the registry must have returned.
unfoldable pub is_issuance_receipt : Text → CanonicalReceipt → Bool
is_issuance_receipt address receipt =
    text_eq (action_text receipt.action) (codes "credential")
    && text_eq receipt.circuit (codes "addCredential")
    && text_eq receipt.contract_address address
    && text_eq (network_text receipt.network) (codes "preview")

-- What the service is given: `stringify` of Node, the hash of issuanceFingerprint, the digest of the
-- stores, the encoding of the claims (`none` is a throw), deriveCredentialLeaf, and the options.
pub record Issuer : Type 0 where
  pub stringify : Value → Text
  pub issuance_fingerprint : Text → Text
  pub digest : Text → Text → Text
  pub encode_claims : Value → Option EncodedClaims
  pub derive_credential_leaf : Bytes → Value → Bytes → Bytes
  pub registry_contract_address : Text
  pub issuer_secret : Bytes

module _ (self : Issuer) where
  -- `requestFingerprint`
  unfoldable pub request_fingerprint : Request → Text
  request_fingerprint r = self.stringify (
      object (
        field (codes "provider") (string r.provider) (
          field (codes "evidenceAuthorization") (string r.evidence_authorization) (
            field (codes "holderBinding") (string (bytes_to_hex r.holder_binding))
              (field (codes "claims") r.claims end)))))

  abbrev pub with_claims : Request → Bytes → Option EncodedClaims → Option PrivateState
  with_claims r blind none = none
  with_claims r blind (some claims) = some (record {
    issuer_secret = self.issuer_secret;
    holder_binding = r.holder_binding;
    credential_blind = blind;
    claims = claims;
  })

  -- `privateStateFor`
  abbrev pub private_state_for : Request → Bytes → Option PrivateState
  private_state_for r blind =
      if is_bytes32 r.holder_binding
      then with_claims r blind (self.encode_claims r.claims)
      else none

  -- `issuanceStore.get`
  abbrev pub read_issuance : Request → Answers → Step (Option IssuanceRecord)
  read_issuance r answers s =
      or_throw (settled (get_issuance self.digest r.enrollment_id answers.read_io s.issuance_file))
        call_failed s

  -- `evidenceAuthorizations.claim`, which also writes its file.
  abbrev pub claim_evidence : Request → Answers → Step Bool
  claim_evidence r answers s =
      let (outcome, file) =
        Evidence.claim self.digest r.evidence_authorization r.enrollment_id
          (some (request_fingerprint r)) answers.claim_io s.evidence_file in
      or_throw (settled outcome) call_failed (record s { evidence_file = file })

  -- `executor.addCredential`, which changes the registry where it returns.
  abbrev pub add_credential : PrivateState → Option CanonicalReceipt → Step CanonicalReceipt
  add_credential private none s = failed call_failed s
  add_credential private (some receipt) s = done receipt (record s {
    additions = (record { private_state = private; receipt = receipt }) ∷ s.additions;
  })

  -- `issuanceStore.put`, which also writes its file.
  abbrev pub write_issuance : Request → IssuanceResult → Answers → Step (Unit {0})
  write_issuance r result answers s =
      let (outcome, file) =
        put_issuance self.digest r.enrollment_id (self.issuance_fingerprint (request_fingerprint r))
          result answers.write_io s.issuance_file in
      or_throw (settled outcome) call_failed (record s { issuance_file = file })

  -- The closure `mutate`.
  unfoldable pub mutate : Request → PrivateState → Answers → Step CanonicalReceipt
  mutate r private answers = do
    granted ← claim_evidence r answers
    require granted invalid_claims
    require answers.joined call_failed
    add_credential private answers.added

  abbrev pub result_of : Request → Bytes → CanonicalReceipt → IssuanceResult
  result_of r blind receipt = record {
    issuance_id = codes "credential:" ++ receipt.transaction_id;
    credential_blind = blind;
    credential_leaf = self.derive_credential_leaf r.holder_binding r.claims blind;
    receipt = receipt;
  }

  unfoldable pub issue_fresh : Request → Answers → Step IssuanceResult
  issue_fresh r answers = do
    authorized ← or_throw answers.is_authorized call_failed
    require authorized invalid_claims
    require (is_bytes32 answers.random_bytes) type_error
    private ← or_throw (private_state_for r answers.random_bytes) type_error
    require answers.opened call_failed
    receipt ← mutate r private answers
    require (is_issuance_receipt self.registry_contract_address receipt) issuance_failed
    write_issuance r (result_of r answers.random_bytes receipt) answers
    return (result_of r answers.random_bytes receipt)

  abbrev pub replayed : Request → Answers → Option IssuanceRecord → Step IssuanceResult
  replayed r answers none s = issue_fresh r answers s
  replayed r answers (some persisted) s =
      if text_eq persisted.fingerprint_hash (self.issuance_fingerprint (request_fingerprint r))
      then done persisted.result s
      else failed conflict s

  unfoldable pub issue_once : Request → Answers → Step IssuanceResult
  issue_once r answers = do persisted ← read_issuance r answers; replayed r answers persisted

  -- The map keeps an issuance that succeeded; one that failed is deleted again.
  abbrev pub remembered :
      Request → Ran State IssuerError IssuanceResult → Ran State IssuerError IssuanceResult
  remembered r (done result s) = done result (record s {
    issuances =
        set s.issuances r.enrollment_id
          (record { fingerprint = request_fingerprint r; result = result });
  })
  remembered r (failed x s) = failed x s

  abbrev pub known : Request → Answers → Option Entry → Step IssuanceResult
  known r answers none s = remembered r (issue_once r answers s)
  known r answers (some entry) s =
      if text_eq entry.fingerprint (request_fingerprint r)
      then done entry.result s
      else failed conflict s

  unfoldable pub issue_credential : Request → Answers → Step IssuanceResult
  issue_credential r answers s = known r answers (get s.issuances r.enrollment_id) s
