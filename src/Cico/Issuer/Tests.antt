-- ===== src/Cico/Issuer/Tests.antt =====
-- An issuance of cico-service/src/credential-issuer-service.ts, a second one, and one after a restart.
use midnight_referendum_app.Base.{◌≡◌, refl, true, none, some, [], ◌∷◌, if◌then◌else◌, arith, All}
use midnight_referendum_app.Base.Text.{Text, codes, text_eq, is_digest}
use midnight_referendum_app.Base.Maps.{get, set}
use midnight_referendum_app.Base.Json.{null}
use midnight_referendum_app.Receipts.{
  CanonicalReceipt, credential, preview, receipt_value, ◌>>=◌, sanitize_canonical_receipt,
}
use midnight_referendum_app.Cico.Registry.{Bytes}
use midnight_referendum_app.Cico.Program.{Ran, done, failed, Holds}
use midnight_referendum_app.Cico.Stores.File.{missing, completes, returned}
use midnight_referendum_app.Cico.Stores.File.Refines.{missing-Stores}
use midnight_referendum_app.Cico.Stores.Keyed.{IsStored}
use midnight_referendum_app.Cico.Stores.Hex.{IsByte}
use midnight_referendum_app.Cico.Stores.Receipts.{canonical_receipt}
use midnight_referendum_app.Cico.Stores.Issuances.{IssuanceResult, issuance_entry, issuance_codec}
use midnight_referendum_app.Cico.Stores.Issuances.Laws.{issuance_codec-IsCodec}
use midnight_referendum_app.Cico.Stores.Issuances.Replay.{IsIssued}
use midnight_referendum_app.Cico.Issuer.{
  Request, IssuerError, conflict, Entry, State, Answers, Issuer, request_fingerprint,
  issue_credential,
}
use midnight_referendum_app.Cico.Issuer.Laws.{IsServed, Kept, issue_credential-Holds}
use midnight_referendum_app.Cico.Issuer.Again.{issue_credential_again}
use midnight_referendum_app.Cico.Issuer.Restart.{restarted, IsFresh, issue_credential-restarted}

abbrev digest_a : Text
digest_a = codes "aaaaaaaaaaaaaaaaaaaaaaaaaaaaaaaaaaaaaaaaaaaaaaaaaaaaaaaaaaaaaaaa"

digest_a-IsDigest : is_digest digest_a ≡ true
unfolding is_digest
digest_a-IsDigest = refl

abbrev bytes : Bytes
bytes =
    0 ∷ 1 ∷ 2 ∷ 3 ∷ 4 ∷ 5 ∷ 6 ∷ 7 ∷ 8 ∷ 9 ∷ 10 ∷ 11 ∷ 12 ∷ 13 ∷ 14 ∷ 15 ∷ 240 ∷ 241 ∷ 242 ∷ 243
    ∷ 244 ∷ 245 ∷ 246 ∷ 247 ∷ 248 ∷ 249 ∷ 250 ∷ 251 ∷ 252 ∷ 253 ∷ 254 ∷ 255 ∷ []

bytes-IsByte : All IsByte bytes
bytes-IsByte = omega arith

abbrev issuer : Issuer
issuer = record {
  stringify = λ v. codes "{}";
  issuance_fingerprint = λ t. digest_a;
  digest = λ domain value. digest_a;
  encode_claims = λ claims.
      some (record {
        country = bytes;
        age_class = 1;
        assurance = 1;
        claim_epoch = 1;
        valid_until = 1;
      });
  derive_credential_leaf = λ holder claims blind. bytes;
  registry_contract_address = codes "c";
  issuer_secret = bytes;
}

abbrev request : Request
request = record {
  enrollment_id = codes "e";
  provider = codes "rarimo";
  evidence_authorization = codes "v";
  holder_binding = bytes;
  claims = null;
}

abbrev receipt : CanonicalReceipt
receipt = record {
  action = credential;
  network = preview;
  transaction_id = codes "t1";
  transaction_hash = codes "h";
  contract_address = codes "c";
  circuit = codes "addCredential";
  block_height = 1;
  block_hash = codes "b";
  block_timestamp = codes "s";
  explorer_url = none;
}

receipt_is_canonical : canonical_receipt (receipt_value receipt) ≡ some receipt
unfolding canonical_receipt sanitize_canonical_receipt receipt_value ◌>>=◌
receipt_is_canonical = refl

abbrev answers : Answers
answers = record {
  read_io = completes;
  is_authorized = some true;
  random_bytes = bytes;
  opened = true;
  claim_io = completes;
  joined = true;
  added = some receipt;
  write_io = completes;
}

abbrev before : State
before = record { issuances = []; evidence_file = missing; issuance_file = missing; additions = [] }

abbrev state_of : Ran State IssuerError IssuanceResult → State
state_of (done result s) = s
state_of (failed x s) = s

abbrev after : State
after = state_of (issue_credential issuer request answers before)

abbrev result : IssuanceResult
result = record {
  issuance_id = codes "credential:t1";
  credential_blind = bytes;
  credential_leaf = bytes;
  receipt = receipt;
}

result-IsIssued : IsIssued result
result-IsIssued = record {
  issuance_id = λ e. cc e;
  blind_size = refl;
  blind = bytes-IsByte;
  leaf_size = refl;
  leaf = bytes-IsByte;
  receipt = receipt_is_canonical;
}

issues : issue_credential issuer request answers before ≡ done result after
unfolding issue_credential get midnight_referendum_app.Cico.Issuer.issue_once
    midnight_referendum_app.Cico.Program.◌>>=◌ midnight_referendum_app.Cico.Program.or_throw
    midnight_referendum_app.Cico.Stores.Issuances.get_issuance
    midnight_referendum_app.Cico.Stores.File.read midnight_referendum_app.Cico.Issuer.issue_fresh
    midnight_referendum_app.Cico.Program.◌>>◌ midnight_referendum_app.Cico.Program.require
    midnight_referendum_app.Cico.Program.return midnight_referendum_app.Cico.Issuer.mutate
    midnight_referendum_app.Cico.Stores.Evidence.claim
    midnight_referendum_app.Cico.Stores.Evidence.claimed
    midnight_referendum_app.Cico.Stores.File.update
    midnight_referendum_app.Cico.Issuer.is_issuance_receipt
    midnight_referendum_app.Cico.Stores.Issuances.put_issuance
    midnight_referendum_app.Cico.Stores.Issuances.serialize_issuance_result
    midnight_referendum_app.Cico.Stores.Insert.insert request_fingerprint text_eq is_digest
    canonical_receipt sanitize_canonical_receipt receipt_value ◌>>=◌
issues = refl

is_fresh : IsFresh issuer request answers answers before after result
unfolding get midnight_referendum_app.Cico.Stores.Issuances.get_issuance
    midnight_referendum_app.Cico.Stores.File.read
is_fresh = (refl, refl)

issue_credential-Holds_example :
    Holds
      (IsServed issuer request answers before)
      (Kept issuer request answers before)
      (issue_credential issuer request answers before)
issue_credential-Holds_example = issue_credential-Holds issuer request answers before

issue_credential_again_example : issue_credential issuer request answers after ≡ (
    if text_eq (request_fingerprint issuer request) (request_fingerprint issuer request)
    then done result after
    else failed conflict after)
issue_credential_again_example =
    issue_credential_again issuer request request answers answers before after result issues refl

issue_credential-restarted_example :
    issue_credential issuer request answers (restarted after)
    ≡ done result (record after {
      issuances =
          set []
            (codes "e")
            (record { fingerprint = request_fingerprint issuer request; result = result });
    })
issue_credential-restarted_example =
    issue_credential-restarted issuer request answers answers before after result []
      (λ d v. digest_a-IsDigest)
      (missing-Stores issuance_codec (IsStored issuance_entry) issuance_codec-IsCodec)
      result-IsIssued is_fresh issues refl
