-- ===== src/Relayer/Types.antt =====
-- relayer/src/v2-types.ts: the durable job, its states, and its public form.
use midnight_referendum_app.Base.{ℕ, Bool, Option, none, some, List, [], ◌∷◌, ◌==◌}
use midnight_referendum_app.Base.Text.{Text}
use midnight_referendum_app.Base.Json.{Value}
use midnight_referendum_app.Receipts.{CivicActionKind, CanonicalReceipt}

pub data Status : Type 0 where
  authorized validated dust_reserved finalized submitted : Status
  indexer_pending confirmed failed recovery_required : Status

pub data ErrorCode : Type 0 where
  idempotency_conflict capability_invalid capability_replayed : ErrorCode
  invalid_request not_allowlisted transaction_rejected submission_unknown : ErrorCode
  submission_id_mismatch indexer_contract_mismatch indexer_rejected : ErrorCode
  recovery_needed internal_error : ErrorCode

-- The place of a status in the union of the source.
abbrev pub ordinal : Status → ℕ
ordinal authorized = 0
ordinal validated = 1
ordinal dust_reserved = 2
ordinal finalized = 3
ordinal submitted = 4
ordinal indexer_pending = 5
ordinal confirmed = 6
ordinal failed = 7
ordinal recovery_required = 8

abbrev pub status_eq : Status → Status → Bool
status_eq s t = ordinal s == ordinal t

pub record NewJob : Type 0 where
  pub id : Text
  pub idempotency_key : Text
  pub capability_digest : Text
  pub request_hash : Text
  pub tx_digest : Text
  pub network : Text
  pub contract_address : Text
  pub circuit : Text
  pub action : CivicActionKind
  pub now : Text

pub record Job : Type 0 where
  pub id : Text
  pub idempotency_key : Text
  pub capability_digest : Text
  pub request_hash : Text
  pub tx_digest : Text
  pub network : Text
  pub contract_address : Text
  pub circuit : Text
  pub action : CivicActionKind
  pub status : Status
  pub transitions : List Status
  pub dust_reservation_id : Option Text
  pub transaction_id : Option Text
  pub receipt : Option CanonicalReceipt
  pub error_code : Option ErrorCode
  pub created_at : Text
  pub updated_at : Text

pub record Reservation : Type 0 where
  pub digest : Text
  pub action_id : Text
  pub idempotency_key : Text
  pub request_hash : Text
  pub network : Text
  pub contract_address : Text
  pub circuit : Text
  pub action : CivicActionKind
  pub expires_at : ℕ

-- The fields that a transition may set; the receipt is the object that the resolver returned.
pub record Patch : Type 0 where
  pub status : Option Status
  pub dust_reservation_id : Option Text
  pub transaction_id : Option Text
  pub receipt : Option Value
  pub error_code : Option ErrorCode

abbrev pub empty_patch : Patch
empty_patch = record {
  status = none;
  dust_reservation_id = none;
  transaction_id = none;
  receipt = none;
  error_code = none;
}

pub data PublicStatus : Type 0 where
  pending confirmed failed recovery_required : PublicStatus

pub record PublicJob : Type 0 where
  pub action_id : Text
  pub status : PublicStatus
  pub request_hash : Text
  pub network : Text
  pub contract_address : Text
  pub circuit : Text
  pub transitions : List Status
  pub transaction_id : Option Text
  pub receipt : Option CanonicalReceipt
  pub error_code : Option ErrorCode

abbrev pub public_status : Status → PublicStatus
public_status Status.confirmed = PublicStatus.confirmed
public_status Status.failed = PublicStatus.failed
public_status Status.recovery_required = PublicStatus.recovery_required
public_status _ = pending

-- `job.x ? { x } : {}` on a string that may be missing: the empty string is left out.
abbrev pub truthy : Option Text → Option Text
truthy none = none
truthy (some []) = none
truthy (some (c ∷ s)) = some (c ∷ s)

unfoldable pub public_job : Job → PublicJob
public_job job = record {
  action_id = job.id;
  status = public_status job.status;
  request_hash = job.request_hash;
  network = job.network;
  contract_address = job.contract_address;
  circuit = job.circuit;
  transitions = job.transitions;
  transaction_id = truthy job.transaction_id;
  receipt = job.receipt;
  error_code = job.error_code;
}
