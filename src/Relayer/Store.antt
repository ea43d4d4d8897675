-- ===== src/Relayer/Store.antt =====
-- relayer/src/v2-store.ts: InMemoryV2ActionStore. `mutate` runs each operation whole, one after
-- another, so an operation is a function on the state; a throw leaves the state as it was.
pub mod Keys
pub mod Create
pub mod Advance
pub mod Holds
pub mod Invariant
use midnight_referendum_app.Base.{
  ℕ, ◌≡◌, Bool, true, false, not, ◌&&◌, ◌||◌, Option, none, some, List, [], ◌∷◌, ◌++◌, any, find,
  leb, length, or_else, if◌then◌else◌,
}
use midnight_referendum_app.Base.Text.{Text, text_eq, is_blank, is_digest}
use midnight_referendum_app.Base.Maps.{Map, get, set, values}
use midnight_referendum_app.Receipts.{CanonicalReceipt, sanitize_canonical_receipt, receipt_value}
use midnight_referendum_app.Base.Json.{Value}
use midnight_referendum_app.Relayer.Types.{
  Status, authorized, validated, dust_reserved, finalized, submitted, indexer_pending, status_eq,
  NewJob, Job, Reservation, Patch,
}

pub record Store : Type 0 where
  pub jobs : Map Job
  pub capabilities : Map Reservation

abbrev pub empty_store : Store
empty_store = record { jobs = []; capabilities = [] }

-- `conflict` is V2StoreConflictError, `invalid` a TypeError.
pub data Result {ℓ} (A : Type ℓ) : Type ℓ where
  ok : A → Result A
  conflict : Result A
  invalid : Result A

unfoldable pub is_id : Text → Bool
unfolding is_blank
is_id value = not (is_blank value) && leb (length value) 256

unfoldable pub requires_hold : NewJob → Bool
unfolding is_id is_digest
requires_hold input =
    is_id input.id
    && is_id input.idempotency_key
    && is_digest input.capability_digest
    && is_digest input.request_hash
    && is_digest input.tx_digest
    && is_id input.network
    && is_id input.contract_address
    && is_id input.circuit

abbrev pub new_job : NewJob → Job
new_job input = record {
  id = input.id;
  idempotency_key = input.idempotency_key;
  capability_digest = input.capability_digest;
  request_hash = input.request_hash;
  tx_digest = input.tx_digest;
  network = input.network;
  contract_address = input.contract_address;
  circuit = input.circuit;
  action = input.action;
  status = authorized;
  transitions = authorized ∷ [];
  dust_reservation_id = none;
  transaction_id = none;
  receipt = none;
  error_code = none;
  created_at = input.now;
  updated_at = input.now;
}

abbrev pub is_same_request : NewJob → Job → Bool
is_same_request input job =
    text_eq job.idempotency_key input.idempotency_key || text_eq job.request_hash input.request_hash

abbrev pub existing_job : NewJob → Map Job → Option Job
existing_job input jobs = or_else (get jobs input.id) (find (is_same_request input) (values jobs))

abbrev pub create : NewJob → Store → Option Job → Result ((Job × Bool) × Store)
create input store (some job) =
    if text_eq job.request_hash input.request_hash then ok ((job, false), store) else conflict
create input store none =
    if requires_hold input
    then ok ((new_job input, true), record store { jobs = set store.jobs input.id (new_job input) })
    else invalid

unfoldable pub create_or_get : NewJob → Store → Result ((Job × Bool) × Store)
create_or_get input store = create input store (existing_job input store.jobs)

unfoldable pub get_by_idempotency_key : Text → Store → Option Job
get_by_idempotency_key key store =
    find (λ candidate. text_eq candidate.idempotency_key key) (values store.jobs)

unfoldable pub consume_capability : Reservation → Store → Bool × Store
consume_capability reservation store = elim (get store.capabilities reservation.digest) [
  | some existing ↦ (false, store)
  | none ↦
      (true, record store { capabilities = set store.capabilities reservation.digest reservation })
]

abbrev pub status_in : List Status → Status → Bool
status_in expected status = any (λ s. status_eq s status) expected

-- `[...job.transitions, patch.status]` where the status changes.
abbrev pub next_transitions : Job → Option Status → List Status
next_transitions job none = job.transitions
next_transitions job (some status) =
    if status_eq status job.status then job.transitions else job.transitions ++ status ∷ []

abbrev pub next_status : Job → Option Status → Status
next_status job none = job.status
next_status job (some status) = status

-- `{ ...job, ...patch }` before its receipt is sanitized.
abbrev pub patched : Job → Patch → Option CanonicalReceipt → Text → Job
patched job patch receipt now = record job {
  status = next_status job patch.status;
  transitions = next_transitions job patch.status;
  dust_reservation_id = or_else patch.dust_reservation_id job.dust_reservation_id;
  transaction_id = or_else patch.transaction_id job.transaction_id;
  receipt = receipt;
  error_code = or_else patch.error_code job.error_code;
  updated_at = now;
}

abbrev pub receipt_input : Option CanonicalReceipt → Option Value → Option Value
receipt_input stored (some given) = some given
receipt_input none none = none
receipt_input (some r) none = some (receipt_value r)

-- The receipt of the persisted job; `none` outside is the TypeError of `sanitizeCanonicalReceipt`.
abbrev pub clean_receipt : Option Value → Option (Option CanonicalReceipt)
clean_receipt none = some none
clean_receipt (some v) = elim (sanitize_canonical_receipt v) [
  | none ↦ none
  | some r ↦ some (some r)
]

abbrev pub persist :
    Store
    → Text
    → Job
    → Patch
    → Text
    → Option (Option CanonicalReceipt)
    → Result (Option Job × Store)
persist store id job patch now none = invalid
persist store id job patch now (some receipt) = ok (
  some (patched job patch receipt now),
  record store { jobs = set store.jobs id (patched job patch receipt now) },
)

abbrev transition_job :
    Text → List Status → Patch → Text → Store → Option Job → Result (Option Job × Store)
transition_job id expected patch now store none = ok (none, store)
transition_job id expected patch now store (some job) =
    if status_in expected job.status
    then persist store id job patch now (clean_receipt (receipt_input job.receipt patch.receipt))
    else ok (none, store)

unfoldable pub transition : Text → List Status → Patch → Text → Store → Result (Option Job × Store)
transition id expected patch now store =
    transition_job id expected patch now store (get store.jobs id)

-- A job that holds the relayer's one DUST lease.
abbrev pub is_leased : Status → Bool
is_leased dust_reserved = true
is_leased finalized = true
is_leased submitted = true
is_leased indexer_pending = true
is_leased _ = false

abbrev pub is_other_lease : Text → Job → Bool
is_other_lease id candidate = not (text_eq candidate.id id) && is_leased candidate.status

abbrev pub reserved_job : Job → Text → Text → Job
reserved_job job reservation_id now = record job {
  status = dust_reserved;
  transitions = job.transitions ++ dust_reserved ∷ [];
  dust_reservation_id = some reservation_id;
  updated_at = now;
}

abbrev reserve_job : Text → Text → Text → Store → Option Job → Option Job × Store
reserve_job id reservation_id now store none = (none, store)
reserve_job id reservation_id now store (some job) =
    if not (status_eq job.status validated) || any (is_other_lease id) (values store.jobs)
    then (none, store)
    else (
      some (reserved_job job reservation_id now),
      record store { jobs = set store.jobs id (reserved_job job reservation_id now) },
    )

unfoldable pub reserve_dust : Text → Text → Text → Store → Option Job × Store
reserve_dust id reservation_id now store =
    reserve_job id reservation_id now store (get store.jobs id)

abbrev pub is_recoverable : Status → Bool
is_recoverable authorized = true
is_recoverable validated = true
is_recoverable dust_reserved = true
is_recoverable finalized = true
is_recoverable submitted = true
is_recoverable indexer_pending = true
is_recoverable _ = false

unfoldable pub recoverable : List Job → List Job
recoverable [] = []
recoverable (job ∷ jobs) =
    let rest = recoverable jobs in if is_recoverable job.status then job ∷ rest else rest

unfoldable pub list_recoverable : Store → List Job
unfolding recoverable
list_recoverable store = recoverable (values store.jobs)
