-- ===== src/Relayer/Service/State.antt =====
-- The state of a V2ActionService: the store, its in-memory maps, and what is in flight. A step runs
-- one awaited call and the synchronous code after it.
use midnight_referendum_app.Base.{
  ℕ, Bool, true, false, Option, List, [], ◌∷◌, ◌++◌, is_some, if◌then◌else◌,
}
use midnight_referendum_app.Base.Text.{Text, text_eq}
use midnight_referendum_app.Base.Json.{Value}
use midnight_referendum_app.Base.Maps.{Map}
use midnight_referendum_app.Receipts.{CanonicalReceipt}
use midnight_referendum_app.Relayer.Types.{
  Status, submitted, indexer_pending, ErrorCode, Job, NewJob, PublicJob, truthy,
}
use midnight_referendum_app.Relayer.Store.{Store, empty_store}

pub record Transient : Type 0 where
  pub unbound : Text
  pub finalized : Option Text

-- How a submission ended: with the transaction to reconcile, unknown, or under another id.
pub data Settlement : Type 0 where
  pending_with : Text → Settlement
  unknown mismatched : Settlement

-- Where `runWalletStage` awaits, with the local variables that are used later.
pub data Wallet : Type 0 where
  idle : Wallet
  loading : Text → Wallet
  validating reserving balancing : Text → Transient → Wallet
  rejecting : Text → Wallet
  finalizing claiming submitting : Text → Text → Option Text → Wallet
  settling : Text → Settlement → Wallet

-- What `setTimeout` will run: `reconcile(id)`, or `run(id)` unless it is running.
pub data Timer : Type 0 where
  reconcile_later run_later : Text → Timer

-- A request that was parsed and whose capability was verified.
pub record Admission : Type 0 where
  pub input : NewJob
  pub tx : Text
  pub expires_at : ℕ

-- Who asked for a reconciliation: a timer, `get`, or `getReceipt`.
pub data Asker : Type 0 where
  timer reader receipt_reader : Asker

-- A call in flight, at the store or resolver operation that it awaits.
pub data Call : Type 0 where
  creating : Admission → Call
  checking consuming : Admission → Job → Bool → Call
  replaying : Admission → Job → Call
  reading : Asker → Text → Call
  reconciling : Asker → Text → Call
  resolving : Asker → Job → Call
  confirming : Asker → Text → Value → Call
  refusing : Asker → Text → ErrorCode → Call
  rereading : Asker → Text → Call
  starting : List Job → Call

-- `thrown` is an error that is no V2ActionError.
pub data Reply : Type 0 where
  accepted : PublicJob → Reply
  rejected : ErrorCode → Reply
  thrown : Reply
  job_found : Option PublicJob → Reply
  receipt_found : Option CanonicalReceipt → Reply

-- `submissions` records the jobs for which `executor.submit` was called, `replies` what callers got.
pub record Service : Type 0 where
  pub store : Store
  pub transient : Map Transient
  pub running : List Text
  pub queue : List Text
  pub wallet : Wallet
  pub timers : List Timer
  pub calls : List Call
  pub submissions : List Text
  pub replies : List Reply

abbrev pub empty_service : Service
empty_service = record {
  store = empty_store;
  transient = [];
  running = [];
  queue = [];
  wallet = idle;
  timers = [];
  calls = [];
  submissions = [];
  replies = [];
}

pub data Resolved : Type 0 where
  receipt : Value → Resolved
  lagging : Resolved
  contract_mismatch : Resolved
  indexer_refused : Resolved
  outage : Resolved

-- What the environment answers to the call that a step completes; `none` is a throw.
pub record Answers : Type 0 where
  pub now : Text
  pub fresh_id : Text
  pub balanced : Option Text
  pub submitted : Option Text
  pub resolved : Resolved

abbrev pub remove : Text → List Text → List Text
remove id [] = []
remove id (x ∷ xs) = let rest = remove id xs in if text_eq x id then rest else x ∷ rest

-- `run(id)`: the stage waits behind `walletTail`.
unfoldable pub run : Text → Service → Service
run id s = record s { running = id ∷ s.running; queue = s.queue ++ id ∷ [] }

abbrev pub schedule : Timer → Service → Service
schedule t s = record s { timers = t ∷ s.timers }

abbrev pub reply : Reply → Service → Service
reply r s = record s { replies = r ∷ s.replies }

abbrev pub await_call : Call → Service → Service
await_call c s = record s { calls = c ∷ s.calls }

-- The end of `runWalletStage`, and its `finally`.
abbrev pub finish : Text → Service → Service
finish id s = record s { wallet = idle; running = remove id s.running }

abbrev pub is_submitted : Status → Bool
is_submitted submitted = true
is_submitted indexer_pending = true
is_submitted _ = false

abbrev pub has_transaction : Job → Bool
has_transaction job = is_some (truthy job.transaction_id)
