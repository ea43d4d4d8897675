-- ===== src/Relayer/Tests.antt =====
-- The relayer at concrete states: runs, and the theorems at inputs that meet their hypotheses.
use mathlib.Core.Bool.{false≢true}
use midnight_referendum_app.Base.{
  ◌≡◌, refl, true, false, Option, none, some, List, [], ◌∷◌, ◌++◌, arith, any, All,
}
use midnight_referendum_app.Base.Text.{Text, codes, text_eq, text_eq_iff}
use midnight_referendum_app.Base.Maps.{get, set, delete, values}
use midnight_referendum_app.Receipts.{vote, sanitize_canonical_receipt}
use midnight_referendum_app.Relayer.Types.{
  public_job, Status, authorized, validated, indexer_pending, Job, NewJob,
}
use midnight_referendum_app.Relayer.Store.{
  Store, ok, conflict, empty_store, create_or_get, requires_hold, consume_capability,
  get_by_idempotency_key, new_job, is_other_lease, transition, reserve_dust,
}
use midnight_referendum_app.Relayer.Store.Keys.{Each}
use midnight_referendum_app.Relayer.Store.Invariant.{IsValid}
use midnight_referendum_app.Relayer.Store.Create.{create_or_get_again, reused_id_conflicts}
use midnight_referendum_app.Relayer.Store.Advance.{Advances}
use midnight_referendum_app.Relayer.Service.State.{
  Service, empty_service, reserving, Answers, Admission, lagging,
}
use midnight_referendum_app.Relayer.Service.Events.{
  Event, request, begin, wallet, call, fire, restart, run_events, step,
}
use midnight_referendum_app.Relayer.Service.Wallet.{wallet_step}
use midnight_referendum_app.Relayer.Service.Calls.{call_step, admit}
use midnight_referendum_app.Relayer.Service.Safety.{
  booted, run_events-Unique, run_events-IsValid, run_events-Advances, Unique, IsSubmitted,
}
use midnight_referendum_app.Relayer.Service.Receipts.{IsProven, run_events-IsProven}
use midnight_referendum_app.Relayer.Service.Stranded.{IsStranded, is_starting}
use midnight_referendum_app.Relayer.Service.Stranded.Forever.{refused_reservation_strands}

abbrev hash_1 : Text
hash_1 = codes "aaaaaaaaaaaaaaaaaaaaaaaaaaaaaaaaaaaaaaaaaaaaaaaaaaaaaaaaaaaaaaa1"

abbrev hash_2 : Text
hash_2 = codes "bbbbbbbbbbbbbbbbbbbbbbbbbbbbbbbbbbbbbbbbbbbbbbbbbbbbbbbbbbbbbbb2"

abbrev input_of : Text → Text → NewJob
input_of id hash = record {
  id = id;
  idempotency_key = id;
  capability_digest = hash;
  request_hash = hash;
  tx_digest = hash;
  network = codes "preview";
  contract_address = codes "c";
  circuit = codes "castVote";
  action = vote;
  now = codes "t";
}

abbrev vote_1 : NewJob
vote_1 = input_of (codes "a1") hash_1

abbrev vote_2 : NewJob
vote_2 = input_of (codes "a2") hash_2

abbrev admission_of : NewJob → Admission
admission_of input = record { input = input; tx = codes "aabb"; expires_at = 9 }

abbrev answers : Answers
answers = record {
  now = codes "u";
  fresh_id = codes "r";
  balanced = some (codes "fin");
  submitted = some (codes "tx-1");
  resolved = lagging;
}

abbrev derive : Text → Option Text
derive tx = none

abbrev store_1 : Store
store_1 = record { jobs = (codes "a1", new_job vote_1) ∷ []; capabilities = [] }

create_first : create_or_get vote_1 empty_store ≡ ok ((new_job vote_1, true), store_1)
unfolding create_or_get get set requires_hold text_eq
create_first = refl

-- A vote from its request to the indexer, and a second one whose stage runs while the first waits.
abbrev accept_events : NewJob → List Event
accept_events input =
    request (admission_of input) ∷ call 0 answers ∷ call 0 answers ∷ call 0 answers ∷ begin ∷ []

abbrev first_vote : List Event
first_vote =
    accept_events vote_1
    ++ wallet answers
      ∷ wallet answers
      ∷ wallet answers
      ∷ wallet answers
      ∷ wallet answers
      ∷ wallet answers
      ∷ wallet answers
      ∷ wallet answers
      ∷ []

abbrev second_vote : List Event
second_vote = accept_events vote_2 ++ wallet answers ∷ wallet answers ∷ []

abbrev status_of : Option Job → Option Status
status_of none = none
status_of (some job) = some job.status

first_vote_pending :
    status_of (get (run_events derive first_vote empty_service).store.jobs (codes "a1"))
    ≡ some indexer_pending
unfolding run_events step wallet_step call_step transition reserve_dust create_or_get
    consume_capability get_by_idempotency_key admit public_job get set delete requires_hold text_eq
    sanitize_canonical_receipt
first_vote_pending = refl

first_vote_submitted : (run_events derive first_vote empty_service).submissions ≡ codes "a1" ∷ []
unfolding run_events step wallet_step call_step transition reserve_dust create_or_get
    consume_capability get_by_idempotency_key admit public_job get set delete requires_hold text_eq
    sanitize_canonical_receipt
first_vote_submitted = refl

run_events-Unique_example :
    (Unique (run_events derive first_vote (booted empty_store)).submissions)
    × (All
        (IsSubmitted (run_events derive first_vote (booted empty_store)).store)
        (run_events derive first_vote (booted empty_store)).submissions)
run_events-Unique_example = run_events-Unique derive first_vote empty_store

empty_store-IsValid : IsValid empty_store
empty_store-IsValid = record { keyed = tt; distinct = tt; journaled = tt; lease = omega arith }

store_1_found : get store_1.jobs (codes "a1") ≡ some (new_job vote_1)
unfolding get text_eq
store_1_found = refl

run_events-IsValid_example : IsValid (run_events derive first_vote empty_service).store
run_events-IsValid_example = run_events-IsValid derive first_vote empty_service empty_store-IsValid

run_events-Advances_example :
    (job : Job) × (get
        (run_events derive (restart ∷ call 0 answers ∷ []) (booted store_1)).store.jobs
        (codes "a1")
      ≡ some job)
    × Advances (new_job vote_1) job
run_events-Advances_example =
    run_events-Advances derive (restart ∷ call 0 answers ∷ []) (booted store_1) (codes "a1")
      (new_job vote_1) store_1_found

run_events-IsProven_example : Each IsProven (run_events derive first_vote empty_service).store.jobs
run_events-IsProven_example = run_events-IsProven derive first_vote empty_service tt

create_or_get_again_example : create_or_get vote_1 store_1 ≡ ok ((new_job vote_1, false), store_1)
create_or_get_again_example =
    create_or_get_again vote_1 empty_store (new_job vote_1) true store_1 create_first

reused_id_conflicts_example : create_or_get (input_of (codes "a1") hash_2) store_1 ≡ conflict
unfolding text_eq
reused_id_conflicts_example =
    reused_id_conflicts vote_1 (input_of (codes "a1") hash_2) empty_store (new_job vote_1) true
      store_1 empty_store-IsValid create_first refl
      (λ e. false≢true ((text_eq_iff hash_2 hash_1).1 e))

-- The second vote reached `reserveDust` while the first awaits the indexer.
contended : Service
contended = run_events derive (first_vote ++ second_vote) empty_service

contended_wallet :
    contended.wallet ≡ reserving (codes "a2") (record { unbound = codes "aabb"; finalized = none })
unfolding contended run_events step wallet_step call_step transition reserve_dust create_or_get
    consume_capability get_by_idempotency_key admit public_job get set delete requires_hold text_eq
    sanitize_canonical_receipt
contended_wallet = refl

waiting_job : Job
waiting_job = record (new_job vote_2) {
  status = validated;
  transitions = authorized ∷ validated ∷ [];
  updated_at = codes "u";
}

contended_found : get contended.store.jobs (codes "a2") ≡ some waiting_job
unfolding waiting_job contended run_events step wallet_step call_step transition reserve_dust
    create_or_get consume_capability get_by_idempotency_key admit public_job get set delete
    requires_hold text_eq sanitize_canonical_receipt
contended_found = refl

contended_waits : waiting_job.status ≡ validated
unfolding waiting_job
contended_waits = refl

contended_calls : any is_starting contended.calls ≡ false
unfolding contended run_events step wallet_step call_step transition reserve_dust create_or_get
    consume_capability get_by_idempotency_key admit public_job get set delete requires_hold text_eq
    sanitize_canonical_receipt
contended_calls = refl

contended_busy : any (is_other_lease (codes "a2")) (values contended.store.jobs) ≡ true
unfolding contended run_events step wallet_step call_step transition reserve_dust create_or_get
    consume_capability get_by_idempotency_key admit public_job get set delete requires_hold text_eq
    sanitize_canonical_receipt
contended_busy = refl

refused_reservation_strands_example :
    IsStranded
      (codes "a2")
      (run_events derive (wallet answers ∷ fire 0 ∷ begin ∷ wallet answers ∷ []) contended)
refused_reservation_strands_example =
    refused_reservation_strands derive (codes "a2") answers
      (record { unbound = codes "aabb"; finalized = none }) (fire 0 ∷ begin ∷ wallet answers ∷ [])
      contended waiting_job contended_wallet contended_found contended_waits contended_calls
      contended_busy refl
