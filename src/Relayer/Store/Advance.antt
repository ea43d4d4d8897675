-- ===== src/Relayer/Store/Advance.antt =====
-- How a stored job may change: forward only, and not at all once it is final.
use midnight_referendum_app.Base.{
  ℕ, ◌≤◌, ◌≡◌, ◌⊎◌, refl, sym, ap, ◌∙◌, subst, find, Bool, true, false, Option, none, some, List,
  [], ◌∷◌, ◌++◌, arith, Bool-cases, inl, inr,
}
use mathlib.Core.List.{append-nil, append_assoc}
use mathlib.Core.Option.{some-injective}
use midnight_referendum_app.Base.Text.{Text, text_eq, text_eq_iff}
use midnight_referendum_app.Base.Maps.{get, values, get-set}
use midnight_referendum_app.Receipts.{CanonicalReceipt}
use midnight_referendum_app.Relayer.Types.{
  Status, authorized, validated, dust_reserved, finalized, submitted, indexer_pending, confirmed,
  failed, recovery_required, Job, NewJob, Patch, status_eq, Reservation,
}
use midnight_referendum_app.Relayer.Store.{
  Store, ok, create_or_get, existing_job, is_same_request, new_job, reserve_dust,
  consume_capability, transition, status_in, patched, next_status, next_transitions, reserved_job,
}
use midnight_referendum_app.Relayer.Store.Invariant.{Writes, transition_cases, reserve_dust_cases}
use midnight_referendum_app.Relayer.Store.Create.{create_or_get_cases, or_else-none}

-- How far a job has come.
abbrev pub stage : Status → ℕ
stage authorized = 0
stage validated = 1
stage dust_reserved = 2
stage finalized = 3
stage submitted = 4
stage indexer_pending = 5
stage confirmed = 6
stage failed = 6
stage recovery_required = 6

abbrev pub is_final : Status → Bool
is_final confirmed = true
is_final failed = true
is_final recovery_required = true
is_final _ = false

pub record Advances (old new : Job) : Type 0 where
  pub id : new.id ≡ old.id
  pub idempotency_key : new.idempotency_key ≡ old.idempotency_key
  pub capability_digest : new.capability_digest ≡ old.capability_digest
  pub request_hash : new.request_hash ≡ old.request_hash
  pub tx_digest : new.tx_digest ≡ old.tx_digest
  pub network : new.network ≡ old.network
  pub contract_address : new.contract_address ≡ old.contract_address
  pub circuit : new.circuit ≡ old.circuit
  pub action : new.action ≡ old.action
  pub forward : stage old.status ≤ stage new.status
  pub frozen : (is_final old.status ≡ false) ⊎ (new ≡ old)
  pub journal : (added : List Status) × (new.transitions ≡ old.transitions ++ added)

pub Advances-refl : (job : Job) → Advances job job
Advances-refl job = record {
  id = refl;
  idempotency_key = refl;
  capability_digest = refl;
  request_hash = refl;
  tx_digest = refl;
  network = refl;
  contract_address = refl;
  circuit = refl;
  action = refl;
  forward = omega arith;
  frozen = inr refl;
  journal = ([], sym (append-nil job.transitions));
}

frozen_trans :
    (a b c : Job)
    → (is_final a.status ≡ false) ⊎ (b ≡ a)
    → (is_final b.status ≡ false) ⊎ (c ≡ b)
    → (is_final a.status ≡ false) ⊎ (c ≡ a)
frozen_trans a b c (inl unfinished) k = inl unfinished
frozen_trans a b c (inr same) (inl unfinished) =
    inl (ap (λ (j : Job). is_final j.status) (sym same) ∙ unfinished)
frozen_trans a b c (inr same) (inr same') = inr (same' ∙ same)

pub Advances-trans : (a b c : Job) → Advances a b → Advances b c → Advances a c
Advances-trans a b c h k = record {
  id = k.id ∙ h.id;
  idempotency_key = k.idempotency_key ∙ h.idempotency_key;
  capability_digest = k.capability_digest ∙ h.capability_digest;
  request_hash = k.request_hash ∙ h.request_hash;
  tx_digest = k.tx_digest ∙ h.tx_digest;
  network = k.network ∙ h.network;
  contract_address = k.contract_address ∙ h.contract_address;
  circuit = k.circuit ∙ h.circuit;
  action = k.action ∙ h.action;
  forward = omega (arith, h.forward, k.forward);
  frozen = frozen_trans a b c h.frozen k.frozen;
  journal = (
    h.journal.0 ++ k.journal.0,
    k.journal.1
        ∙ ap (λ (t : List Status). t ++ k.journal.0) h.journal.1
        ∙ append_assoc a.transitions h.journal.0 k.journal.0,
  );
}

-- Every stored job is still there, and has only advanced.
abbrev pub Grows : Store → Store → Type 0
Grows s t =
    (id : Text) (job : Job)
    → get s.jobs id ≡ some job
    → (job' : Job) × (get t.jobs id ≡ some job') × Advances job job'

pub Grows-refl : (s : Store) → Grows s s
Grows-refl s id job e = (job, e, Advances-refl job)

pub Grows-trans : (s t u : Store) → Grows s t → Grows t u → Grows s u
Grows-trans s t u g h id job e =
    let (b, eb, ab) = g id job e in
    let (c, ec, ac) = h id b eb in (c, ec, Advances-trans job b c ab ac)

pub Grows-of_jobs : (s t : Store) → t.jobs ≡ s.jobs → Grows s t
Grows-of_jobs s t same id job e = (job, rw same e, Advances-refl job)

pub Writes-Grows :
    (id : Text) (old new : Job) (s t : Store) → Writes id old new s t → Advances old new → Grows s t
Writes-Grows id old new s t w h j job e = elim (Bool-cases (text_eq id j)) [
  | inl hit ↦
      let here : id ≡ j = (text_eq_iff id j).0 hit in
      let same : old ≡ job = some-injective old job (sym w.found ∙ rw here e) in
      (new, rw (w.jobs, get-set s.jobs id j new, hit), subst (λ (k : Job). Advances k new) same h)
  | inr miss ↦ (job, rw (w.jobs, get-set s.jobs id j new, miss) e, Advances-refl job)
]

-- A transition with this patch moves no job back and touches no final one.
abbrev pub IsForward : List Status → Patch → Type 0
IsForward expected patch =
    (job : Job)
    → status_in expected job.status ≡ true
    → (is_final job.status ≡ false) × (stage job.status ≤ stage (next_status job patch.status))

next_transitions-extend :
    (job : Job) (status : Option Status)
    → (added : List Status) × (next_transitions job status ≡ job.transitions ++ added)
next_transitions-extend job none = ([], sym (append-nil job.transitions))
next_transitions-extend job (some status) = elim (Bool-cases (status_eq status job.status)) [
  | inl same ↦ ([], rw same (sym (append-nil job.transitions)))
  | inr other ↦ (status ∷ [], rw other)
]

patched-Advances :
    (expected : List Status) (patch : Patch) (job : Job) (receipt : Option CanonicalReceipt)
    (now : Text)
    → IsForward expected patch
    → status_in expected job.status ≡ true
    → Advances job (patched job patch receipt now)
patched-Advances expected patch job receipt now f e = record {
  id = refl;
  idempotency_key = refl;
  capability_digest = refl;
  request_hash = refl;
  tx_digest = refl;
  network = refl;
  contract_address = refl;
  circuit = refl;
  action = refl;
  forward = (f job e).1;
  frozen = inl (f job e).0;
  journal = next_transitions-extend job patch.status;
}

reserved_job-Advances :
    (job : Job) (reservation_id now : Text)
    → job.status ≡ validated
    → Advances job (reserved_job job reservation_id now)
reserved_job-Advances job reservation_id now ready = record {
  id = refl;
  idempotency_key = refl;
  capability_digest = refl;
  request_hash = refl;
  tx_digest = refl;
  network = refl;
  contract_address = refl;
  circuit = refl;
  action = refl;
  forward = rw (ap stage ready) (omega arith);
  frozen = inl (ap is_final ready);
  journal = (dust_reserved ∷ [], refl);
}

pub transition-Grows :
    (id : Text) (expected : List Status) (patch : Patch) (now : Text) (store : Store)
    (result : Option Job) (store' : Store)
    → IsForward expected patch
    → transition id expected patch now store ≡ ok (result, store')
    → Grows store store'
transition-Grows id expected patch now store result store' f e =
    elim (transition_cases id expected patch now store result store' e) [
      | inl (_, same) ↦ Grows-of_jobs store store' (ap (λ (s : Store). s.jobs) same)
      | inr (job, receipt, expects, _, _, w) ↦
          Writes-Grows id job (patched job patch receipt now) store store' w
            (patched-Advances expected patch job receipt now f expects)
    ]

pub reserve_dust-Grows :
    (id reservation_id now : Text) (store : Store)
    → Grows store (reserve_dust id reservation_id now store).1
reserve_dust-Grows id reservation_id now store =
    elim (reserve_dust_cases id reservation_id now store) [
      | inl (_, same) ↦
          Grows-of_jobs store (reserve_dust id reservation_id now store).1
            (ap (λ (s : Store). s.jobs) same)
      | inr (job, ready, _, _, w) ↦
          Writes-Grows id job (reserved_job job reservation_id now) store _ w
            (reserved_job-Advances job reservation_id now ready)
    ]

missing_id :
    (input : NewJob) (store : Store)
    → existing_job input store.jobs ≡ none
    → get store.jobs input.id ≡ none
missing_id input store fresh =
    (or_else-none (get store.jobs input.id) (find (is_same_request input) (values store.jobs))
      fresh).0

-- A new job is stored beside the others.
pub create_or_get-kept :
    (input : NewJob) (store : Store) (job : Job) (created : Bool) (store' : Store) (id : Text)
    (old : Job)
    → create_or_get input store ≡ ok ((job, created), store')
    → get store.jobs id ≡ some old
    → get store'.jobs id ≡ some old
create_or_get-kept input store job created store' id old e found =
    elim (create_or_get_cases input store job created store' e) [
      | inl (_, same, _, _) ↦ rw same found
      | inr (_, fresh, _, jobs, _) ↦
          let missing : get store.jobs input.id ≡ none = missing_id input store fresh in
          rw (jobs, get-set store.jobs input.id id (new_job input))
            (elim (Bool-cases (text_eq input.id id)) [
              | inl hit ↦ absurd (ground (arith, (text_eq_iff input.id id).0 hit))
              | inr miss ↦ rw miss found
            ])
    ]

pub create_or_get-Grows :
    (input : NewJob) (store : Store) (job : Job) (created : Bool) (store' : Store)
    → create_or_get input store ≡ ok ((job, created), store')
    → Grows store store'
create_or_get-Grows input store job created store' e id old found =
    (old, create_or_get-kept input store job created store' id old e found, Advances-refl old)

pub consume_capability-jobs :
    (r : Reservation) (store : Store) → (consume_capability r store).1.jobs ≡ store.jobs
unfolding consume_capability
consume_capability-jobs r store = ground arith
