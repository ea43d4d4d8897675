-- ===== src/Cico/Publisher.antt =====
-- cico-service/src/credential-root-publisher.ts: CredentialRootPublisher. Its queue runs one cycle at a
-- time; the state holds the fields of the object and the trace of what was done, the last effect
-- first. The answers of the ledgers, the executors and the clock may depend on the whole trace.
pub mod Effects
pub mod Laws
pub mod Rounds
pub mod Batch
mod Tests
use midnight_referendum_app.Base.{
  ℕ, ◌+◌, ◌-◌, ◌/◌, ◌≡◌, Bool, true, false, not, ◌&&◌, ◌||◌, Option, none, some, List, [], ◌∷◌, leb,
  ◌==◌, map, if◌then◌else◌,
}
use midnight_referendum_app.Base.Text.{Text, includes}
use midnight_referendum_app.Cico.Program.{Ran, done, failed, Program, ◌>>=◌, ◌>>◌, return}
use midnight_referendum_app.Cico.Registry.{RegistryState}

-- A call of an executor is in the trace with its success.
pub data Effect : Type 0 where
  registry_read clock_read registry_joined attestation_refused : Effect
  referendum_read referendum_joined : Text → Effect
  attested : ℕ → Effect
  published : Text → ℕ → Effect
  publication_refused : Text → ℕ → Effect

pub record ReferendumState : Type 0 where
  pub enrollment_closed : Bool
  pub enrollment_closes_at_unix : ℕ

-- `none` and `false` are throws; `attest` and `publish` answer with the transaction's identifier.
pub record World : Type 0 where
  pub read_registry : List Effect → Option RegistryState
  pub read_referendum : Text → List Effect → Option ReferendumState
  pub join_registry : List Effect → Bool
  pub attest : ℕ → List Effect → Option Text
  pub join_referendum : Text → List Effect → Bool
  pub publish : Text → ℕ → List Effect → Option Text
  pub now : List Effect → ℕ

-- The options, with their defaults filled in; a referendum is its contract's address.
pub record PublisherOptions : Type 0 where
  pub referenda : List Text
  pub min_batch_size : ℕ
  pub max_wait_ms : ℕ

pub data PublishError : Type 0 where
  unavailable join_failed attest_failed publish_failed : PublishError

pub data SkipReason : Type 0 where
  no_referenda_configured unchanged no_new_credentials below_minimum_batch attestation_failed :
      SkipReason

pub record ReferendumOutcome : Type 0 where
  pub contract_address : Text
  pub transaction_id : Option Text

pub record Publication : Type 0 where
  pub root_field : ℕ
  pub batch_size : ℕ
  pub below_minimum : Bool
  pub attestation_transaction_id : Text
  pub referenda : List ReferendumOutcome

pub data PublishResult : Type 0 where
  skipped : SkipReason → Option ℕ → PublishResult
  publication : Publication → PublishResult

pub record Publisher : Type 0 where
  pub registry_joined : Bool
  pub joined_referenda : List Text
  pub last_published_root_field : Option ℕ
  pub last_published_credential_count : ℕ
  pub pending_root_field : Option ℕ
  pub pending_since_ms : Option ℕ
  pub last_observed_batch_size : Option ℕ
  pub last_published_at_ms : Option ℕ
  pub last_result : Option PublishResult
  pub last_error : Option PublishError
  pub trace : List Effect

abbrev pub Cycle : Type 0 → Type 0
Cycle A = Program Publisher PublishError A

abbrev pub note : Effect → Publisher → Publisher
note e s = record s { trace = e ∷ s.trace }

abbrev pub is_root : Option ℕ → ℕ → Bool
is_root none root = false
is_root (some r) root = r == root

-- The answer of a call, with the effect of its success and of its throw.
abbrev pub answered : {A : Type 0} → Option A → Effect → Effect → PublishError → Cycle A
answered none good bad x s = failed x (note bad s)
answered (some a) good bad x s = done a (note good s)

abbrev pub accepted : Bool → Effect → PublishError → Cycle (Unit {0})
accepted true e x s = done tt (note e s)
accepted false e x s = failed x (note e s)

-- `try { … } catch`: what happened before the throw stays.
abbrev pub recovered :
    {A : Type 0} → Ran Publisher PublishError A → Ran Publisher PublishError (Option A)
recovered (done a s) = done (some a) s
recovered (failed x s) = done none s

unfoldable pub caught : {A : Type 0} → Cycle A → Cycle (Option A)
caught m s = recovered (m s)

abbrev pub modify : (Publisher → Publisher) → Cycle (Unit {0})
modify f s = done tt (f s)

abbrev pub is_empty : List Text → Bool
is_empty [] = true
is_empty (a ∷ rest) = false

-- What `cycle` keeps of the end of a cycle.
abbrev pub recorded :
    Ran Publisher PublishError PublishResult → Ran Publisher PublishError PublishResult
recorded (done r s) = done r (record s { last_result = some r })
recorded (failed x s) = failed x (record s { last_error = some x })

module _ (world : World) (options : PublisherOptions) where
  unfoldable pub read_registry : Cycle RegistryState
  read_registry s = answered (world.read_registry s.trace) registry_read registry_read unavailable s

  unfoldable pub now : Cycle ℕ
  now s = done (world.now s.trace) (note clock_read s)

  -- The test of one referendum; one that cannot be read is passed over.
  abbrev pub closes_soon : ℕ → Option ReferendumState → Bool
  closes_soon now_seconds none = false
  closes_soon now_seconds (some state) =
      not state.enrollment_closed
      && leb state.enrollment_closes_at_unix (now_seconds + (options.max_wait_ms + 999) / 1000)

  -- `isEnrollmentDeadlineImminent`, over the referenda that are left.
  unfoldable pub any_imminent : ℕ → List Text → Cycle Bool
  any_imminent now_seconds [] s = done false s
  any_imminent now_seconds (address ∷ rest) s =
      let s' = note (referendum_read address) s in
      let later = any_imminent now_seconds rest s' in
      if closes_soon now_seconds (world.read_referendum address s.trace)
      then done true s'
      else later

  unfoldable pub is_enrollment_deadline_imminent : Cycle Bool
  is_enrollment_deadline_imminent =
      now >>= λ milliseconds. any_imminent (milliseconds / 1000) options.referenda

  unfoldable pub join_registry : Cycle (Unit {0})
  join_registry s =
      if s.registry_joined
      then done tt s
      else (accepted (world.join_registry s.trace) registry_joined join_failed >>= λ _.
            modify λ t. record t { registry_joined = true })
          s

  unfoldable pub attest_root : ℕ → Cycle Text
  attest_root root s =
      answered (world.attest root s.trace) (attested root) attestation_refused attest_failed s

  unfoldable pub attest : ℕ → Cycle Text
  attest root = join_registry >> attest_root root

  unfoldable pub join_referendum : Text → Cycle (Unit {0})
  join_referendum address s =
      if includes s.joined_referenda address
      then done tt s
      else (accepted (world.join_referendum address s.trace) (referendum_joined address) join_failed
            >>= λ _. modify λ t. record t { joined_referenda = address ∷ t.joined_referenda })
          s

  unfoldable pub publish_root : Text → ℕ → Cycle Text
  publish_root address root s =
      answered (world.publish address root s.trace) (published address root)
        (publication_refused address root) publish_failed s

  unfoldable pub publish_to_referendum : Text → ℕ → Cycle Text
  publish_to_referendum address root = join_referendum address >> publish_root address root

  -- The loop over the referenda.
  unfoldable pub publish_all : ℕ → List Text → Cycle (List ReferendumOutcome)
  publish_all root [] = return []
  publish_all root (address ∷ rest) = do
    outcome ← caught (publish_to_referendum address root)
    outcomes ← publish_all root rest
    return (record { contract_address = address; transaction_id = outcome } ∷ outcomes)

  -- What the cycle records once the referenda have been tried.
  abbrev pub committed : ℕ → ℕ → Publisher → Publisher
  committed root count s = record s {
    last_published_root_field = some root;
    last_published_credential_count = count;
    pending_root_field = none;
    pending_since_ms = none;
    last_observed_batch_size = some 0;
  }

  unfoldable pub publish_attested : RegistryState → ℕ → Bool → Text → Cycle PublishResult
  publish_attested registry batch_size below_minimum transaction_id = do
    outcomes ← publish_all registry.current_root options.referenda
    modify (committed registry.current_root registry.credential_count)
    at ← now
    modify λ s. record s { last_published_at_ms = some at }
    return (
        publication (record {
          root_field = registry.current_root;
          batch_size = batch_size;
          below_minimum = below_minimum;
          attestation_transaction_id = transaction_id;
          referenda = outcomes;
        }))

  -- What follows the attempt to attest.
  abbrev pub after_attestation : RegistryState → ℕ → Bool → Option Text → Cycle PublishResult
  after_attestation registry batch_size below_minimum none =
      return (skipped attestation_failed none)
  after_attestation registry batch_size below_minimum (some transaction_id) =
      publish_attested registry batch_size below_minimum transaction_id

  unfoldable pub publish : RegistryState → ℕ → Bool → Cycle PublishResult
  publish registry batch_size below_minimum =
      caught (attest registry.current_root) >>= after_attestation registry batch_size below_minimum

  -- `pendingSinceMs ?? now()`
  abbrev pub or_now : Option ℕ → Cycle ℕ
  or_now none = now
  or_now (some since) = return since

  unfoldable pub waiting_since : Cycle ℕ
  waiting_since s = or_now s.pending_since_ms s

  -- The batch is published when it is large enough, has waited or an enrolment is about to close.
  unfoldable pub decide : RegistryState → ℕ → Cycle PublishResult
  decide registry batch_size = do
    at ← now
    since ← waiting_since
    if leb options.min_batch_size batch_size || leb (since + options.max_wait_ms) at
        then publish registry batch_size (not (leb options.min_batch_size batch_size))
        else (is_enrollment_deadline_imminent >>= λ imminent.
            if imminent
            then publish registry batch_size (not (leb options.min_batch_size batch_size))
            else return (skipped below_minimum_batch (some batch_size)))

  unfoldable pub observe : RegistryState → Cycle PublishResult
  observe registry s =
      let batch_size = registry.credential_count - s.last_published_credential_count in
      let s' = record s { last_observed_batch_size = some batch_size } in
      if leb registry.credential_count s.last_published_credential_count
      then done (skipped no_new_credentials none) s'
      else decide registry batch_size s'

  -- The wait starts again whenever the registry's root changes.
  unfoldable pub start_waiting : ℕ → Cycle (Unit {0})
  start_waiting root s =
      if is_root s.pending_root_field root
      then done tt s
      else (now >>= λ at.
            modify λ t. record t { pending_root_field = some root; pending_since_ms = some at })
          s

  unfoldable pub with_registry : RegistryState → Cycle PublishResult
  with_registry registry s =
      if is_root s.last_published_root_field registry.current_root
      then done (skipped unchanged none) (record s { last_observed_batch_size = some 0 })
      else (start_waiting registry.current_root >> observe registry) s

  unfoldable pub run_cycle : Cycle PublishResult
  run_cycle =
      if is_empty options.referenda
      then return (skipped no_referenda_configured none)
      else (read_registry >>= with_registry)

  unfoldable pub publish_once : Cycle PublishResult
  publish_once s = recorded (run_cycle s)
