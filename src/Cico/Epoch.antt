-- ===== src/Cico/Epoch.antt =====
-- cico-service/src/credential-epoch-coordinator.ts: CredentialEpochCoordinator. Its queue runs one
-- operation at a time, so an operation is a program on the trace of what was done; the answers of the
-- indexer and of the contract may depend on the whole trace. `equalBytes` is equality of lists.
pub mod Laws
pub mod Progress
mod Tests
use midnight_referendum_app.Base.{
  ℕ, zero, suc, ◌≡◌, Bool, true, false, not, ◌&&◌, Option, none, some, List, [], ◌∷◌, leb, ◌==◌,
  length, if◌then◌else◌,
}
use midnight_referendum_app.Base.Text.{Text, codes, text_eq, is_blank}
use midnight_referendum_app.Base.Json.{max_safe_integer}
use midnight_referendum_app.Receipts.{
  CanonicalReceipt, CivicActionKind, credential, MidnightRuntimeNetwork, preview,
}
use midnight_referendum_app.Cico.Program.{
  Ran, done, failed, Program, ◌>>=◌, ◌>>◌, return, require, or_throw,
}
use midnight_referendum_app.Cico.Registry.{
  Bytes, RegistryState, FrozenReference, create_frozen_reference,
}

pub data EpochError : Type 0 where
  empty_address bad_registry_id bad_issuer_id bad_issuer_secret bad_attempts bad_delay : EpochError
  unavailable wrong_address wrong_registry_id wrong_issuer_id wrong_epoch : EpochError
  enrollment_closed stale_frozen_root empty_epoch : EpochError
  join_failed freeze_failed bad_receipt : EpochError
  other_root_frozen root_changed count_changed not_reconciled : EpochError
  bad_reference operation_failed : EpochError

pub record Snapshot : Type 0 where
  pub registry : RegistryState
  pub registry_contract_address : Text

pub data FreezeOutcome : Type 0 where
  frozen already_frozen : FreezeOutcome

pub record FreezeResult : Type 0 where
  pub outcome : FreezeOutcome
  pub before : Snapshot
  pub after : Snapshot
  pub reference : FrozenReference
  pub receipt : Option CanonicalReceipt

-- What an operation does to the world.
pub data Effect : Type 0 where
  read : Effect
  joined : Text → Bytes → Effect
  froze : ℕ → Effect
  slept : ℕ → Effect
  mutated : Effect

-- The reader and the executor: the answer after a trace, whose last effect comes first; `none` and
-- `false` are throws.
pub record World : Type 0 where
  pub read_registry : List Effect → Option Snapshot
  pub join : List Effect → Bool
  pub freeze : List Effect → Option CanonicalReceipt

pub record EpochOptions : Type 0 where
  pub registry_contract_address : Text
  pub registry_id : Bytes
  pub issuer_id : Bytes
  pub credential_epoch : ℕ
  pub issuer_secret : Bytes
  pub reconciliation_attempts : Option ℕ
  pub reconciliation_delay_ms : Option ℕ

pub record Coordinator : Type 0 where
  pub registry_contract_address : Text
  pub registry_id : Bytes
  pub issuer_id : Bytes
  pub credential_epoch : ℕ
  pub issuer_secret : Bytes
  pub reconciliation_attempts : ℕ
  pub reconciliation_delay_ms : ℕ

abbrev pub Action : Type 0 → Type 0
Action A = Program (List Effect) EpochError A

abbrev pub or_default : Option ℕ → ℕ → ℕ
or_default none d = d
or_default (some n) d = n

-- `requirePositiveInteger`
abbrev pub is_positive : ℕ → Bool
is_positive n = leb 1 n && leb n max_safe_integer

-- The constructor.
unfoldable pub coordinator_of : EpochOptions → Action Coordinator
coordinator_of options =
    require (not (is_blank options.registry_contract_address)) empty_address
    >> require (length options.registry_id == 32) bad_registry_id
    >> require (length options.issuer_id == 32) bad_issuer_id
    >> require (length options.issuer_secret == 32) bad_issuer_secret
    >> require (is_positive (or_default options.reconciliation_attempts 8)) bad_attempts
    >> require (leb (or_default options.reconciliation_delay_ms 250) max_safe_integer) bad_delay
    >> return (record {
      registry_contract_address = options.registry_contract_address;
      registry_id = options.registry_id;
      issuer_id = options.issuer_id;
      credential_epoch = options.credential_epoch;
      issuer_secret = options.issuer_secret;
      reconciliation_attempts = or_default options.reconciliation_attempts 8;
      reconciliation_delay_ms = or_default options.reconciliation_delay_ms 250;
    })

abbrev pub is_credential : CivicActionKind → Bool
is_credential credential = true
is_credential _ = false

abbrev pub is_preview : MidnightRuntimeNetwork → Bool
is_preview preview = true
is_preview _ = false

abbrev pub is_freeze_receipt : CanonicalReceipt → Text → Bool
is_freeze_receipt receipt address =
    is_credential receipt.action
    && is_preview receipt.network
    && text_eq receipt.circuit (codes "freeze")
    && text_eq receipt.contract_address address

module _ (world : World) where
  -- One awaited call, which is in the trace whatever it answers.
  unfoldable pub ask : Action Snapshot
  ask trace = or_throw (world.read_registry trace) unavailable (read ∷ trace)

  unfoldable pub join : Text → Bytes → Action (Unit {0})
  join address secret trace = require (world.join trace) join_failed (joined address secret ∷ trace)

  unfoldable pub freeze : ℕ → Action CanonicalReceipt
  freeze root trace = or_throw (world.freeze trace) freeze_failed (froze root ∷ trace)

  unfoldable pub sleep : ℕ → Action (Unit {0})
  sleep delay trace = done tt (slept delay ∷ trace)

  module _ (self : Coordinator) where
    unfoldable pub read_expected_registry : Action Snapshot
    read_expected_registry = do
      state ← ask
      require (text_eq state.registry_contract_address self.registry_contract_address) wrong_address
      require (text_eq state.registry.registry_id self.registry_id) wrong_registry_id
      require (text_eq state.registry.issuer_id self.issuer_id) wrong_issuer_id
      require (state.registry.credential_epoch == self.credential_epoch) wrong_epoch
      return state

    -- `operation` is the caller's.
    unfoldable pub run_enrollment_mutation : {A : Type 0} → Action A → Action A
    run_enrollment_mutation operation = do
      before ← read_expected_registry
      require (not before.registry.frozen) enrollment_closed
      operation

    -- The checks of one reading of the frozen registry.
    unfoldable pub reconciled : Snapshot → Snapshot → Action Snapshot
    reconciled before after = do
      require (after.registry.frozen_root == before.registry.current_root) other_root_frozen
      require (after.registry.current_root == before.registry.current_root) root_changed
      require (after.registry.credential_count == before.registry.credential_count) count_changed
      return after

    -- The loop, with the attempts that are left.
    unfoldable pub reconcile_frozen : ℕ → Snapshot → Action Snapshot
    reconcile_frozen zero before = λ trace. failed not_reconciled trace
    reconcile_frozen (suc left) before =
        let rest = reconcile_frozen left before in
        read_expected_registry >>= λ after.
        if after.registry.frozen
        then reconciled before after
        else (if leb 1 left then (sleep self.reconciliation_delay_ms >> rest) else rest)

    module _ (lower : Text → Text) (hash : Bytes → Bytes → Bytes) where
      abbrev pub finish :
          FreezeOutcome → Snapshot → Snapshot → Option CanonicalReceipt → Action FreezeResult
      finish outcome before after receipt =
          or_throw
            (create_frozen_reference lower hash self.registry_contract_address after.registry)
            bad_reference
          >>= λ reference. return (record {
            outcome = outcome;
            before = before;
            after = after;
            reference = reference;
            receipt = receipt;
          })

      unfoldable pub close_open : Snapshot → Action FreezeResult
      close_open before = do
        require (not (before.registry.credential_count == 0)) empty_epoch
        join self.registry_contract_address self.issuer_secret
        receipt ← freeze before.registry.current_root
        require (is_freeze_receipt receipt self.registry_contract_address) bad_receipt
        after ← reconcile_frozen self.reconciliation_attempts before
        finish frozen before after (some receipt)

      unfoldable pub close_and_freeze : Action FreezeResult
      close_and_freeze = do
        before ← read_expected_registry
        if before.registry.frozen
            then (require (before.registry.frozen_root == before.registry.current_root)
                  stale_frozen_root
                >> finish already_frozen before before none)
            else close_open before
