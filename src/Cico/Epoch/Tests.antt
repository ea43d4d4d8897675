-- ===== src/Cico/Epoch/Tests.antt =====
-- Runs of the credential epoch coordinator.
use midnight_referendum_app.Base.{
  ℕ, ◌≡◌, refl, ◌⊎◌, Bool, true, false, Option, none, some, List, [], ◌∷◌, map, arith,
}
use midnight_referendum_app.Base.Text.{Text, codes, to_lower}
use midnight_referendum_app.Receipts.{CanonicalReceipt, credential, preview}
use midnight_referendum_app.Cico.Program.{done, failed, Holds}
use midnight_referendum_app.Cico.Registry.{Bytes}
use midnight_referendum_app.Cico.Epoch.{
  EpochError, Snapshot, Effect, read, froze, World, Coordinator, Action, reconcile_frozen,
  close_and_freeze, run_enrollment_mutation, mutated,
}
use midnight_referendum_app.Cico.Epoch.Laws.{
  IsExpected, IsCertified, IsAbandoned, close_and_freeze_lem,
}
use midnight_referendum_app.Cico.Epoch.Progress.{
  rounds, reconcile_frozen_lem, run_enrollment_mutation_lem, is_enrolling,
}

abbrev address : Text
address = codes "0000000000000000000000000000000000000000000000000000000000000abc"

abbrev coordinator : Coordinator
coordinator = record {
  registry_contract_address = address;
  registry_id = 1 ∷ [];
  issuer_id = 2 ∷ [];
  credential_epoch = 3;
  issuer_secret = 4 ∷ [];
  reconciliation_attempts = 2;
  reconciliation_delay_ms = 250;
}

abbrev snapshot : ℕ → Bool → Snapshot
snapshot root frozen = record {
  registry = record {
    registry_id = 1 ∷ [];
    issuer_id = 2 ∷ [];
    credential_epoch = 3;
    current_root = 9;
    frozen_root = root;
    frozen = frozen;
    credential_count = 5;
  };
  registry_contract_address = address;
}

abbrev receipt : CanonicalReceipt
receipt = record {
  action = credential;
  network = preview;
  transaction_id = codes "t";
  transaction_hash = codes "h";
  contract_address = address;
  circuit = codes "freeze";
  block_height = 1;
  block_hash = codes "b";
  block_timestamp = codes "s";
  explorer_url = none;
}

-- The indexer shows the freeze one reading late.
abbrev late : List Effect → Option Snapshot
late (froze root ∷ trace) = some (snapshot 0 false)
late (e ∷ trace) = some (snapshot 9 true)
late [] = some (snapshot 0 false)

abbrev world : World
world = record { read_registry = late; join = λ _. true; freeze = λ _. some receipt }

abbrev hash : Bytes → Bytes → Bytes
hash domain value = value

close_and_freeze_lem_example :
    Holds
      (IsCertified world coordinator (map to_lower) hash [])
      (λ x t. IsAbandoned world coordinator (map to_lower) hash [] t)
      (close_and_freeze world coordinator (map to_lower) hash [])
close_and_freeze_lem_example = close_and_freeze_lem world coordinator (map to_lower) hash []

snapshot-IsExpected : (root : ℕ) (frozen : Bool) → IsExpected coordinator (snapshot root frozen)
snapshot-IsExpected root frozen = record {
  address = refl;
  registry_id = refl;
  issuer_id = refl;
  credential_epoch = refl;
}

reconcile_frozen_lem_example :
    reconcile_frozen world coordinator 2 (snapshot 0 false) (froze 9 ∷ [])
    ≡ done (snapshot 9 true) (read ∷ rounds 1 coordinator (froze 9 ∷ []))
reconcile_frozen_lem_example =
    reconcile_frozen_lem world coordinator 1 2 (snapshot 0 false) (snapshot 9 true) (froze 9 ∷ [])
      (omega arith) ((snapshot 0 false, refl, snapshot-IsExpected 0 false, refl), tt) refl
      (record {
        expected = snapshot-IsExpected 9 true;
        is_frozen = refl;
        frozen_root = refl;
        current_root = refl;
        credential_count = refl;
      })

abbrev enrol : Action ℕ
enrol trace = done 7 (mutated ∷ trace)

run_enrollment_mutation_lem_example :
    ((is_enrolling coordinator (late []) ≡ true)
      × (run_enrollment_mutation world coordinator enrol [] ≡ enrol (read ∷ [])))
    ⊎ ((is_enrolling coordinator (late []) ≡ false)
        × ((x : EpochError) × (run_enrollment_mutation world coordinator enrol []
              ≡ failed x (read ∷ []))))
run_enrollment_mutation_lem_example = run_enrollment_mutation_lem world coordinator enrol []
