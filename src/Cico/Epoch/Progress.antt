-- ===== src/Cico/Epoch/Progress.antt =====
-- When the calls of cico-service/src/credential-epoch-coordinator.ts succeed: the reconciliation
-- loop, and the operations behind `runEnrollmentMutation`.
use midnight_referendum_app.Base.{
  ℕ, zero, suc, ◌<◌, ◌≡◌, Option-cases, ◌⊎◌, inl, inr, Bool, true, false, not, ◌&&◌, Option, none,
  some, List, ◌∷◌, leb, ◌==◌, ==_iff, arith, Bool-cases,
}
use midnight_referendum_app.Base.Text.{text_eq, text_eq_iff}
use midnight_referendum_app.Cico.Program.{done, failed, ◌>>=◌, ◌>>◌, return, require, or_throw}
use midnight_referendum_app.Cico.Epoch.{
  EpochError, unavailable, wrong_address, wrong_registry_id, wrong_issuer_id, wrong_epoch,
  enrollment_closed, Snapshot, Effect, read, slept, World, Coordinator, Action, ask, sleep,
  read_expected_registry, reconciled, reconcile_frozen, run_enrollment_mutation,
}
use midnight_referendum_app.Cico.Epoch.Laws.{IsExpected, IsSettled}

-- The test that a reading passes.
abbrev pub is_expected : Coordinator → Snapshot → Bool
is_expected self s =
    text_eq s.registry_contract_address self.registry_contract_address
    && text_eq s.registry.registry_id self.registry_id
    && text_eq s.registry.issuer_id self.issuer_id
    && (s.registry.credential_epoch == self.credential_epoch)

abbrev pub is_enrolling : Coordinator → Option Snapshot → Bool
is_enrolling self none = false
is_enrolling self (some s) = is_expected self s && not s.registry.frozen

-- The trace after some rounds of the loop: a reading and a pause each.
abbrev pub rounds : ℕ → Coordinator → List Effect → List Effect
rounds zero self trace = trace
rounds (suc n) self trace = rounds n self (slept self.reconciliation_delay_ms ∷ read ∷ trace)

module _ (world : World) (self : Coordinator) where
  -- Where the next reading is the configured registry.
  read_expected_lem :
      (s : Snapshot) (trace : List Effect)
      → world.read_registry trace ≡ some s
      → IsExpected self s
      → read_expected_registry world self trace ≡ done s (read ∷ trace)
  unfolding read_expected_registry ask ◌>>=◌ ◌>>◌ require or_throw return
  read_expected_lem s trace e h = simp (
    e,
    (text_eq_iff _ _).1 h.address,
    (text_eq_iff _ _).1 h.registry_id,
    (text_eq_iff _ _).1 h.issuer_id,
    (==_iff _ _).1 h.credential_epoch,
  )

  reconciled_lem :
      (before after : Snapshot) (trace : List Effect)
      → IsSettled world self before after
      → reconciled world self before after trace ≡ done after trace
  unfolding reconciled ◌>>=◌ ◌>>◌ require return
  reconciled_lem before after trace h = simp (
    (==_iff _ _).1 h.frozen_root,
    (==_iff _ _).1 h.current_root,
    (==_iff _ _).1 h.credential_count,
  )

  -- The readings of so many rounds show the configured registry, not frozen yet.
  abbrev pub Waits : ℕ → List Effect → Type 0
  Waits zero trace = Unit
  Waits (suc n) trace =
      ((s : Snapshot) × (world.read_registry trace ≡ some s)
        × IsExpected self s
        × (s.registry.frozen ≡ false))
      × Waits n (slept self.reconciliation_delay_ms ∷ read ∷ trace)

  -- If the registry shows as frozen at the coordinated root within the attempts, after readings of
  -- the configured registry that is not frozen yet, the loop returns that reading, one pause after
  -- each earlier reading.
  pub reconcile_frozen_lem :
      (n left : ℕ) (before after : Snapshot) (trace : List Effect)
      → n < left
      → Waits n trace
      → world.read_registry (rounds n self trace) ≡ some after
      → IsSettled world self before after
      → reconcile_frozen world self left before trace ≡ done after (read ∷ rounds n self trace)
  unfolding reconcile_frozen ◌>>=◌ ◌>>◌ sleep
  reconcile_frozen_lem n zero before after trace h waits e settled = ground (arith, h)
  reconcile_frozen_lem zero (suc left) before after trace h waits e settled = simp (
    read_expected_lem after trace e settled.expected,
    settled.is_frozen,
    reconciled_lem before after (read ∷ trace) settled,
  )
  reconcile_frozen_lem (suc n) (suc left) before after trace h ((s, e', expected, unfrozen), waits)
        e settled =
      let more : leb 1 left ≡ true = ground (arith, h) in
      simp (read_expected_lem s trace e' expected, unfrozen, more)
        (reconcile_frozen_lem n left before after _ (omega (arith, h)) waits e settled)

  -- An operation behind `runEnrollmentMutation` runs, after one reading, exactly where that reading
  -- is the configured registry and not frozen: the call then ends as the operation does. Otherwise
  -- the call fails and only the reading has happened.
  pub run_enrollment_mutation_lem :
      {A : Type 0} (operation : Action A) (trace : List Effect)
      → ((is_enrolling self (world.read_registry trace) ≡ true)
          × (run_enrollment_mutation world self operation trace ≡ operation (read ∷ trace)))
        ⊎ ((is_enrolling self (world.read_registry trace) ≡ false)
            × ((x : EpochError) × (run_enrollment_mutation world self operation trace
                  ≡ failed x (read ∷ trace))))
  unfolding run_enrollment_mutation read_expected_registry ask ◌>>=◌ ◌>>◌ require or_throw return
  run_enrollment_mutation_lem operation trace = elim (Option-cases (world.read_registry trace)) [
    | inl e ↦ inr (simp (e), (unavailable, simp (e)))
    | inr (s, e) ↦
        elim (Bool-cases (text_eq s.registry_contract_address self.registry_contract_address)) [
          | inr h1 ↦ inr (simp (e, h1), (wrong_address, simp (e, h1)))
          | inl h1 ↦ elim (Bool-cases (text_eq s.registry.registry_id self.registry_id)) [
            | inr h2 ↦ inr (simp (e, h1, h2), (wrong_registry_id, simp (e, h1, h2)))
            | inl h2 ↦ elim (Bool-cases (text_eq s.registry.issuer_id self.issuer_id)) [
              | inr h3 ↦ inr (simp (e, h1, h2, h3), (wrong_issuer_id, simp (e, h1, h2, h3)))
              | inl h3 ↦ elim (Bool-cases (s.registry.credential_epoch == self.credential_epoch)) [
                | inr h4 ↦ inr (simp (e, h1, h2, h3, h4), (wrong_epoch, simp (e, h1, h2, h3, h4)))
                | inl h4 ↦ elim (Bool-cases s.registry.frozen) [
                  | inl h5 ↦ inr (
                    simp (e, h1, h2, h3, h4, h5),
                    (enrollment_closed, simp (e, h1, h2, h3, h4, h5)),
                  )
                  | inr h5 ↦ inl (simp (e, h1, h2, h3, h4, h5), simp (e, h1, h2, h3, h4, h5))
                ]
              ]
            ]
          ]
        ]
  ]
