-- ===== src/Cico/Epoch/Laws.antt =====
-- What closeAndFreeze of cico-service/src/credential-epoch-coordinator.ts does, whatever the indexer
-- and the contract answer.
use midnight_referendum_app.Base.{
  ℕ, zero, suc, ◌≡◌, ◌≢◌, refl, ap, ◌∙◌, ◌⊎◌, inl, inr, true, false, some, List, [], ◌∷◌, leb,
  ==_iff, arith,
}
use midnight_referendum_app.Base.Text.{Text, text_eq_iff}
use midnight_referendum_app.Receipts.{CanonicalReceipt}
use midnight_referendum_app.Cico.Program.{
  ◌>>◌, return, Holds, bind-Holds, then-Holds, require-Holds, or_throw-Holds, throw-Holds,
  check-Holds, weaken, call-Holds, if-Holds,
}
use midnight_referendum_app.Cico.Registry.{Bytes, create_frozen_reference}
use midnight_referendum_app.Cico.Epoch.{
  EpochError, Snapshot, frozen, already_frozen, FreezeResult, Effect, read, froze, slept, World,
  Coordinator, is_freeze_receipt, ask, join, freeze, sleep, read_expected_registry, reconciled,
  reconcile_frozen, close_open, close_and_freeze,
}

-- The roots that a trace asked the contract to freeze, the last one first.
unfoldable pub frozen_roots : List Effect → List ℕ
frozen_roots [] = []
frozen_roots (froze root ∷ trace) = root ∷ frozen_roots trace
frozen_roots (e ∷ trace) = frozen_roots trace

-- The registry that the coordinator is configured for.
pub record IsExpected (self : Coordinator) (s : Snapshot) : Type 0 where
  pub address : s.registry_contract_address ≡ self.registry_contract_address
  pub registry_id : s.registry.registry_id ≡ self.registry_id
  pub issuer_id : s.registry.issuer_id ≡ self.issuer_id
  pub credential_epoch : s.registry.credential_epoch ≡ self.credential_epoch

module _ (world : World) (self : Coordinator) where
  -- A reading of an epoch that may be frozen.
  pub record IsOpen (before : Snapshot) : Type 0 where
    pub expected : IsExpected self before
    pub not_frozen : before.registry.frozen ≡ false
    pub not_empty : before.registry.credential_count ≢ 0

  pub record IsSettled (before after : Snapshot) : Type 0 where
    pub expected : IsExpected self after
    pub is_frozen : after.registry.frozen ≡ true
    pub frozen_root : after.registry.frozen_root ≡ before.registry.current_root
    pub current_root : after.registry.current_root ≡ before.registry.current_root
    pub credential_count : after.registry.credential_count ≡ before.registry.credential_count

  abbrev pub WasRead : List Effect → Snapshot → List Effect → Type 0
  WasRead trace s t = (world.read_registry trace ≡ some s) × IsExpected self s × (t ≡ read ∷ trace)

  abbrev pub OnlyRead : List Effect → EpochError → List Effect → Type 0
  OnlyRead trace x t = t ≡ read ∷ trace

  abbrev Reconciled : Snapshot → List ℕ → Snapshot → List Effect → Type 0
  Reconciled before roots s t = IsSettled before s × (frozen_roots t ≡ roots)

  abbrev FrozenRoots : List ℕ → EpochError → List Effect → Type 0
  FrozenRoots roots x t = frozen_roots t ≡ roots

  pub read_expected-Holds :
      (trace : List Effect)
      → Holds (WasRead trace) (OnlyRead trace) (read_expected_registry world self trace)
  unfolding read_expected_registry ask return
  read_expected-Holds trace =
      let P = WasRead trace in
      let F = OnlyRead trace in
      bind-Holds P F _ _ _ (
        throw-Holds _ _ _ _ _
          (λ s e.
            require-Holds P F _ _ _ _
              (λ h1.
                require-Holds P F _ _ _ _
                  (λ h2.
                    require-Holds P F _ _ _ _
                      (λ h3.
                        require-Holds P F _ _ _ _
                          (λ h4. (
                            e,
                            record {
                              address = (text_eq_iff _ _).0 h1;
                              registry_id = (text_eq_iff _ _).0 h2;
                              issuer_id = (text_eq_iff _ _).0 h3;
                              credential_epoch = (==_iff _ _).0 h4;
                            },
                            refl,
                          ))
                          refl)
                      refl)
                  refl)
              refl)
          refl)

  reconciled-Holds :
      (before after : Snapshot) (trace : List Effect)
      → IsExpected self after
      → after.registry.frozen ≡ true
      → Holds
          (λ s t. IsSettled before s × (t ≡ trace))
          (λ x t. t ≡ trace)
          (reconciled world self before after trace)
  unfolding reconciled return
  reconciled-Holds before after trace expected is_frozen =
      let P : Snapshot → List Effect → Type 0 = λ s t. IsSettled before s × (t ≡ trace) in
      let F : EpochError → List Effect → Type 0 = λ x t. t ≡ trace in
      require-Holds P F _ _ _ _
        (λ h1.
          require-Holds P F _ _ _ _
            (λ h2.
              require-Holds P F _ _ _ _
                (λ h3. (
                  record {
                    expected = expected;
                    is_frozen = is_frozen;
                    frozen_root = (==_iff _ _).0 h1;
                    current_root = (==_iff _ _).0 h2;
                    credential_count = (==_iff _ _).0 h3;
                  },
                  refl,
                ))
                refl)
            refl)
        refl

  -- The loop freezes nothing, and what it returns is the frozen registry.
  reconcile-Holds :
      (left : ℕ) (before : Snapshot) (roots : List ℕ) (trace : List Effect)
      → frozen_roots trace ≡ roots
      → Holds
          (Reconciled before roots)
          (FrozenRoots roots)
          (reconcile_frozen world self left before trace)
  unfolding reconcile_frozen frozen_roots sleep
  reconcile-Holds zero before roots trace same = same
  reconcile-Holds (suc left) before roots trace same =
      let P = Reconciled before roots in
      let F = FrozenRoots roots in
      let delay = self.reconciliation_delay_ms in
      let pause = sleep world delay in
      let rest = reconcile_frozen world self left before in
      call-Holds P F (WasRead trace) (OnlyRead trace) _ _ _ (read_expected-Holds trace)
        (λ after t (e, expected, eq).
          let here : frozen_roots t ≡ roots = ap frozen_roots eq ∙ same in
          if-Holds P F _ _ _ _
            (λ h.
              weaken _ P _ F _ (λ s u (settled, k). (settled, ap frozen_roots k ∙ here))
                (λ x u k. ap frozen_roots k ∙ here) (reconciled-Holds before after t expected h))
            (λ h.
              if-Holds P F (leb 1 left) (pause >> rest) rest t
                (λ more.
                  then-Holds P F pause rest t
                    (reconcile-Holds left before roots (slept delay ∷ t) here))
                (λ last. reconcile-Holds left before roots t here)))
        (λ x t eq. ap frozen_roots eq ∙ same)

  -- What a freeze through this coordinator returns.
  pub record IsFreeze (before after : Snapshot) (receipt : CanonicalReceipt) : Type 0 where
    pub is_open : IsOpen before
    pub is_settled : IsSettled before after
    pub is_receipt : is_freeze_receipt receipt self.registry_contract_address ≡ true

  module _ (lower : Text → Text) (hash : Bytes → Bytes → Bytes) where
    abbrev pub IsReference : FreezeResult → Type 0
    IsReference r =
        create_frozen_reference lower hash self.registry_contract_address r.after.registry
        ≡ some r.reference

    abbrev pub FreezeOf : Snapshot → FreezeResult → Type 0
    FreezeOf before r =
        (r.before ≡ before)
        × ((receipt : CanonicalReceipt) × (r.receipt ≡ some receipt)
            × IsFreeze before r.after receipt)
        × IsReference r

    abbrev Closed : Snapshot → List Effect → FreezeResult → List Effect → Type 0
    Closed before trace r t =
        (r.outcome ≡ frozen)
        × (frozen_roots t ≡ before.registry.current_root ∷ frozen_roots trace)
        × FreezeOf before r

    abbrev AtMostOne : Snapshot → List Effect → EpochError → List Effect → Type 0
    AtMostOne before trace x t =
        (frozen_roots t ≡ frozen_roots trace)
        ⊎ ((frozen_roots t ≡ before.registry.current_root ∷ frozen_roots trace) × IsOpen before)

    close_open-Holds :
        (before : Snapshot) (trace : List Effect)
        → IsExpected self before
        → before.registry.frozen ≡ false
        → Holds
            (Closed before trace)
            (AtMostOne before trace)
            (close_open world self lower hash before trace)
    unfolding close_open join freeze return frozen_roots
    close_open-Holds before trace expected not_frozen =
        let P = Closed before trace in
        let F = AtMostOne before trace in
        let roots = before.registry.current_root ∷ frozen_roots trace in
        require-Holds P F _ _ _ _
          (λ h.
            let is_open : IsOpen before = record {
              expected = expected;
              not_frozen = not_frozen;
              not_empty = ground (arith, h);
            } in
            then-Holds P F _ _ _ (
              check-Holds _ F _ _ _
                (λ joined. bind-Holds P F _ _ _ (
                  throw-Holds _ F _ _ _
                    (λ receipt answered.
                      require-Holds P F _ _ _ _
                        (λ is_receipt.
                          call-Holds P F (Reconciled before roots) (FrozenRoots roots) _ _ _
                            (reconcile-Holds self.reconciliation_attempts before roots _ refl)
                            (λ after t (settled, same).
                              or_throw-Holds P F _ _ _ _
                                (λ reference made. (
                                  refl,
                                  same,
                                  (
                                    refl,
                                    (
                                      receipt,
                                      refl,
                                      record {
                                        is_open = is_open;
                                        is_settled = settled;
                                        is_receipt = is_receipt;
                                      },
                                    ),
                                    made,
                                  ),
                                ))
                                (inr (same, is_open)))
                            (λ x t same. inr (same, is_open)))
                        (inr (refl, is_open)))
                    (inr (refl, is_open))))
                (inl refl)))
          (inl refl)

    -- What `closeAndFreeze` returns: the result of a freeze of the registry that it read, or the
    -- registry as it was frozen before.
    pub data IsCertified (trace : List Effect) (r : FreezeResult) (t : List Effect) : Type 0 where
      closed :
          (before : Snapshot)
          → world.read_registry trace ≡ some before
          → r.outcome ≡ frozen
          → frozen_roots t ≡ before.registry.current_root ∷ frozen_roots trace
          → FreezeOf before r
          → IsCertified trace r t
      closed_before :
          (before : Snapshot)
          → world.read_registry trace ≡ some before
          → r.outcome ≡ already_frozen
          → frozen_roots t ≡ frozen_roots trace
          → r.after ≡ before
          → IsSettled before before
          → IsReference r
          → IsCertified trace r t

    -- What has happened where it throws: no freeze, or the one of the open registry that it read.
    pub data IsAbandoned (trace t : List Effect) : Type 0 where
      untouched : frozen_roots t ≡ frozen_roots trace → IsAbandoned trace t
      after_freeze :
          (before : Snapshot)
          → world.read_registry trace ≡ some before
          → IsOpen before
          → frozen_roots t ≡ before.registry.current_root ∷ frozen_roots trace
          → IsAbandoned trace t

    abandoned :
        (before : Snapshot) (trace t u : List Effect) (x : EpochError)
        → world.read_registry trace ≡ some before
        → frozen_roots t ≡ frozen_roots trace
        → AtMostOne before t x u
        → IsAbandoned trace u
    abandoned before trace t u x e eq (inl same) = untouched (same ∙ eq)
    abandoned before trace t u x e eq (inr (same, is_open)) =
        after_freeze before e is_open (same ∙ ap (λ l. before.registry.current_root ∷ l) eq)

    -- Whatever the indexer and the contract answer, `closeAndFreeze` freezes at most once, and only
    -- the current root of the registry that its first reading returned, which is the configured one,
    -- not frozen and not empty. Where it returns, that registry is frozen at that root with the same
    -- number of credentials, by this call with its receipt or before it, and the reference is
    -- the one of that frozen registry.
    pub close_and_freeze_lem :
        (trace : List Effect)
        → Holds
            (IsCertified trace)
            (λ x t. IsAbandoned trace t)
            (close_and_freeze world self lower hash trace)
    unfolding close_and_freeze return frozen_roots
    close_and_freeze_lem trace =
        let P = IsCertified trace in
        let F : EpochError → List Effect → Type 0 = λ x t. IsAbandoned trace t in
        call-Holds P F (WasRead trace) (OnlyRead trace) _ _ _ (read_expected-Holds trace)
          (λ before t (e, expected, eq).
            if-Holds P F _ _ _ _
              (λ h.
                require-Holds P F _ _ _ _
                  (λ current.
                    or_throw-Holds P F _ _ _ _
                      (λ reference made.
                        closed_before before e refl (ap frozen_roots eq) refl
                          (record {
                            expected = expected;
                            is_frozen = h;
                            frozen_root = (==_iff _ _).0 current;
                            current_root = refl;
                            credential_count = refl;
                          })
                          made)
                      (untouched (ap frozen_roots eq)))
                  (untouched (ap frozen_roots eq)))
              (λ h.
                weaken _ P _ F _
                  (λ r u (outcome, same, made).
                    closed before e outcome
                      (same ∙ ap (λ l. before.registry.current_root ∷ frozen_roots l) eq) made)
                  (λ x u k. abandoned before trace t u x e (ap frozen_roots eq) k)
                  (close_open-Holds before t expected h)))
          (λ x t eq. untouched (ap frozen_roots eq))
