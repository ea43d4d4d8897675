-- ===== src/Cico/Publisher/Rounds.antt =====
-- Whole cycles of cico-service/src/credential-root-publisher.ts: what one does, and that a root is
-- not sent again.
use midnight_referendum_app.Base.{
  ℕ, ◌-◌, ◌<◌, ◌≡◌, refl, sym, ap, ◌∙◌, subst, Bool, true, false, Option, none, some, ◌∷◌, leb,
  ==_iff, arith, if◌then◌else◌,
}
use midnight_referendum_app.Cico.Program.{
  Ran, done, failed, ◌>>=◌, return, Holds, if-Holds, call-Holds, before-Holds, weaken,
}
use midnight_referendum_app.Cico.Registry.{RegistryState}
use midnight_referendum_app.Cico.Publisher.{
  Publisher, registry_read, clock_read, World, PublisherOptions, PublishError, PublishResult,
  Publication, skipped, publication, unchanged, read_registry, now, observe, start_waiting,
  with_registry, run_cycle, publish_once, is_root, note, recorded, is_empty, answered, unavailable,
}
use midnight_referendum_app.Cico.Publisher.Effects.{
  Follows, begins, quiet, of_registry_read, of_clock_read, choose-Holds,
}
use midnight_referendum_app.Cico.Publisher.Laws.{Ended, decide-Ended}

split-Holds :
    {S X A : Type 0} (P : A → S → Type 0) (F : X → S → Type 0) (b : Bool) (r k : Ran S X A)
    → (b ≡ true → Holds P F r)
    → (b ≡ false → Holds P F k)
    → Holds P F (if b then r else k)
split-Holds P F true r k h j = h refl
split-Holds P F false r k h j = j refl

module _ (world : World) (options : PublisherOptions) (start : Publisher) where
  abbrev Idle : PublishError → Publisher → Type 0
  Idle x t = Follows start.trace none t.trace

  -- How a cycle from this state ends.
  abbrev pub Cycled : PublishResult → Publisher → Type 0
  Cycled (skipped reason n) t = Follows start.trace none t.trace
  Cycled (publication p) t =
      (registry : RegistryState) × (world.read_registry start.trace ≡ some registry)
      × (is_root start.last_published_root_field registry.current_root ≡ false)
      × (start.last_published_credential_count < registry.credential_count)
      × Ended world options start.trace registry
          (registry.credential_count - start.last_published_credential_count) (publication p) t

  -- A state on the way from the start to the decision.
  abbrev Waiting : {A : Type 0} → A → Publisher → Type 0
  Waiting a t =
      Follows start.trace none t.trace
      × (t.last_published_credential_count ≡ start.last_published_credential_count)

  start_waiting-Waiting :
      (root : ℕ) (s : Publisher)
      → Waiting root s
      → Holds Waiting (λ x t. ⊥) (start_waiting world options root s)
  unfolding start_waiting now ◌>>=◌
  start_waiting-Waiting root s (h, k) =
      choose-Holds Waiting (λ x t. ⊥) (is_root s.pending_root_field root) _ _ (h, k)
        (quiet none clock_read s.trace of_clock_read h, k)

  Ended-Cycled :
      (registry : RegistryState) (n : ℕ)
      → world.read_registry start.trace ≡ some registry
      → is_root start.last_published_root_field registry.current_root ≡ false
      → n ≡ registry.credential_count - start.last_published_credential_count
      → start.last_published_credential_count < registry.credential_count
      → (r : PublishResult) (t : Publisher) → Ended world options start.trace registry n r t
      → Cycled r t
  Ended-Cycled registry n e fresh eq more (skipped reason k) t h = h
  Ended-Cycled registry n e fresh eq more (publication p) t h = (
    registry,
    e,
    fresh,
    more,
    subst (λ m. Ended world options start.trace registry m (publication p) t) eq h,
  )

  observe-Cycled :
      (registry : RegistryState) (s : Publisher)
      → world.read_registry start.trace ≡ some registry
      → is_root start.last_published_root_field registry.current_root ≡ false
      → Waiting registry s
      → Holds Cycled (λ x t. ⊥) (observe world options registry s)
  unfolding observe
  observe-Cycled registry s e fresh (h, k) =
      let n = registry.credential_count - s.last_published_credential_count in
      split-Holds Cycled (λ x t. ⊥)
        (leb registry.credential_count s.last_published_credential_count) _ _ (λ _. h)
        (λ more.
          weaken (Ended world options start.trace registry n) Cycled (λ x t. ⊥) (λ x t. ⊥) _
            (Ended-Cycled registry n e fresh (omega (arith, k)) (ground (arith, more, k)))
            (λ x t b. b) (decide-Ended world options start.trace registry n _ h))

  with_registry-Cycled :
      (registry : RegistryState) (s : Publisher)
      → world.read_registry start.trace ≡ some registry
      → s ≡ note registry_read start
      → Holds Cycled Idle (with_registry world options registry s)
  unfolding with_registry
  with_registry-Cycled registry s e same =
      let h : Follows start.trace none s.trace =
        subst (λ u. Follows start.trace none u.trace) (sym same)
          (quiet none registry_read start.trace of_registry_read begins) in
      split-Holds Cycled Idle (is_root s.last_published_root_field registry.current_root) _ _
        (λ _. h)
        (λ fresh.
          before-Holds Cycled Idle Waiting (λ x t. ⊥) _ _ s
            (start_waiting-Waiting registry.current_root s
              (h, ap (λ u. u.last_published_credential_count) same))
            (λ a t k.
              weaken Cycled Cycled (λ x t. ⊥) Idle _ (λ r u j. j) (λ x u b. absurd b)
                (observe-Cycled registry t e
                  (subst (λ u. is_root u.last_published_root_field registry.current_root ≡ false)
                    same fresh)
                  k))
            (λ x t b. absurd b))

  read-Holds :
      (o : Option RegistryState)
      → Holds
          (λ registry s. (o ≡ some registry) × (s ≡ note registry_read start))
          Idle
          (answered o registry_read registry_read unavailable start)
  read-Holds none = quiet none registry_read start.trace of_registry_read begins
  read-Holds (some registry) = (refl, refl)

  recorded-Cycled :
      (a : PublishResult) (t : Publisher)
      → Cycled a t
      → Cycled a (record t { last_result = some a })
  recorded-Cycled (skipped reason n) t h = h
  recorded-Cycled (publication p) t h = h

  run_cycle-Cycled : Holds Cycled Idle (run_cycle world options start)
  unfolding run_cycle read_registry return
  run_cycle-Cycled =
      if-Holds Cycled Idle (is_empty options.referenda) _ _ start (λ _. begins)
        (λ _.
          call-Holds Cycled Idle
            (λ registry s.
              (world.read_registry start.trace ≡ some registry) × (s ≡ note registry_read start))
            Idle _ _ start (read-Holds (world.read_registry start.trace))
            (λ registry s (e, same). with_registry-Cycled registry s e same) (λ x t h. h))

abbrev pub after_unchanged : Publisher → Publisher
after_unchanged s = record s {
  last_observed_batch_size = some 0;
  last_result = some (skipped unchanged none);
  trace = registry_read ∷ s.trace;
}

recorded-Holds :
    (P : PublishResult → Publisher → Type 0) (F : PublishError → Publisher → Type 0)
    (r : Ran Publisher PublishError PublishResult)
    → Holds
        (λ a t. P a (record t { last_result = some a }))
        (λ x t. F x (record t { last_error = some x }))
        r
    → Holds P F (recorded r)
recorded-Holds P F (done a t) h = h
recorded-Holds P F (failed x t) h = h

-- A cycle sends a root to a referendum only after it has attested that same root, the current one of
-- the registry as this cycle read it, and attests no other. One that skips or throws has neither
-- attested nor published. One that publishes had a root that is not the last published one and a
-- batch that is not empty; it flags the batch where it is below the minimum, and records the root
-- and the count.
pub publish_once_lem :
    (world : World) (options : PublisherOptions) (start : Publisher)
    → Holds
        (Cycled world options start)
        (λ x t. Follows start.trace none t.trace)
        (publish_once world options start)
unfolding publish_once
publish_once_lem world options start =
    recorded-Holds (Cycled world options start) _ (run_cycle world options start) (
      weaken (Cycled world options start) _ _ _ (run_cycle world options start)
        (recorded-Cycled world options start) (λ x t h. h) (run_cycle-Cycled world options start))

publish_once-unchanged :
    (world : World) (options : PublisherOptions) (s : Publisher) (registry : RegistryState)
    → is_empty options.referenda ≡ false
    → s.last_published_root_field ≡ some registry.current_root
    → world.read_registry s.trace ≡ some registry
    → publish_once world options s ≡ done (skipped unchanged none) (after_unchanged s)
unfolding publish_once run_cycle read_registry with_registry ◌>>=◌
publish_once-unchanged world options s registry some_referenda same e =
    simp (some_referenda, e, same, (==_iff registry.current_root registry.current_root).1 refl)

-- Where there are referenda and a cycle has published, whatever they answered, the next cycle stops
-- after its reading if that shows the same root: it sends nothing, also not to a referendum that
-- refused the root.
pub publish_once_twice :
    (world : World) (options : PublisherOptions) (s t : Publisher) (p : Publication)
    (registry : RegistryState)
    → is_empty options.referenda ≡ false
    → publish_once world options s ≡ done (publication p) t
    → world.read_registry t.trace ≡ some registry
    → registry.current_root ≡ p.root_field
    → publish_once world options t ≡ done (skipped unchanged none) (after_unchanged t)
publish_once_twice world options s t p registry some_referenda e read same =
    let (first, _, _, _, (_, root, _, _, last, _)) =
      subst (Holds (Cycled world options s) (λ x t. Follows s.trace none t.trace)) e
        (publish_once_lem world options s) in
    publish_once-unchanged world options t registry some_referenda
      (last ∙ ap some (sym root ∙ sym same)) read
