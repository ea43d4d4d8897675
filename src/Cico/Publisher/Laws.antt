-- ===== src/Cico/Publisher/Laws.antt =====
-- What one cycle of cico-service/src/credential-root-publisher.ts does, whatever the ledgers, the
-- executors and the clock answer.
use midnight_referendum_app.Base.{
  ℕ, ◌+◌, ◌≡◌, refl, Bool, true, false, not, ◌||◌, Option, none, some, List, [], ◌∷◌, leb,
}
use midnight_referendum_app.Base.Text.{Text, includes}
use midnight_referendum_app.Cico.Program.{
  ◌>>=◌, ◌>>◌, return, Holds, if-Holds, call-Holds, before-Holds,
}
use midnight_referendum_app.Cico.Registry.{RegistryState}
use midnight_referendum_app.Cico.Publisher.{
  Publisher, Effect, clock_read, registry_joined, attestation_refused, referendum_read,
  referendum_joined, World, PublisherOptions, PublishError, PublishResult, skipped, publication,
  PublisherOptions, accepted, now, any_imminent, is_enrollment_deadline_imminent, join_registry,
  attest_root, attest, join_referendum, publish_root, publish_to_referendum, publish_all,
  publish_attested, after_attestation, or_now, publish, waiting_since, decide, closes_soon, note,
}
use midnight_referendum_app.Cico.Publisher.Effects.{
  IsQuiet, of_clock_read, of_registry_joined, of_attestation_refused, of_referendum_read,
  of_referendum_joined, Follows, quiet, attests, publishes, refused, choose-Holds, answered-Holds,
  caught-Holds,
}

module _ (world : World) (options : PublisherOptions) (start : List Effect) where
  -- The state's trace continues that of the start, with this attestation.
  abbrev At : {A : Type 0} → Option ℕ → A → Publisher → Type 0
  At attestation a s = Follows start attestation s.trace

  accepted-At :
      (attestation : Option ℕ) (b : Bool) (e : Effect) (x : PublishError) (s : Publisher)
      → IsQuiet e
      → Follows start attestation s.trace
      → Holds (At attestation) (At attestation) (accepted b e x s)
  accepted-At attestation true e x s q h = quiet attestation e s.trace q h
  accepted-At attestation false e x s q h = quiet attestation e s.trace q h

  imminent-At :
      (n : ℕ) (l : List Text) (s : Publisher)
      → Follows start none s.trace
      → Holds (At none) (λ x t. ⊥) (any_imminent world options n l s)
  unfolding any_imminent
  imminent-At n [] s h = h
  imminent-At n (a ∷ l) s h =
      let h' = quiet none (referendum_read a) s.trace (of_referendum_read a) h in
      choose-Holds (At none) (λ x t. ⊥)
        (closes_soon world options n (world.read_referendum a s.trace)) _ _ h'
        (imminent-At n l (note (referendum_read a) s) h')

  join_registry-At :
      (s : Publisher)
      → Follows start none s.trace
      → Holds (At none) (At none) (join_registry world options s)
  unfolding join_registry
  join_registry-At s h = choose-Holds (At none) (At none) s.registry_joined _ _ h (
      call-Holds (At none) (At none) (At none) (At none) _ _ _
        (accepted-At none (world.join_registry s.trace) registry_joined _ s of_registry_joined h)
        (λ a t k. k) (λ x t k. k))

  attest-At :
      (root : ℕ) (s : Publisher)
      → Follows start none s.trace
      → Holds (At (some root)) (At none) (attest world options root s)
  unfolding attest attest_root
  attest-At root s h =
      before-Holds (At (some root)) (At none) (At none) (At none) _ _ _ (join_registry-At s h)
        (λ a t k.
          answered-Holds (At (some root)) (At none) _ _ _ _ t (λ tx e. attests root t.trace k)
            (quiet none attestation_refused t.trace of_attestation_refused k))
        (λ x t k. k)

  join_referendum-At :
      (root : ℕ) (a : Text) (s : Publisher)
      → Follows start (some root) s.trace
      → Holds (At (some root)) (At (some root)) (join_referendum world options a s)
  unfolding join_referendum
  join_referendum-At root a s h =
      choose-Holds (At (some root)) (At (some root)) (includes s.joined_referenda a) _ _ h (
        call-Holds (At (some root)) (At (some root)) (At (some root)) (At (some root)) _ _ _
          (accepted-At (some root) (world.join_referendum a s.trace) (referendum_joined a) _ s
            (of_referendum_joined a) h)
          (λ b t k. k) (λ x t k. k))

  publish_to-At :
      (root : ℕ) (a : Text) (s : Publisher)
      → Follows start (some root) s.trace
      → Holds (At (some root)) (At (some root)) (publish_to_referendum world options a root s)
  unfolding publish_to_referendum publish_root
  publish_to-At root a s h =
      before-Holds (At (some root)) (At (some root)) (At (some root)) (At (some root)) _ _ _
        (join_referendum-At root a s h)
        (λ b t k.
          answered-Holds (At (some root)) (At (some root)) _ _ _ _ t
            (λ tx e. publishes root a t.trace k) (refused root a t.trace k))
        (λ x t k. k)

  -- The loop does not throw.
  publish_all-At :
      (root : ℕ) (l : List Text) (s : Publisher)
      → Follows start (some root) s.trace
      → Holds (At (some root)) (λ x t. ⊥) (publish_all world options root l s)
  unfolding publish_all return
  publish_all-At root [] s h = h
  publish_all-At root (a ∷ l) s h =
      call-Holds (At (some root)) (λ x t. ⊥) (At (some root)) (λ x t. ⊥) _ _ _
        (caught-Holds (At (some root)) (λ x t. ⊥) _ s (publish_to-At root a s h))
        (λ o t k.
          call-Holds (At (some root)) (λ x t. ⊥) (At (some root)) (λ x t. ⊥) _ _ _
            (publish_all-At root l t k) (λ os u j. j) (λ x u j. j))
        (λ x t k. k)

  -- A cycle that skips has neither attested nor published a root. One that publishes has attested the
  -- registry's current root first and sent that root alone; its batch has this size, it is flagged
  -- where it is below the minimum, and the root and the count are recorded.
  abbrev pub Ended : RegistryState → ℕ → PublishResult → Publisher → Type 0
  Ended registry n (skipped reason k) t = Follows start none t.trace
  Ended registry n (publication p) t =
      Follows start (some registry.current_root) t.trace
      × (p.root_field ≡ registry.current_root)
      × (p.batch_size ≡ n)
      × (p.below_minimum ≡ not (leb options.min_batch_size n))
      × (t.last_published_root_field ≡ some registry.current_root)
      × (t.last_published_credential_count ≡ registry.credential_count)

  publish_attested-Ended :
      (registry : RegistryState) (n : ℕ) (tx : Text) (s : Publisher)
      → Follows start (some registry.current_root) s.trace
      → Holds
          (Ended registry n)
          (λ x t. ⊥)
          (publish_attested world options registry n (not (leb options.min_batch_size n)) tx s)
  unfolding publish_attested now return ◌>>=◌ ◌>>◌
  publish_attested-Ended registry n tx s h =
      call-Holds (Ended registry n) (λ x t. ⊥) (At (some registry.current_root)) (λ x t. ⊥)
        (publish_all world options registry.current_root options.referenda) _ s
        (publish_all-At registry.current_root options.referenda s h)
        (λ os t k. (
          quiet (some registry.current_root) clock_read t.trace of_clock_read k,
          refl,
          refl,
          refl,
          refl,
          refl,
        ))
        (λ x t k. k)

  abbrev Attempted : ℕ → Option Text → Publisher → Type 0
  Attempted root none t = Follows start none t.trace
  Attempted root (some tx) t = Follows start (some root) t.trace

  after_attestation-Ended :
      (registry : RegistryState) (n : ℕ) (o : Option Text) (t : Publisher)
      → Attempted registry.current_root o t
      → Holds
          (Ended registry n)
          (λ x t. ⊥)
          (after_attestation world options registry n (not (leb options.min_batch_size n)) o t)
  unfolding return
  after_attestation-Ended registry n none t k = k
  after_attestation-Ended registry n (some tx) t k = publish_attested-Ended registry n tx t k

  publish_caught-Ended :
      (registry : RegistryState) (n : ℕ) (s : Publisher)
      → Follows start none s.trace
      → Holds
          (Ended registry n)
          (λ x t. ⊥)
          (publish world options registry n (not (leb options.min_batch_size n)) s)
  unfolding publish return
  publish_caught-Ended registry n s h =
      call-Holds (Ended registry n) (λ x t. ⊥) (Attempted registry.current_root) (λ x t. ⊥) _ _ _
        (caught-Holds (Attempted registry.current_root) (λ x t. ⊥) _ s
          (attest-At registry.current_root s h))
        (after_attestation-Ended registry n) (λ x t k. k)

  now-At :
      (s : Publisher)
      → Follows start none s.trace
      → Holds (At none) (λ x t. ⊥) (now world options s)
  unfolding now
  now-At s h = quiet none clock_read s.trace of_clock_read h

  is_imminent-At :
      (s : Publisher)
      → Follows start none s.trace
      → Holds (At none) (λ x t. ⊥) (is_enrollment_deadline_imminent world options s)
  unfolding is_enrollment_deadline_imminent now ◌>>=◌
  is_imminent-At s h =
      imminent-At _ options.referenda (note clock_read s)
        (quiet none clock_read s.trace of_clock_read h)

  waiting_since-At :
      (o : Option ℕ) (s : Publisher)
      → Follows start none s.trace
      → Holds (At none) (λ x t. ⊥) (or_now world options o s)
  unfolding now return
  waiting_since-At none s h = quiet none clock_read s.trace of_clock_read h
  waiting_since-At (some since) s h = h

  pub decide-Ended :
      (registry : RegistryState) (n : ℕ) (s : Publisher)
      → Follows start none s.trace
      → Holds (Ended registry n) (λ x t. ⊥) (decide world options registry n s)
  unfolding decide waiting_since return
  decide-Ended registry n s h =
      let P = Ended registry n in
      let F : PublishError → Publisher → Type 0 = λ x t. ⊥ in
      call-Holds P F (At none) F (now world options) _ s (now-At s h)
        (λ at t k.
          call-Holds P F (At none) F _ _ t (waiting_since-At t.pending_since_ms t k)
            (λ since u j.
              if-Holds P F (leb options.min_batch_size n || leb (since + options.max_wait_ms) at) _
                _ u (λ _. publish_caught-Ended registry n u j)
                (λ _.
                  call-Holds P F (At none) F _ _ u (is_imminent-At u j)
                    (λ b v i.
                      if-Holds P F b _ _ v (λ _. publish_caught-Ended registry n v i) (λ _. i))
                    (λ x v i. i)))
            (λ x u j. j))
        (λ x t k. k)
