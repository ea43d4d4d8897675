-- ===== src/Cico/Publisher/Batch.antt =====
-- The batch rule of cico-service/src/credential-root-publisher.ts, which protects the voters' anonymity.
use midnight_referendum_app.Base.{
  ℕ, ◌+◌, ◌/◌, ◌<◌, ◌≤◌, ◌≡◌, ◌⊎◌, inl, inr, refl, ap, Bool, true, false, Option, none, some, List,
  [], ◌∷◌, leb, arith, Bool-cases, if◌then◌else◌,
}
use midnight_referendum_app.Base.Text.{Text}
use midnight_referendum_app.Cico.Program.{done, ◌>>=◌, return}
use midnight_referendum_app.Cico.Registry.{RegistryState}
use midnight_referendum_app.Cico.Publisher.{
  Publisher, Effect, World, PublisherOptions, ReferendumState, skipped, below_minimum_batch,
  closes_soon, any_imminent, is_enrollment_deadline_imminent, now, waiting_since, or_now, decide,
  publish, note, clock_read, referendum_read,
}

module _ (world : World) (options : PublisherOptions) where
  -- The longest wait in seconds, rounded up.
  abbrev pub threshold : ℕ
  threshold = (options.max_wait_ms + 999) / 1000

  -- A referendum that cannot be read, has closed its enrolment, or closes it later than the longest
  -- wait from now; and one that is open and closes it by then.
  abbrev pub IsFar : ℕ → Option ReferendumState → Type 0
  IsFar seconds none = Unit
  IsFar seconds (some state) =
      (state.enrollment_closed ≡ true) ⊎ (seconds + threshold < state.enrollment_closes_at_unix)

  abbrev pub IsNear : ℕ → Option ReferendumState → Type 0
  IsNear seconds none = ⊥
  IsNear seconds (some state) =
      (state.enrollment_closed ≡ false) × (state.enrollment_closes_at_unix ≤ seconds + threshold)

  -- The configured referenda as they are read one after the other.
  abbrev pub AllFar : ℕ → List Text → List Effect → Type 0
  AllFar seconds [] trace = Unit
  AllFar seconds (address ∷ rest) trace =
      IsFar seconds (world.read_referendum address trace)
      × AllFar seconds rest (referendum_read address ∷ trace)

  abbrev pub SomeNear : ℕ → List Text → List Effect → Type 0
  SomeNear seconds [] trace = ⊥
  SomeNear seconds (address ∷ rest) trace =
      IsNear seconds (world.read_referendum address trace)
      ⊎ SomeNear seconds rest (referendum_read address ∷ trace)

  closes_soon-IsFar :
      (seconds : ℕ) (o : Option ReferendumState)
      → IsFar seconds o
      → closes_soon world options seconds o ≡ false
  closes_soon-IsFar seconds none h = refl
  closes_soon-IsFar seconds (some state) h = ground (arith, h)

  closes_soon-IsNear :
      (seconds : ℕ) (o : Option ReferendumState)
      → IsNear seconds o
      → closes_soon world options seconds o ≡ true
  closes_soon-IsNear seconds none h = absurd h
  closes_soon-IsNear seconds (some state) h = ground (arith, h)

  -- A state that differs from another one in what was read and when.
  abbrev pub IsAfter : Publisher → Publisher → Type 0
  IsAfter s t = t ≡ record s { trace = t.trace }

  any_imminent-AllFar :
      (seconds : ℕ) (l : List Text) (s : Publisher)
      → AllFar seconds l s.trace
      → (t : Publisher) × (any_imminent world options seconds l s ≡ done false t) × IsAfter s t
  unfolding any_imminent
  any_imminent-AllFar seconds [] s h = (s, refl, refl)
  any_imminent-AllFar seconds (address ∷ rest) s (far, h) =
      let no = closes_soon-IsFar seconds (world.read_referendum address s.trace) far in
      let (t, e, after) = any_imminent-AllFar seconds rest (note (referendum_read address) s) h in
      (t, simp no e, after)

  any_imminent-SomeNear :
      (seconds : ℕ) (l : List Text) (s : Publisher)
      → SomeNear seconds l s.trace
      → (t : Publisher) × (any_imminent world options seconds l s ≡ done true t) × IsAfter s t
  unfolding any_imminent
  any_imminent-SomeNear seconds [] s h = absurd h
  any_imminent-SomeNear seconds (address ∷ rest) s (inl near) =
      let yes = closes_soon-IsNear seconds (world.read_referendum address s.trace) near in
      (note (referendum_read address) s, simp yes refl, refl)
  any_imminent-SomeNear seconds (address ∷ rest) s (inr h) =
      let (t, e, after) = any_imminent-SomeNear seconds rest (note (referendum_read address) s) h in
      elim (Bool-cases
        (closes_soon world options seconds (world.read_referendum address s.trace))) [
          | inl hit ↦ (note (referendum_read address) s, simp hit refl, refl)
          | inr missed ↦ (t, simp missed e, after)
        ]

  module _ (registry : RegistryState) (n since : ℕ) (s : Publisher)
      (small : n < options.min_batch_size) (waiting : s.pending_since_ms ≡ some since) where
    -- The seconds that the test of the deadlines reads, and the effects before its first referendum.
    abbrev pub present : ℕ
    present = world.now (clock_read ∷ s.trace) / 1000

    abbrev pub clocks_read : List Effect
    clocks_read = clock_read ∷ clock_read ∷ s.trace

    -- What the answer of the test makes of a batch that has not waited long enough.
    abbrev AnsweredBy : Bool → Publisher → Type 0
    AnsweredBy imminent t = decide world options registry n s ≡ (
        if imminent
        then publish world options registry n true t
        else done (skipped below_minimum_batch (some n)) t)

    waiting_since-since :
        waiting_since world options (note clock_read s) ≡ done since (note clock_read s)
    unfolding waiting_since return
    waiting_since-since = ap (λ o. or_now world options o (note clock_read s)) waiting

    imminent_lem :
        (imminent : Bool) (t : Publisher)
        → any_imminent world options present options.referenda (note clock_read (note clock_read s))
          ≡ done imminent t
        → is_enrollment_deadline_imminent world options (note clock_read s) ≡ done imminent t
    unfolding is_enrollment_deadline_imminent now ◌>>=◌
    imminent_lem imminent t e = e

    decide-early :
        (imminent : Bool) (t : Publisher)
        → world.now s.trace < since + options.max_wait_ms
        → is_enrollment_deadline_imminent world options (note clock_read s) ≡ done imminent t
        → AnsweredBy imminent t
    unfolding decide now return ◌>>=◌
    decide-early imminent t early e =
        let below : leb options.min_batch_size n ≡ false = ground (arith, small) in
        let soon : leb (since + options.max_wait_ms) (world.now s.trace) ≡ false =
          ground (arith, early) in
        elim (Bool-cases imminent) [
          | inl yes_it_is ↦ simp (waiting_since-since, below, soon, e, yes_it_is) refl
          | inr no_it_is ↦ simp (waiting_since-since, below, soon, e, no_it_is) refl
        ]

    decide-due :
        since + options.max_wait_ms ≤ world.now s.trace
        → decide world options registry n s
          ≡ publish world options registry n true (note clock_read s)
    unfolding decide now ◌>>=◌
    decide-due due =
        let below : leb options.min_batch_size n ≡ false = ground (arith, small) in
        let waited : leb (since + options.max_wait_ms) (world.now s.trace) ≡ true =
          ground (arith, due) in
        simp (waiting_since-since, below, waited) refl

    -- A batch below the minimum is withheld, and its size reported, where the root has waited for
    -- less than the longest wait and each configured referendum, as it is read at the present second,
    -- cannot be read, has closed its enrolment, or closes it later than the longest wait from then.
    -- Nothing of the state changes but the trace.
    pub decide_withholds :
        world.now s.trace < since + options.max_wait_ms
        → AllFar present options.referenda clocks_read
        → (t : Publisher) × (decide world options registry n s
            ≡ done (skipped below_minimum_batch (some n)) t)
          × IsAfter s t
    decide_withholds early far =
        let (t, e, after) =
          any_imminent-AllFar present options.referenda (note clock_read (note clock_read s)) far in
        (t, decide-early false t early (imminent_lem false t e), after)

    -- A batch below the minimum goes on to publication all the same, marked as below it, where the
    -- root has waited for the longest wait or a configured referendum, as it is read at the present
    -- second, is open and closes its enrolment within the longest wait from then. Until then nothing
    -- of the state changes but the trace.
    pub decide_publishes :
        (since + options.max_wait_ms ≤ world.now s.trace)
          ⊎ SomeNear present options.referenda clocks_read
        → (t : Publisher) × (decide world options registry n s
            ≡ publish world options registry n true t)
          × IsAfter s t
    decide_publishes (inl due) = (note clock_read s, decide-due due, refl)
    decide_publishes (inr near) =
        let (t, e, after) =
          any_imminent-SomeNear present options.referenda (note clock_read (note clock_read s))
            near in
        elim (Bool-cases (leb (since + options.max_wait_ms) (world.now s.trace))) [
          | inl due ↦ (note clock_read s, decide-due (ground (arith, due)), refl)
          | inr early ↦
              (t, decide-early true t (ground (arith, early)) (imminent_lem true t e), after)
        ]
