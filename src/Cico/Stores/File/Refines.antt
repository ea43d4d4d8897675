-- ===== src/Cico/Stores/File/Refines.antt =====
-- The file store of cico-service/src/durable-stores.ts against a state in memory that a call changes at
-- once.
use midnight_referendum_app.Base.{◌≡◌, refl, some, List, [], ◌∷◌}
use midnight_referendum_app.Cico.Stores.File.{
  File, missing, content, StoreError, io_failed, Outcome, returned, threw, Io, completes, blocked,
  unwritten, unsynced, Codec, IsCodec, Mutator, load, update, run, written, write_atomic,
}

-- The specification: a call changes the state and returns, or throws as its change says, or fails
-- for the file system, with its change made or not.
pub data Acts {S R : Type 0} (mutate : Mutator S R) (s : S) : Outcome R → S → Type 0 where
  changes : (r : R) (t : S) → mutate s ≡ returned (r, t) → Acts mutate s (returned r) t
  refuses : (e : StoreError) → mutate s ≡ threw e → Acts mutate s (threw e) s
  loses : Acts mutate s (threw io_failed) s
  unconfirmed : (r : R) (t : S) → mutate s ≡ returned (r, t) → Acts mutate s (threw io_failed) t

pub data ActsAll {S R : Type 0} : List (Io × Mutator S R) → S → List (Outcome R) → S → Type 0 where
  stops : {s : S} → ActsAll [] s [] s
  steps :
      {s t u : S} (io : Io) (mutate : Mutator S R) (calls : List (Io × Mutator S R))
      (result : Outcome R) (results : List (Outcome R))
      → Acts mutate s result t
      → ActsAll calls t results u
      → ActsAll ((io, mutate) ∷ calls) s (result ∷ results) u

-- A change keeps the states valid.
abbrev pub Keeps : {S R : Type 0} → (S → Type 0) → Mutator S R → Type 0
Keeps {S} {R} IsValid mutate =
    (s : S) (r : R) (t : S) → IsValid s → mutate s ≡ returned (r, t) → IsValid t

module _ {S : Type 0} (c : Codec S) (IsValid : S → Type 0) (laws : IsCodec c IsValid) where
  -- The file holds this state.
  pub record Stores (file : File) (s : S) : Type 0 where
    pub loads : load c file ≡ some s
    pub is_valid : IsValid s

  -- What a call of the file store does to the specification's state.
  abbrev pub Simulates : {R : Type 0} → Mutator S R → S → Outcome R × File → Type 0
  Simulates mutate s (result, file) = (t : S) × Acts mutate s result t × Stores file t

  render-Stores : (s : S) → IsValid s → Stores (content (c.render s)) s
  unfolding load
  render-Stores s h = record { loads = laws.again s h; is_valid = h }

  written-Simulates :
      {R : Type 0} (io : Io) (mutate : Mutator S R) (file : File) (s : S) (o : Outcome (R × S))
      → mutate s ≡ o
      → Keeps IsValid mutate
      → Stores file s
      → Simulates mutate s (written c io o file)
  unfolding write_atomic
  written-Simulates io mutate file s (threw e) eq keeps h = (s, refuses e eq, h)
  written-Simulates completes mutate file s (returned (r, t)) eq keeps h =
      (t, changes r t eq, render-Stores t (keeps s r t h.is_valid eq))
  written-Simulates unsynced mutate file s (returned (r, t)) eq keeps h =
      (t, unconfirmed r t eq, render-Stores t (keeps s r t h.is_valid eq))
  written-Simulates blocked mutate file s (returned (r, t)) eq keeps h = (s, loses, h)
  written-Simulates unwritten mutate file s (returned (r, t)) eq keeps h = (s, loses, h)

  -- Each update of a file that holds a state is a step of the specification from that state,
  -- however the calls of the file system end, and leaves a file that holds the next one.
  pub update-Simulates :
      {R : Type 0} (io : Io) (mutate : Mutator S R) (file : File) (s : S)
      → Keeps IsValid mutate
      → Stores file s
      → Simulates mutate s (update c io mutate file)
  unfolding update
  update-Simulates blocked mutate file s keeps h = (s, loses, h)
  update-Simulates completes mutate file s keeps h =
      rw h.loads (written-Simulates completes mutate file s (mutate s) refl keeps h)
  update-Simulates unwritten mutate file s keeps h =
      rw h.loads (written-Simulates unwritten mutate file s (mutate s) refl keeps h)
  update-Simulates unsynced mutate file s keeps h =
      rw h.loads (written-Simulates unsynced mutate file s (mutate s) refl keeps h)

  -- A file that holds no state yet holds the initial one.
  pub missing-Stores : Stores missing c.initial
  unfolding load
  missing-Stores = record { loads = refl; is_valid = laws.initial }

  abbrev pub AllKeep : {R : Type 0} → List (Io × Mutator S R) → Type 0
  AllKeep [] = Unit
  AllKeep ((io, mutate) ∷ calls) = Keeps IsValid mutate × AllKeep calls

  -- Calls of the file store, however each of them ends, are steps of the specification with the
  -- same results: a call that returns has made its change, one that its own check refuses has not,
  -- and one that the file system fails has made it wholly or not at all. The file always holds the
  -- state that the specification has reached.
  pub run-Refines :
      {R : Type 0} (calls : List (Io × Mutator S R)) (file : File) (s : S)
      → AllKeep calls
      → Stores file s
      → (t : S) × ActsAll calls s (run c calls file).0 t × Stores (run c calls file).1 t
  unfolding run
  run-Refines [] file s keeps h = (s, stops, h)
  run-Refines ((io, mutate) ∷ calls) file s (keep, keeps) h =
      let (t, acts, h') = update-Simulates io mutate file s keep h in
      let (u, rest, h'') = run-Refines calls (update c io mutate file).1 t keeps h' in
      (u, steps io mutate calls _ _ acts rest, h'')
