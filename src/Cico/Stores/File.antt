-- ===== src/Cico/Stores/File.antt =====
-- AtomicJsonStore of cico-service/src/durable-stores.ts. The lock makes each update whole; how the
-- lock, the write, the rename and the sync end is given with the call.
pub mod Refines
use midnight_referendum_app.Base.{◌≡◌, Option, none, some, List, [], ◌∷◌}
use midnight_referendum_app.Base.Json.{Value}

-- What a read of the file finds: ENOENT, a JSON value, or bytes that cannot be read or parsed.
pub data File : Type 0 where
  missing : File
  content : Value → File
  unreadable : File

pub data StoreError : Type 0 where
  io_failed corrupt conflict invalid : StoreError

pub data Outcome (A : Type 0) : Type 0 where
  returned : A → Outcome A
  threw : StoreError → Outcome A

-- How the calls of the file system end: `blocked` before the file is read, `unwritten` before the
-- rename, `unsynced` after it.
pub data Io : Type 0 where
  completes blocked unwritten unsynced : Io

-- What the engine is given: `initial`, `parse` (`none` is its throw), and `JSON.stringify`.
pub record Codec (S : Type 0) : Type 0 where
  pub initial : S
  pub parse : Value → Option S
  pub render : S → Value

-- The laws that make a codec usable.
pub record IsCodec {S : Type 0} (c : Codec S) (IsValid : S → Type 0) : Type 0 where
  pub initial : IsValid c.initial
  pub parsed : (v : Value) (s : S) → c.parse v ≡ some s → IsValid s
  pub again : (s : S) → IsValid s → c.parse (c.render s) ≡ some s

-- The change of an update: its result with the new state, or its throw.
abbrev pub Mutator : Type 0 → Type 0 → Type 0
Mutator S R = S → Outcome (R × S)

module _ {S : Type 0} (c : Codec S) where
  unfoldable pub load : File → Option S
  load missing = some c.initial
  load (content v) = c.parse v
  load unreadable = none

  abbrev pub loaded : Option S → Outcome S
  loaded none = threw corrupt
  loaded (some s) = returned s

  unfoldable pub read : Io → File → Outcome S
  unfolding load
  read blocked file = threw io_failed
  read io file = loaded (load file)

  -- `writeAtomic`: the temporary file is renamed over the old one, or removed.
  unfoldable pub write_atomic : {R : Type 0} → Io → R → S → File → Outcome R × File
  write_atomic completes r s file = (returned r, content (c.render s))
  write_atomic unsynced r s file = (threw io_failed, content (c.render s))
  write_atomic _ r s file = (threw io_failed, file)

  abbrev pub written : {R : Type 0} → Io → Outcome (R × S) → File → Outcome R × File
  written io (threw e) file = (threw e, file)
  written io (returned (r, s)) file = write_atomic io r s file

  abbrev pub changed : {R : Type 0} → Io → Mutator S R → File → Option S → Outcome R × File
  changed io mutate file none = (threw corrupt, file)
  changed io mutate file (some s) = written io (mutate s) file

  unfoldable pub update : {R : Type 0} → Io → Mutator S R → File → Outcome R × File
  unfolding load write_atomic
  update blocked mutate file = (threw io_failed, file)
  update io mutate file = changed io mutate file (load file)

  -- Calls of one store, one after the other, as the lock orders them.
  unfoldable pub run : {R : Type 0} → List (Io × Mutator S R) → File → List (Outcome R) × File
  unfolding update
  run [] file = ([], file)
  run ((io, mutate) ∷ calls) file =
      let (result, next) = update io mutate file in
      let (results, last) = run calls next in (result ∷ results, last)
