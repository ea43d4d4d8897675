-- ===== src/Cico/Stores/Persist.antt =====
-- What later calls on a store of cico-service/src/durable-stores.ts leave as it is.
use midnight_referendum_app.Base.{◌≡◌, some, List, [], ◌∷◌}
use midnight_referendum_app.Base.Text.{Text}
use midnight_referendum_app.Base.Maps.{Map, get}
use midnight_referendum_app.Cico.Stores.File.{
  File, Outcome, returned, Io, Codec, IsCodec, Mutator, update, run, load,
}
use midnight_referendum_app.Cico.Stores.File.Refines.{
  Acts, changes, refuses, loses, unconfirmed, ActsAll, stops, steps, Stores, AllKeep, run-Refines,
  update-Simulates, Keeps,
}

module _ {V R : Type 0} where
  -- A change that keeps every record that is there.
  abbrev pub Preserves : Mutator (Map V) R → Type 0
  Preserves mutate =
      (k : Text) (old : V) (s t : Map V) (r : R)
      → mutate s ≡ returned (r, t)
      → get s k ≡ some old
      → get t k ≡ some old

  abbrev pub AllPreserve : List (Io × Mutator (Map V) R) → Type 0
  AllPreserve [] = Unit
  AllPreserve ((io, mutate) ∷ calls) = Preserves mutate × AllPreserve calls

  Acts-preserved :
      (mutate : Mutator (Map V) R) (k : Text) (old : V) (s t : Map V) (result : Outcome R)
      → Preserves mutate
      → Acts mutate s result t
      → get s k ≡ some old
      → get t k ≡ some old
  Acts-preserved mutate k old s _ _ p (changes r t eq) h = p k old s t r eq h
  Acts-preserved mutate k old s _ _ p (refuses e eq) h = h
  Acts-preserved mutate k old s _ _ p loses h = h
  Acts-preserved mutate k old s _ _ p (unconfirmed r t eq) h = p k old s t r eq h

  ActsAll-preserved :
      (calls : List (Io × Mutator (Map V) R)) (k : Text) (old : V) (s t : Map V)
      (results : List (Outcome R))
      → AllPreserve calls
      → ActsAll calls s results t
      → get s k ≡ some old
      → get t k ≡ some old
  ActsAll-preserved [] k old s t results p stops h = h
  ActsAll-preserved ((io, mutate) ∷ calls) k old s u results (p, ps)
        (steps io' m rest result results' acts more) h =
      ActsAll-preserved calls k old _ u results' ps more
        (Acts-preserved mutate k old s _ result p acts h)

  pub Acts-returned :
      (mutate : Mutator (Map V) R) (s t : Map V) (result : Outcome R) (r : R)
      → Acts mutate s result t
      → result ≡ returned r
      → (x : R) × (mutate s ≡ returned (x, t))
  Acts-returned mutate s _ _ r (changes x t eq) same = (x, eq)
  Acts-returned mutate s _ _ r (refuses e eq) same = absurd (cc same)
  Acts-returned mutate s _ _ r loses same = absurd (cc same)
  Acts-returned mutate s _ _ r (unconfirmed x t eq) same = absurd (cc same)

  module _ (c : Codec (Map V)) (IsValid : Map V → Type 0) (laws : IsCodec c IsValid) where
    -- What a call has put under a key and returned is what every later read of the file finds there.
    pub persists :
        (file : File) (s : Map V) (io : Io) (mutate : Mutator (Map V) R) (r : R) (key : Text)
        (v : V) (calls : List (Io × Mutator (Map V) R))
        → Stores c IsValid laws file s
        → Keeps IsValid mutate
        → ((t : Map V) (x : R) → mutate s ≡ returned (x, t) → get t key ≡ some v)
        → (update c io mutate file).0 ≡ returned r
        → AllKeep c IsValid laws calls
        → AllPreserve calls
        → (u : Map V) × (load c (run c calls (update c io mutate file).1).1 ≡ some u)
          × (get u key ≡ some v)
    persists file s io mutate r key v calls h keep puts first keeps preserve =
        let (t, acts, st) = update-Simulates c IsValid laws io mutate file s keep h in
        let (x, eq) = Acts-returned mutate s t _ r acts first in
        let (u, more, st') = run-Refines c IsValid laws calls _ t keeps st in
        (u, st'.loads, ActsAll-preserved calls key v t u _ preserve more (puts t x eq))
