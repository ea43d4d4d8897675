-- ===== src/Cico/Publisher/Effects.antt =====
-- The effects of a cycle of cico-service/src/credential-root-publisher.ts, in the order in which a
-- cycle has them, and how a claim passes through the calls.
use midnight_referendum_app.Base.{
  ℕ, ◌≡◌, refl, Bool, true, false, Option, none, some, List, ◌∷◌, if◌then◌else◌,
}
use midnight_referendum_app.Base.Text.{Text}
use midnight_referendum_app.Cico.Program.{Ran, done, failed, Holds}
use midnight_referendum_app.Cico.Publisher.{
  Publisher, Effect, registry_read, clock_read, registry_joined, attestation_refused,
  referendum_read, referendum_joined, attested, published, publication_refused, PublishError,
  answered, caught, note, Cycle, recovered,
}

-- The effects that change no ledger's roots.
pub data IsQuiet : Effect → Type 0 where
  of_registry_read : IsQuiet registry_read
  of_clock_read : IsQuiet clock_read
  of_registry_joined : IsQuiet registry_joined
  of_attestation_refused : IsQuiet attestation_refused
  of_referendum_read : (a : Text) → IsQuiet (referendum_read a)
  of_referendum_joined : (a : Text) → IsQuiet (referendum_joined a)

-- The effects of one cycle after those of `start`: none of them attests or publishes, or a root was
-- attested once and only then that root was sent to referenda.
pub data Follows (start : List Effect) : Option ℕ → List Effect → Type 0 where
  begins : Follows start none start
  quiet :
      (attestation : Option ℕ) (e : Effect) (t : List Effect)
      → IsQuiet e
      → Follows start attestation t
      → Follows start attestation (e ∷ t)
  attests :
      (root : ℕ) (t : List Effect)
      → Follows start none t
      → Follows start (some root) (attested root ∷ t)
  publishes :
      (root : ℕ) (a : Text) (t : List Effect)
      → Follows start (some root) t
      → Follows start (some root) (published a root ∷ t)
  refused :
      (root : ℕ) (a : Text) (t : List Effect)
      → Follows start (some root) t
      → Follows start (some root) (publication_refused a root ∷ t)

pub choose-Holds :
    {S X A : Type 0} (P : A → S → Type 0) (F : X → S → Type 0) (b : Bool) (r k : Ran S X A)
    → Holds P F r
    → Holds P F k
    → Holds P F (if b then r else k)
choose-Holds P F true r k h j = h
choose-Holds P F false r k h j = j

pub answered-Holds :
    {A : Type 0} (P : A → Publisher → Type 0) (F : PublishError → Publisher → Type 0) (o : Option A)
    (good bad : Effect) (x : PublishError) (s : Publisher)
    → ((a : A) → o ≡ some a → P a (note good s))
    → F x (note bad s)
    → Holds P F (answered o good bad x s)
answered-Holds P F none good bad x s h k = k
answered-Holds P F (some a) good bad x s h k = h a refl

recovered-Holds :
    {A : Type 0} (P : Option A → Publisher → Type 0) (F : PublishError → Publisher → Type 0)
    (r : Ran Publisher PublishError A)
    → Holds (λ a. P (some a)) (λ x. P none) r
    → Holds P F (recovered r)
recovered-Holds P F (done a s) h = h
recovered-Holds P F (failed x s) h = h

pub caught-Holds :
    {A : Type 0} (P : Option A → Publisher → Type 0) (F : PublishError → Publisher → Type 0)
    (m : Cycle A) (s : Publisher)
    → Holds (λ a. P (some a)) (λ x. P none) (m s)
    → Holds P F (caught m s)
unfolding caught
caught-Holds P F m s h = recovered-Holds P F (m s) h
