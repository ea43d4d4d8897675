-- ===== src/Cico/Program.antt =====
-- An async method: from the state of the object and its world to its result, or the error it
-- throws, with the state at that point. What was done before a throw stays done.
use midnight_referendum_app.Base.{◌≡◌, refl, Bool, true, false, Option, none, some, if◌then◌else◌}

pub data Ran (S X A : Type 0) : Type 0 where
  done : A → S → Ran S X A
  failed : X → S → Ran S X A

abbrev pub Program : Type 0 → Type 0 → Type 0 → Type 0
Program S X A = S → Ran S X A

abbrev continue : {S X A B : Type 0} → Ran S X A → (A → Program S X B) → Ran S X B
continue (done a s) f = f a s
continue (failed x s) f = failed x s

infixl 5 ◌>>=◌ ◌>>◌
unfoldable pub ◌>>=◌ : {S X A B : Type 0} → Program S X A → (A → Program S X B) → Program S X B
(m >>= f) s = continue (m s) f

unfoldable pub ◌>>◌ : {S X A B : Type 0} → Program S X A → Program S X B → Program S X B
unfolding ◌>>=◌
m >> k = m >>= λ _. k

-- The end of a method that returns.
unfoldable pub return : {S X A : Type 0} → A → Program S X A
return a s = done a s

-- `if (!b) throw x`
unfoldable pub require : {S X : Type 0} → Bool → X → Program S X (Unit {0})
require true x s = done tt s
require false x s = failed x s

unfoldable pub or_throw : {S X A : Type 0} → Option A → X → Program S X A
or_throw none x s = failed x s
or_throw (some a) x s = done a s

-- What holds of the result and the state, or of the error and the state.
abbrev pub Holds : {S X A : Type 0} → (A → S → Type 0) → (X → S → Type 0) → Ran S X A → Type 0
Holds P F (done a s) = P a s
Holds P F (failed x s) = F x s

continue-Holds :
    {S X A B : Type 0} (P : B → S → Type 0) (F : X → S → Type 0) (r : Ran S X A)
    (f : A → Program S X B)
    → Holds (λ a s. Holds P F (f a s)) F r
    → Holds P F (continue r f)
continue-Holds P F (done a s) f h = h
continue-Holds P F (failed x s) f h = h

module _ {S X B : Type 0} (P : B → S → Type 0) (F : X → S → Type 0) where
  pub bind-Holds :
      {A : Type 0} (m : Program S X A) (f : A → Program S X B) (s : S)
      → Holds (λ a s'. Holds P F (f a s')) F (m s)
      → Holds P F ((m >>= f) s)
  unfolding ◌>>=◌
  bind-Holds m f s h = continue-Holds P F (m s) f h

  pub then-Holds :
      {A : Type 0} (m : Program S X A) (f : Program S X B) (s : S)
      → Holds (λ _ s'. Holds P F (f s')) F (m s)
      → Holds P F ((m >> f) s)
  unfolding ◌>>=◌ ◌>>◌
  then-Holds m f s h = continue-Holds P F (m s) (λ _. f) h

  pub require-Holds :
      (b : Bool) (x : X) (f : Program S X B) (s : S)
      → (b ≡ true → Holds P F (f s))
      → F x s
      → Holds P F ((require b x >> f) s)
  unfolding ◌>>=◌ ◌>>◌ require
  require-Holds true x f s h k = h refl
  require-Holds false x f s h k = k

  pub if-Holds :
      (b : Bool) (m k : Program S X B) (s : S)
      → (b ≡ true → Holds P F (m s))
      → (b ≡ false → Holds P F (k s))
      → Holds P F ((if b then m else k) s)
  if-Holds true m k s h j = h refl
  if-Holds false m k s h j = j refl

  pub or_throw-Holds :
      {A : Type 0} (o : Option A) (x : X) (f : A → Program S X B) (s : S)
      → ((a : A) → o ≡ some a → Holds P F (f a s))
      → F x s
      → Holds P F ((or_throw o x >>= f) s)
  unfolding ◌>>=◌ or_throw
  or_throw-Holds none x f s h k = k
  or_throw-Holds (some a) x f s h k = h a refl

-- A weaker claim follows from a stronger one.
pub weaken :
    {S X A : Type 0} (P Q : A → S → Type 0) (F G : X → S → Type 0) (r : Ran S X A)
    → ((a : A) (s : S) → P a s → Q a s)
    → ((x : X) (s : S) → F x s → G x s)
    → Holds P F r
    → Holds Q G r
weaken P Q F G (done a s) f g h = f a s h
weaken P Q F G (failed x s) f g h = g x s h

-- The caller of a method uses what the method ensures.
module _ {S X A B : Type 0} (P : B → S → Type 0) (F : X → S → Type 0) where
  pub call-Holds :
      (Q : A → S → Type 0) (G : X → S → Type 0) (m : Program S X A) (f : A → Program S X B) (s : S)
      → Holds Q G (m s)
      → ((a : A) (t : S) → Q a t → Holds P F (f a t))
      → ((x : X) (t : S) → G x t → F x t)
      → Holds P F ((m >>= f) s)
  call-Holds Q G m f s h next thrown = bind-Holds P F m f s (weaken Q _ G F (m s) next thrown h)

  pub before-Holds :
      (Q : A → S → Type 0) (G : X → S → Type 0) (m : Program S X A) (f : Program S X B) (s : S)
      → Holds Q G (m s)
      → ((a : A) (t : S) → Q a t → Holds P F (f t))
      → ((x : X) (t : S) → G x t → F x t)
      → Holds P F ((m >> f) s)
  before-Holds Q G m f s h next thrown = then-Holds P F m f s (weaken Q _ G F (m s) next thrown h)

pub throw-Holds :
    {S X A : Type 0} (P : A → S → Type 0) (F : X → S → Type 0) (o : Option A) (x : X) (s : S)
    → ((a : A) → o ≡ some a → P a s)
    → F x s
    → Holds P F (or_throw o x s)
unfolding or_throw
throw-Holds P F none x s h k = k
throw-Holds P F (some a) x s h k = h a refl

pub check-Holds :
    {S X : Type 0} (P : Unit {0} → S → Type 0) (F : X → S → Type 0) (b : Bool) (x : X) (s : S)
    → (b ≡ true → P tt s)
    → F x s
    → Holds P F (require b x s)
unfolding require
check-Holds P F true x s h k = h refl
check-Holds P F false x s h k = k
