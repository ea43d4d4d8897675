-- ===== src/Base/Maps.antt =====
-- A JavaScript `Map` with string keys: the entries in insertion order, a write to a key that is
-- there keeping its place.
use mathlib.Core.Path.{◌≡◌, refl}
use mathlib.Core.List.{List, [], ◌∷◌}
use mathlib.Core.Option.{Option, none, some}
use native.Mathlib.Omega.{arith}
use midnight_referendum_app.Base.Tests.{if◌then◌else◌}
use midnight_referendum_app.Base.Text.{Text, text_eq, text_eq_iff}

abbrev pub Map {ℓ} : Type ℓ → Type ℓ
Map V = List (Text × V)

module _ {ℓ} {V : Type ℓ} where
  unfoldable pub get : Map V → Text → Option V
  get [] k = none
  get ((j, v) ∷ m) k = if text_eq j k then some v else get m k

  unfoldable pub set : Map V → Text → V → Map V
  set [] k v = (k, v) ∷ []
  set ((j, w) ∷ m) k v = if text_eq j k then (j, v) ∷ m else (j, w) ∷ set m k v

  unfoldable pub delete : Map V → Text → Map V
  delete [] k = []
  delete ((j, w) ∷ m) k = if text_eq j k then m else (j, w) ∷ delete m k

  abbrev pub values : Map V → List V
  values [] = []
  values ((j, v) ∷ m) = v ∷ values m

  pub get-set :
      (m : Map V) (k j : Text) (v : V)
      → get (set m k v) j ≡ (if text_eq k j then some v else get m j)
  unfolding get set
  get-set [] k j v = refl
  get-set ((i, w) ∷ m) k j v =
      ground (arith, text_eq_iff i k, text_eq_iff i j, text_eq_iff k j, get-set m k j v)
