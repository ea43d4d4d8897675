-- ===== src/Cico/Stores/Keyed.antt =====
-- The state of a store of cico-service/src/durable-stores.ts: an object with a version and one object of
-- entries, as parseEvidenceState, parseReceiptState and parseIssuanceState read it.
use midnight_referendum_app.Base.{
  zero, suc, ◌≡◌, refl, sym, ◌∙◌, ap, Bool, true, false, Option, none, some, [], ◌∷◌, ◌++◌, arith,
  if◌then◌else◌, subst, Bool-cases, Option-cases, inl, inr,
}
use mathlib.Core.Option.{some-injective}
use mathlib.Core.List.{append_assoc, append-nil}
use midnight_referendum_app.Base.Text.{Text, codes, text_eq, text_eq_iff, text_eq_refl}
use midnight_referendum_app.Base.Maps.{Map, get, set, get-set}
use midnight_referendum_app.Base.Json.{Value, Fields, object, number, natural, end, field, property}
use midnight_referendum_app.Cico.Stores.File.{Codec, IsCodec}

-- One kind of entry: how it is read under its key, and written.
pub record Entry (R : Type 0) : Type 0 where
  pub parse : Text → Value → Option R
  pub render : R → Value

-- What is read is written so that it is read again.
pub record IsEntry {R : Type 0} (e : Entry R) : Type 0 where
  pub stable :
      (k : Text) (v : Value) (r : R) → e.parse k v ≡ some r → e.parse k (e.render r) ≡ some r

abbrev pub is_version_1 : Value → Bool
is_version_1 (number (natural (suc zero))) = true
is_version_1 _ = false

module _ {R : Type 0} (e : Entry R) where
  abbrev pub stored : Map R → Text → Option R → Option (Map R)
  stored m key none = none
  stored m key (some r) = some (set m key r)

  -- The loop over `Object.entries`.
  unfoldable pub parse_entries : Fields → Option (Map R) → Option (Map R)
  parse_entries end m = m
  parse_entries (field key v f) none = none
  parse_entries (field key v f) (some m) = parse_entries f (stored m key (e.parse key v))

  abbrev pub parse_object : Value → Option (Map R)
  parse_object (object f) = parse_entries f (some [])
  parse_object _ = none

  unfoldable pub parse_keyed : Text → Value → Option (Map R)
  unfolding property parse_entries
  parse_keyed name (object f) =
      if is_version_1 (property f (codes "version")) then parse_object (property f name) else none
  parse_keyed name _ = none

  abbrev pub entry_fields : Map R → Fields
  entry_fields [] = end
  entry_fields ((key, r) ∷ m) = field key (e.render r) (entry_fields m)

  unfoldable pub render_keyed : Text → Map R → Value
  render_keyed name m =
      object
        (field (codes "version") (number (natural 1)) (field name (object (entry_fields m)) end))

  -- Each key once, and each entry as it is read.
  abbrev pub IsStored : Map R → Type 0
  IsStored [] = Unit
  IsStored ((key, r) ∷ m) = (e.parse key (e.render r) ≡ some r) × (get m key ≡ none) × IsStored m

  -- No key of one map is in the other.
  abbrev Apart : Map R → Map R → Type 0
  Apart acc [] = Unit
  Apart acc ((key, r) ∷ m) = (get acc key ≡ none) × Apart acc m

  set_new : (m : Map R) (key : Text) (r : R) → get m key ≡ none → set m key r ≡ m ++ (key, r) ∷ []
  unfolding get set
  set_new [] key r h = refl
  set_new ((j, w) ∷ m) key r h = ground (arith, set_new m key r)

  Apart-set :
      (acc m : Map R) (key : Text) (r : R)
      → Apart acc m
      → get m key ≡ none
      → Apart (set acc key r) m
  unfolding get
  Apart-set acc [] key r h k = tt
  Apart-set acc ((j, w) ∷ m) key r (here, h) k = (
    ground (arith, here, k, get-set acc key j r, text_eq_iff key j, text_eq_iff j key),
    Apart-set acc m key r h (ground (arith, k)),
  )

  parse_entries-fields :
      (m acc : Map R)
      → IsStored m
      → Apart acc m
      → parse_entries (entry_fields m) (some acc) ≡ some (acc ++ m)
  unfolding parse_entries
  parse_entries-fields [] acc h k = ap some (sym (append-nil acc))
  parse_entries-fields ((key, r) ∷ m) acc (reads, fresh, h) (new, k) =
      ap (λ o. parse_entries (entry_fields m) (stored acc key o)) reads
      ∙ (parse_entries-fields m (set acc key r) h (Apart-set acc m key r k fresh)
          ∙ ap (λ l. some (l ++ m)) (set_new acc key r new)
          ∙ ap some (append_assoc acc ((key, r) ∷ []) m))

  Apart-nil : (m : Map R) → Apart [] m
  unfolding get
  Apart-nil [] = tt
  Apart-nil (x ∷ m) = (refl, Apart-nil m)

  get-set_fresh :
      (m : Map R) (key j : Text) (r : R)
      → get m j ≡ none
      → text_eq key j ≡ false
      → get (set m key r) j ≡ none
  get-set_fresh m key j r h k = get-set m key j r ∙ ground (arith, h, k)

  pub set-IsStored :
      (m : Map R) (key : Text) (r : R)
      → e.parse key (e.render r) ≡ some r
      → IsStored m
      → IsStored (set m key r)
  unfolding get set
  set-IsStored [] key r reads h = (reads, refl, tt)
  set-IsStored ((j, w) ∷ m) key r reads (old, fresh, h) = elim (Bool-cases (text_eq j key)) [
    | inl same ↦ simp (same) (
      subst (λ k. e.parse k (e.render r) ≡ some r) (sym ((text_eq_iff j key).0 same)) reads,
      fresh,
      h,
    )
    | inr differs ↦ simp (differs) (
      old,
      get-set_fresh m key j r fresh (ground (arith, differs, text_eq_iff j key, text_eq_iff key j)),
      set-IsStored m key r reads h,
    )
  ]

  -- A stored entry is read as it is written.
  pub get-IsStored :
      (m : Map R) (key : Text) (r : R)
      → IsStored m
      → get m key ≡ some r
      → e.parse key (e.render r) ≡ some r
  unfolding get
  get-IsStored [] key r h eq = cc
  get-IsStored ((j, w) ∷ m) key r (reads, fresh, h) eq = elim (Bool-cases (text_eq j key)) [
    | inl same ↦
        subst (λ k. e.parse k (e.render r) ≡ some r) ((text_eq_iff j key).0 same)
          (subst (λ x. e.parse j (e.render x) ≡ some x) (some-injective _ _ (simp (same) at eq))
            reads)
    | inr differs ↦ get-IsStored m key r h (simp (differs) at eq)
  ]

  parse_entries-none : (f : Fields) → parse_entries f none ≡ none
  unfolding parse_entries
  parse_entries-none end = refl
  parse_entries-none (field key v f) = refl

  module _ (entry : IsEntry e) where
    parse_entries-IsStored :
        (f : Fields) (acc m : Map R)
        → IsStored acc
        → parse_entries f (some acc) ≡ some m
        → IsStored m
    unfolding parse_entries
    parse_entries-IsStored end acc m h eq = subst IsStored (some-injective _ _ eq) h
    parse_entries-IsStored (field key v f) acc m h eq = elim (Option-cases (e.parse key v)) [
      | inl refuses ↦
          let fails = ap (λ o. parse_entries f (stored acc key o)) (sym refuses) ∙ eq in
          absurd (cc (sym (parse_entries-none f) ∙ fails))
      | inr (r, reads) ↦
          parse_entries-IsStored f (set acc key r) m
            (set-IsStored acc key r (entry.stable key v r reads) h)
            (ap (λ o. parse_entries f (stored acc key o)) (sym reads) ∙ eq)
    ]

    parse_object-IsStored : (v : Value) (m : Map R) → parse_object v ≡ some m → IsStored m
    parse_object-IsStored (object f) m eq = parse_entries-IsStored f [] m tt eq
    parse_object-IsStored v m eq = cc

    parse_keyed-IsStored :
        (name : Text) (v : Value) (m : Map R) → parse_keyed name v ≡ some m → IsStored m
    unfolding parse_keyed
    parse_keyed-IsStored name (object f) m eq =
        elim (Bool-cases (is_version_1 (property f (codes "version")))) [
          | inl h ↦ parse_object-IsStored (property f name) m (simp (h) at eq)
          | inr h ↦ absurd (cc (simp (h) at eq))
        ]
    parse_keyed-IsStored name v m eq = cc

  parse_keyed-render :
      (name : Text) (m : Map R)
      → text_eq (codes "version") name ≡ false
      → IsStored m
      → parse_keyed name (render_keyed name m) ≡ some m
  unfolding parse_keyed render_keyed property text_eq
  parse_keyed-render name m h is_stored =
      simp (h, text_eq_refl name) (parse_entries-fields m [] is_stored (Apart-nil m))

-- The codec of one store, whose entries stand under this name.
abbrev pub keyed_codec : {R : Type 0} → Entry R → Text → Codec (Map R)
keyed_codec e name = record {
  initial = [];
  parse = parse_keyed e name;
  render = render_keyed e name;
}

-- What a store writes it reads back, and what it reads is well formed.
pub keyed_codec-IsCodec :
    {R : Type 0} (e : Entry R) (name : Text)
    → IsEntry e
    → text_eq (codes "version") name ≡ false
    → IsCodec (keyed_codec e name) (IsStored e)
keyed_codec-IsCodec e name entry h = record {
  initial = tt;
  parsed = λ v m eq. parse_keyed-IsStored e entry name v m eq;
  again = λ m is_stored. parse_keyed-render e name m h is_stored;
}
