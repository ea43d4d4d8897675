-- ===== src/Cico/Stores/Insert.antt =====
-- The immutable records of cico-service/src/durable-stores.ts: a record is written once under its key, the
-- same record again changes nothing, another one is a conflict.
use midnight_referendum_app.Base.{
  ◌≡◌, refl, sym, ◌∙◌, ap, subst, Bool, true, Option, none, some, if◌then◌else◌, Bool-cases, inl,
  inr,
}
use midnight_referendum_app.Base.Text.{Text, text_eq, text_eq_iff, text_eq_refl}
use midnight_referendum_app.Base.Maps.{Map, get, set, get-set}
use midnight_referendum_app.Cico.Stores.File.{Outcome, returned, threw, conflict, Mutator}
use midnight_referendum_app.Cico.Stores.File.Refines.{
  Acts, changes, refuses, loses, unconfirmed, Keeps,
}
use midnight_referendum_app.Cico.Stores.Keyed.{Entry, IsStored, set-IsStored}

module _ {R : Type 0} (same : R → R → Bool) where
  abbrev pub inserted : Text → R → Map R → Option R → Outcome (Unit {0} × Map R)
  inserted key r m none = returned (tt, set m key r)
  inserted key r m (some existing) = if same existing r then returned (tt, m) else threw conflict

  unfoldable pub insert : Text → R → Mutator (Map R) (Unit {0})
  insert key r m = inserted key r m (get m key)

  abbrev map_of : Map R → Outcome (Unit {0} × Map R) → Map R
  map_of m (returned (u, t)) = t
  map_of m (threw e) = m

  -- A record under a key survives what is inserted later.
  inserted-kept :
      (key k : Text) (r old : R) (m : Map R) (o : Option R)
      → get m key ≡ o
      → get m k ≡ some old
      → get (map_of m (inserted key r m o)) k ≡ some old
  inserted-kept key k r old m none eq h = elim (Bool-cases (text_eq key k)) [
    | inl here ↦ absurd (cc (sym eq ∙ ap (get m) ((text_eq_iff key k).0 here) ∙ h))
    | inr differs ↦ get-set m key k r ∙ simp (differs) h
  ]
  inserted-kept key k r old m (some existing) eq h = elim (Bool-cases (same existing r)) [
    | inl again ↦ simp (again) h
    | inr other ↦ simp (other) h
  ]

  pub insert-kept :
      (key k : Text) (r old : R) (m t : Map R) (u : Unit {0})
      → insert key r m ≡ returned (u, t)
      → get m k ≡ some old
      → get t k ≡ some old
  unfolding insert
  insert-kept key k r old m t u eq h =
      subst (λ o. get (map_of m o) k ≡ some old) eq (inserted-kept key k r old m (get m key) refl h)

  pub Acts-kept :
      (key k : Text) (r old : R) (m t : Map R) (result : Outcome (Unit {0}))
      → Acts (insert key r) m result t
      → get m k ≡ some old
      → get t k ≡ some old
  Acts-kept key k r old m _ _ (changes u t eq) h = insert-kept key k r old m t u eq h
  Acts-kept key k r old m _ _ (refuses e eq) h = h
  Acts-kept key k r old m _ _ loses h = h
  Acts-kept key k r old m _ _ (unconfirmed u t eq) h = insert-kept key k r old m t u eq h

  module _ (e : Entry R) where
    inserted-IsStored :
        (key : Text) (r : R) (m : Map R) (o : Option R)
        → e.parse key (e.render r) ≡ some r
        → IsStored e m
        → IsStored e (map_of m (inserted key r m o))
    inserted-IsStored key r m none reads h = set-IsStored e m key r reads h
    inserted-IsStored key r m (some existing) reads h = elim (Bool-cases (same existing r)) [
      | inl again ↦ simp (again) h
      | inr other ↦ simp (other) h
    ]

    pub insert-Keeps :
        (key : Text) (r : R) → e.parse key (e.render r) ≡ some r → Keeps (IsStored e) (insert key r)
    unfolding insert
    insert-Keeps key r reads m u t h eq =
        subst (λ o. IsStored e (map_of m o)) eq (inserted-IsStored key r m (get m key) reads h)

  inserted-there :
      (key : Text) (r : R) (m t : Map R) (o : Option R) (u : Unit {0})
      → ((a b : R) → same a b ≡ true → a ≡ b)
      → get m key ≡ o
      → inserted key r m o ≡ returned (u, t)
      → get t key ≡ some r
  inserted-there key r m t none u h eq ins =
      ap (λ x. get x key) (sym (ap (map_of m) ins))
      ∙ get-set m key key r
      ∙ simp (text_eq_refl key) refl
  inserted-there key r m t (some existing) u h eq ins = elim (Bool-cases (same existing r)) [
    | inl again ↦
        let stays = ap (map_of m) (simp (again) at ins) in
        ap (λ x. get x key) (sym stays) ∙ eq ∙ ap some (h existing r again)
    | inr other ↦ absurd (cc (simp (other) at ins))
  ]

  -- A record that was inserted is there.
  pub insert-there :
      (key : Text) (r : R) (m t : Map R) (u : Unit {0})
      → ((a b : R) → same a b ≡ true → a ≡ b)
      → insert key r m ≡ returned (u, t)
      → get t key ≡ some r
  unfolding insert
  insert-there key r m t u h eq = inserted-there key r m t (get m key) u h refl eq
