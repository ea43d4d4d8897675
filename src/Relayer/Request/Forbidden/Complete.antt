-- ===== src/Relayer/Request/Forbidden/Complete.antt =====
-- The walk of assertNoForbiddenKeys against a recursion over the value.
use midnight_referendum_app.Base.{
  ℕ, zero, suc, ◌+◌, ◌≡◌, ◌<◌, ◌≤◌, ◌⊎◌, refl, ap, ◌∙◌, Bool, true, false, not, ◌&&◌, none, some,
  List, [], ◌∷◌, arith, all, if◌then◌else◌, Bool-cases, inl, inr,
}
use midnight_referendum_app.Base.Text.{Text}
use midnight_referendum_app.Base.Json.{
  Value, Values, Fields, undefined, null, boolean, number, string, array, object, nil, cons, end,
  field,
}
use midnight_referendum_app.Relayer.Request.Forbidden.{
  is_forbidden, is_container, push_all, push_entries, walk, weight, weight_values, weight_fields,
  total, no_forbidden_keys, passed,
}

and_swap : (a b c : Bool) → (a && (b && c)) ≡ ((b && a) && c)
and_swap true true c = refl
and_swap true false c = refl
and_swap false true c = refl
and_swap false false c = refl

and_true : (a : Bool) → (a && true) ≡ a
and_true true = refl
and_true false = refl

and_last_false : (a b : Bool) → (a && (b && false)) ≡ false
and_last_false true true = refl
and_last_false true false = refl
and_last_false false b = refl

module _ (lower : Text → Text) where
  -- No object at any depth has a forbidden key.
  mutual
    pub is_clean : Value → Bool
    is_clean (array vs) = are_clean vs
    is_clean (object f) = clean_fields f
    is_clean v = true

    pub are_clean : Values → Bool
    are_clean nil = true
    are_clean (cons v vs) = is_clean v && are_clean vs

    pub clean_fields : Fields → Bool
    clean_fields end = true
    clean_fields (field k v f) = not (is_forbidden lower k) && (is_clean v && clean_fields f)

  abbrev pub all_clean : List Value → Bool
  all_clean pending = all is_clean pending

  push_all-clean :
      (vs : Values) (pending : List Value)
      → all_clean (push_all vs pending) ≡ (are_clean vs && all_clean pending)
  unfolding push_all is_clean are_clean clean_fields
  push_all-clean nil pending = refl
  push_all-clean (cons v vs) pending =
      push_all-clean vs (v ∷ pending) ∙ and_swap (are_clean vs) (is_clean v) (all_clean pending)

  total-push_all :
      (vs : Values) (pending : List Value)
      → total (push_all vs pending) ≡ weight_values vs + total pending
  unfolding push_all weight weight_values weight_fields
  total-push_all nil pending = omega arith
  total-push_all (cons v vs) pending = let k = total-push_all vs (v ∷ pending) in omega (arith, k)

  -- What is not put on the stack has nothing to look at.
  clean_or_pushed :
      (v : Value) (pending : List Value)
      → let next = if is_container v then v ∷ pending else pending in
        (all_clean next ≡ (is_clean v && all_clean pending))
        × (total next ≤ weight v + total pending)
  unfolding is_clean are_clean clean_fields weight weight_values weight_fields
  clean_or_pushed (array vs) pending = (refl, omega arith)
  clean_or_pushed (object f) pending = (refl, omega arith)
  clean_or_pushed undefined pending = (refl, omega arith)
  clean_or_pushed null pending = (refl, omega arith)
  clean_or_pushed (boolean b) pending = (refl, omega arith)
  clean_or_pushed (number n) pending = (refl, omega arith)
  clean_or_pushed (string s) pending = (refl, omega arith)

  -- The loop either meets a forbidden key of the object or leaves what is left to look at.
  abbrev Pushed : Fields → List Value → Type 0
  Pushed f pending =
      ((push_entries lower f pending ≡ none) × (clean_fields f ≡ false))
      ⊎ ((more : List Value) × (push_entries lower f pending ≡ some more)
          × (all_clean more ≡ (clean_fields f && all_clean pending))
          × (total more ≤ weight_fields f + total pending))

  push_entries-Pushed : (f : Fields) (pending : List Value) → Pushed f pending
  unfolding push_entries is_clean are_clean clean_fields weight weight_values weight_fields
  push_entries-Pushed end pending = inr (pending, refl, refl, omega arith)
  push_entries-Pushed (field k v f) pending =
      let (here, smaller) = clean_or_pushed v pending in
      let rest = push_entries-Pushed f (if is_container v then v ∷ pending else pending) in
      elim (Bool-cases (is_forbidden lower k)) [
        | inl h ↦ inl (simp (h), simp (h))
        | inr h ↦ elim rest [
          | inl (e, dirty) ↦
              inl (
                simp (h, e),
                simp (dirty) (and_last_false (not (is_forbidden lower k)) (is_clean v)),
              )
          | inr (more, e, clean, bound) ↦ inr (
            more,
            simp (h, e),
            simp (h) (
                clean
                ∙ ap (λ b. clean_fields f && b) here
                ∙ and_swap (clean_fields f) (is_clean v) (all_clean pending)),
            omega (arith, bound, smaller),
          )
        ]
      ]

  -- The walk ends within one step more than the values that wait, those nested in them counted too,
  -- and has then answered whether each of them is free of forbidden keys.
  pub walk-clean :
      (fuel : ℕ) (pending : List Value)
      → total pending < fuel
      → walk lower fuel pending ≡ some (all_clean pending)
  unfolding walk is_clean are_clean clean_fields weight weight_values weight_fields
  walk-clean zero pending h = ground (arith, h)
  walk-clean (suc fuel) [] h = refl
  walk-clean (suc fuel) (array vs ∷ pending) h =
      let e = total-push_all vs pending in
      walk-clean fuel (push_all vs pending) (omega (arith, h, e))
      ∙ ap some (push_all-clean vs pending)
  walk-clean (suc fuel) (object f ∷ pending) h = elim (push_entries-Pushed f pending) [
    | inl (e, dirty) ↦ ground (arith, e, dirty)
    | inr (more, e, clean, bound) ↦
        ground (arith, e, clean, bound, h, walk-clean fuel more (omega (arith, h, bound)))
  ]
  walk-clean (suc fuel) (undefined ∷ pending) h = walk-clean fuel pending (omega arith)
  walk-clean (suc fuel) (null ∷ pending) h = walk-clean fuel pending (omega arith)
  walk-clean (suc fuel) (boolean b ∷ pending) h = walk-clean fuel pending (omega arith)
  walk-clean (suc fuel) (number n ∷ pending) h = walk-clean fuel pending (omega arith)
  walk-clean (suc fuel) (string s ∷ pending) h = walk-clean fuel pending (omega arith)

-- The check of a request body accepts it exactly when no object in it, at any depth and also inside
-- arrays, has a forbidden key.
pub no_forbidden_keys-is_clean :
    (lower : Text → Text) (body : Value) → no_forbidden_keys lower body ≡ is_clean lower body
unfolding no_forbidden_keys
no_forbidden_keys-is_clean lower body =
    ap passed (walk-clean lower (suc (total (body ∷ []))) (body ∷ []) (omega arith))
    ∙ and_true (is_clean lower body)
