-- ===== src/Ui/Mrz/CheckDigit.antt =====
-- computeCheckDigit of ui/src/integration/mrz.ts finds each digit that is misread.
use midnight_referendum_app.Base.{
  ℕ, suc, ◌+◌, ◌-◌, ◌*◌, ◌%◌, ◌<◌, ◌≤◌, ◌≡◌, ◌≢◌, refl, sym, ◌∙◌, true, false, Option, none, some,
  [], ◌∷◌, ◌++◌, arith, Bool-cases, inl, inr, ◌⊎◌,
}
use midnight_referendum_app.Base.Text.{Text, text_eq_iff}
use midnight_referendum_app.Ui.Dates.{is_digit}
use midnight_referendum_app.Ui.Mrz.{
  digit_value, weight, add_weighted, weighted_sum, last_digit, compute_check_digit, is_digit_text,
  check_matches,
}

weight-cases : (index : ℕ) → (weight index ≡ 7) ⊎ ((weight index ≡ 3) ⊎ (weight index ≡ 1))
unfolding weight
weight-cases index = ground arith

-- A multiple of a weight tells two digits apart in the last place.
weight-injective :
    (w a b s : ℕ)
    → (w ≡ 7) ⊎ ((w ≡ 3) ⊎ (w ≡ 1))
    → a < 10
    → b < 10
    → (a * w + s) % 10 ≡ (b * w + s) % 10
    → a ≡ b
weight-injective w a b s (inl e) h k same =
    let p : a * w ≡ a * 7 = λ i. a * e i in
    let q : b * w ≡ b * 7 = λ i. b * e i in omega (arith, h, k, same, p, q)
weight-injective w a b s (inr (inl e)) h k same =
    let p : a * w ≡ a * 3 = λ i. a * e i in
    let q : b * w ≡ b * 3 = λ i. b * e i in omega (arith, h, k, same, p, q)
weight-injective w a b s (inr (inr e)) h k same =
    let p : a * w ≡ a * 1 = λ i. a * e i in
    let q : b * w ≡ b * 1 = λ i. b * e i in omega (arith, h, k, same, p, q)

digit_value-digit :
    (c : ℕ) → is_digit c ≡ true → (digit_value c ≡ some (c - 48)) × (c - 48 < 10) × (48 ≤ c)
unfolding digit_value
digit_value-digit c h = ground (arith, h)

add_weighted-some :
    (w : ℕ) (o p : Option ℕ) (m : ℕ)
    → add_weighted w o p ≡ some m
    → (v : ℕ) × (s : ℕ) × (o ≡ some v) × (p ≡ some s) × (v * w + s ≡ m)
add_weighted-some w (some v) (some s) m h = (v, s, refl, refl, ground (arith, h))
add_weighted-some w (some v) none m h = ground (arith, h)
add_weighted-some w none p m h = ground (arith, h)

same_value : (o : Option ℕ) (a b : ℕ) → o ≡ some a → o ≡ some b → a ≡ b
same_value o a b h k = ground (arith, h, k)

weighted_sum-apart :
    (xs ys : Text) (c d index m n : ℕ)
    → is_digit c ≡ true
    → is_digit d ≡ true
    → weighted_sum index (xs ++ c ∷ ys) ≡ some m
    → weighted_sum index (xs ++ d ∷ ys) ≡ some n
    → m % 10 ≡ n % 10
    → c ≡ d
unfolding weighted_sum
weighted_sum-apart [] ys c d index m n c_is d_is h k same =
    let (v, s, v_is, s_is, sum) =
      add_weighted-some (weight index) (digit_value c) (weighted_sum (suc index) ys) m h in
    let (u, t, u_is, t_is, tum) =
      add_weighted-some (weight index) (digit_value d) (weighted_sum (suc index) ys) n k in
    let (c_value, c_low, c_high) = digit_value-digit c c_is in
    let (d_value, d_low, d_high) = digit_value-digit d d_is in
    let a = same_value (digit_value c) v (c - 48) v_is c_value in
    let b = same_value (digit_value d) u (d - 48) u_is d_value in
    let r = same_value (weighted_sum (suc index) ys) s t s_is t_is in
    let equal =
      weight-injective (weight index) v u s (weight-cases index) (omega (arith, a, c_low))
        (omega (arith, b, d_low)) (omega (arith, sum, tum, r, same)) in
    omega (arith, a, b, equal, c_high, d_high)
weighted_sum-apart (x ∷ xs) ys c d index m n c_is d_is h k same =
    let (v, s, v_is, s_is, sum) =
      add_weighted-some (weight index) (digit_value x) (weighted_sum (suc index) (xs ++ c ∷ ys)) m
        h in
    let (u, t, u_is, t_is, tum) =
      add_weighted-some (weight index) (digit_value x) (weighted_sum (suc index) (xs ++ d ∷ ys)) n
        k in
    let v_u : v ≡ u = same_value (digit_value x) v u v_is u_is in
    let p : v * weight index ≡ u * weight index = λ i. v_u i * weight index in
    weighted_sum-apart xs ys c d (suc index) s t c_is d_is s_is t_is
      (omega (arith, sum, tum, p, same))

last_digit-some :
    (o : Option ℕ) (m : ℕ) → last_digit o ≡ some m → (s : ℕ) × (o ≡ some s) × (s % 10 ≡ m)
last_digit-some none m h = ground (arith, h)
last_digit-some (some s) m h = (s, refl, ground (arith, h))

is_digit_text-some :
    (o : Option ℕ) (expected : Text)
    → is_digit_text o expected ≡ true
    → (m : ℕ) × (o ≡ some m) × ((b'0' + m) ∷ [] ≡ expected)
is_digit_text-some none expected h = ground (arith, h)
is_digit_text-some (some m) expected h = (m, refl, (text_eq_iff ((b'0' + m) ∷ []) expected).0 h)

same_digit :
    (m n : ℕ) (expected : Text) → (b'0' + m) ∷ [] ≡ expected → (b'0' + n) ∷ [] ≡ expected → m ≡ n
same_digit m n expected h k = ground (arith, h, k)

compute_check_digit-some :
    (value : Text) (m : ℕ)
    → compute_check_digit value ≡ some m
    → (s : ℕ) × (weighted_sum 0 value ≡ some s) × (s % 10 ≡ m)
unfolding compute_check_digit
compute_check_digit-some value m h = last_digit-some (weighted_sum 0 value) m h

compute_check_digit-apart :
    (xs ys : Text) (c d m : ℕ)
    → is_digit c ≡ true
    → is_digit d ≡ true
    → compute_check_digit (xs ++ c ∷ ys) ≡ some m
    → compute_check_digit (xs ++ d ∷ ys) ≡ some m
    → c ≡ d
compute_check_digit-apart xs ys c d m c_is d_is h k =
    let (s, s_is, s_m) = compute_check_digit-some (xs ++ c ∷ ys) m h in
    let (t, t_is, t_m) = compute_check_digit-some (xs ++ d ∷ ys) m k in
    weighted_sum-apart xs ys c d 0 s t c_is d_is s_is t_is (s_m ∙ sym t_m)

check_matches-digit :
    (value expected : Text)
    → check_matches value expected ≡ true
    → (m : ℕ) × (compute_check_digit value ≡ some m) × ((b'0' + m) ∷ [] ≡ expected)
unfolding check_matches
check_matches-digit value expected h = is_digit_text-some (compute_check_digit value) expected h

-- A check digit that matches a text matches none that differs from it in one decimal digit.
pub check_matches-misread :
    (xs ys : Text) (c d : ℕ) (expected : Text)
    → is_digit c ≡ true
    → is_digit d ≡ true
    → c ≢ d
    → check_matches (xs ++ c ∷ ys) expected ≡ true
    → check_matches (xs ++ d ∷ ys) expected ≡ false
check_matches-misread xs ys c d expected c_is d_is apart h =
    elim (Bool-cases (check_matches (xs ++ d ∷ ys) expected)) [
      | inl k ↦
          let (m, m_is, m_text) = check_matches-digit (xs ++ c ∷ ys) expected h in
          let (n, n_is, n_text) = check_matches-digit (xs ++ d ∷ ys) expected k in
          let same : compute_check_digit (xs ++ d ∷ ys) ≡ some m =
            n_is ∙ (λ i. some (same_digit n m expected n_text m_text i)) in
          absurd (apart (compute_check_digit-apart xs ys c d m c_is d_is m_is same))
      | inr k ↦ k
    ]
