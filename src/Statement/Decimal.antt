-- ===== src/Statement/Decimal.antt =====
-- Decimal digits and numbers: reading undoes writing, and writing undoes the reading of a canonical
-- decimal.
use housegate.Base.{
  ℕ, zero, suc, ◌+◌, ◌-◌, ◌*◌, ◌/◌, ◌%◌, ◌≡◌, ◌≢◌, ◌<◌, ◌≤◌, refl, sym, ap, ◌∙◌, subst, true, false,
  [], ◌∷◌, ◌++◌, arith, ◌==◌, if_ind, length, Bytes, Bool-cases, inl, inr,
}
use housegate.Statement.{all_digits, value_from, digits_onto}

-- The numbers of at most `f` digits are those below it.
unfoldable pub power_of_ten : ℕ → ℕ
power_of_ten zero = 1
power_of_ten (suc f) = 10 * power_of_ten f

module _ (n : ℕ) (f : ℕ) (r : Bytes) where
  pub last_digit : n / 10 ≡ 0 → digits_onto (suc f) n r ≡ (48 + n % 10) ∷ r
  unfolding digits_onto
  last_digit e = rw e

  pub more_digits :
      n / 10 ≢ 0 → digits_onto (suc f) n r ≡ digits_onto f (n / 10) ((48 + n % 10) ∷ r)
  unfolding digits_onto
  more_digits e =
      if_ind (λ x. x ≡ digits_onto f (n / 10) ((48 + n % 10) ∷ r)) (n / 10 == 0)
        (λ z. absurd (e (ground (arith, z)))) (λ _. refl)

pub zero_quotient : (n : ℕ) → (n / 10 == 0) ≡ true → n / 10 ≡ 0
zero_quotient n z = ground (arith, z)

pub positive_quotient : (n : ℕ) → (n / 10 == 0) ≡ false → n / 10 ≢ 0
positive_quotient n z e = ground (arith, z, e)

-- What is written reads back.
pub value_from-digits_onto :
    (f n : ℕ) (r : Bytes)
    → n < power_of_ten (suc f)
    → value_from 0 (digits_onto (suc f) n r) ≡ value_from n r
unfolding value_from power_of_ten
value_from-digits_onto zero n r small =
    let z : n / 10 ≡ 0 = omega (arith, small) in
    ap (value_from 0) (last_digit n zero r z) ∙ ap (λ m. value_from m r) (omega (arith, z))
value_from-digits_onto (suc f) n r small = elim (Bool-cases (n / 10 == 0)) [
  | inl z ↦
      ap (value_from 0) (last_digit n (suc f) r (zero_quotient n z))
      ∙ ap (λ m. value_from m r) (omega (arith, zero_quotient n z))
  | inr z ↦
      ap (value_from 0) (more_digits n (suc f) r (positive_quotient n z))
      ∙ value_from-digits_onto f (n / 10) ((48 + n % 10) ∷ r) (omega (arith, small))
      ∙ ap (λ m. value_from m r) (omega arith)
]

-- Fuel beyond the number of digits changes nothing.
pub enough_fuel :
    (f k n : ℕ) (r : Bytes)
    → f ≤ k
    → n < power_of_ten (suc f)
    → digits_onto (suc k) n r ≡ digits_onto (suc f) n r
unfolding power_of_ten
enough_fuel zero k n r le small =
    let z : n / 10 ≡ 0 = omega (arith, small) in last_digit n k r z ∙ sym (last_digit n zero r z)
enough_fuel (suc f) zero n r le small = absurd (omega (arith, le))
enough_fuel (suc f) (suc k) n r le small = elim (Bool-cases (n / 10 == 0)) [
  | inl z ↦ let e = zero_quotient n z in last_digit n (suc k) r e ∙ sym (last_digit n (suc f) r e)
  | inr z ↦
      let e = positive_quotient n z in
      more_digits n (suc k) r e
      ∙ enough_fuel f k (n / 10) ((48 + n % 10) ∷ r) (omega (arith, le)) (omega (arith, small))
      ∙ sym (more_digits n (suc f) r e)
]

-- The digits behind a number that is not zero come out as they went in.
pub digits_onto-value_from :
    (s : Bytes) (g n : ℕ) (r : Bytes)
    → all_digits s ≡ true
    → 0 < n
    → digits_onto (length s + g) (value_from n s) r ≡ digits_onto g n (s ++ r)
unfolding value_from all_digits
digits_onto-value_from [] g n r h pos = ap (λ k. digits_onto k n r) (omega arith)
digits_onto-value_from (b ∷ s) g n r h pos =
    let lower : 48 ≤ b = ground (arith, h) in
    let upper : b ≤ 57 = ground (arith, h) in
    let rest : all_digits s ≡ true = ground (arith, h) in
    let m = n * 10 + (b - 48) in
    ap (λ k. digits_onto k (value_from m s) r) (omega arith)
    ∙ digits_onto-value_from s (suc g) m r rest (omega (arith, pos))
    ∙ more_digits m g (s ++ r) (λ e. omega (arith, e, pos))
    ∙ ap (λ q. digits_onto g q ((48 + m % 10) ∷ s ++ r)) (omega (arith, lower, upper))
    ∙ ap (λ d. digits_onto g n (d ∷ s ++ r)) (omega (arith, lower, upper))

pub value_from-small :
    (s : Bytes) (k n : ℕ)
    → all_digits s ≡ true
    → n < power_of_ten k
    → value_from n s < power_of_ten (length s + k)
unfolding value_from all_digits power_of_ten
value_from-small [] k n h small = subst (λ j. n < power_of_ten j) (omega arith) small
value_from-small (b ∷ s) k n h small =
    let upper : b ≤ 57 = ground (arith, h) in
    let rest : all_digits s ≡ true = ground (arith, h) in
    let below = value_from-small s (suc k) (n * 10 + (b - 48)) rest (omega (arith, upper, small)) in
    subst (λ j. value_from (n * 10 + (b - 48)) s < power_of_ten j) (omega arith) below
