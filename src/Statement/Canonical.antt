-- ===== src/Statement/Canonical.antt =====
-- `FormatUint` against the parser's decimals.
use housegate.Base.{
  ℕ, zero, suc, ◌+◌, ◌-◌, ◌*◌, ◌/◌, ◌%◌, ◌≡◌, ◌≢◌, ◌<◌, ◌≤◌, refl, sym, ap, ◌∙◌, subst, subst⁻¹,
  Bool, true, false, not, [], ◌∷◌, ◌++◌, arith, leb, ◌==◌, if_ind, length, Bytes, Bool-cases, inl,
  inr,
}
use housegate.Seq.Counter.{u64_mod}
use housegate.Statement.{all_digits, has_leading_zero, value_from, digits_onto, format_uint}
use housegate.Statement.Decimal.{
  power_of_ten, last_digit, more_digits, zero_quotient, positive_quotient, value_from-digits_onto,
  enough_fuel, digits_onto-value_from, value_from-small,
}

append_nil : (xs : Bytes) → xs ++ [] ≡ xs
append_nil [] = refl
append_nil (x ∷ xs) = ap (λ ys. x ∷ ys) (append_nil xs)

u64_fits : (n : ℕ) → n < u64_mod → n < power_of_ten 20
unfolding power_of_ten
u64_fits n h = omega (arith, h)

-- Twenty digits are enough for a uint64, and no more are written than there are.
fuel_is_enough :
    (k n : ℕ)
    → n < u64_mod
    → n < power_of_ten (suc k)
    → digits_onto 20 n [] ≡ digits_onto (suc k) n []
fuel_is_enough k n fits small = elim (Bool-cases (leb k 19)) [
  | inl e ↦ enough_fuel k 19 n [] (ground (arith, e)) small
  | inr e ↦ sym (enough_fuel 19 k n [] (ground (arith, e)) (u64_fits n fits))
]

canonical_from :
    (b : ℕ) (s : Bytes)
    → all_digits (b ∷ s) ≡ true
    → b ≢ 48
    → value_from 0 (b ∷ s) < u64_mod
    → digits_onto 20 (value_from 0 (b ∷ s)) [] ≡ b ∷ s
unfolding value_from all_digits power_of_ten
canonical_from b s h nonzero fits =
    let lower : 48 ≤ b = ground (arith, h) in
    let upper : b ≤ 57 = ground (arith, h) in
    let rest : all_digits s ≡ true = ground (arith, h) in
    let m = 0 * 10 + (b - 48) in
    let n = value_from m s in
    let digits : length s + 1 ≡ suc (length s) = omega arith in
    let small : n < power_of_ten (suc (length s)) =
      subst (λ j. n < power_of_ten j) digits (value_from-small s 1 m rest (omega (arith, upper))) in
    fuel_is_enough (length s) n fits small
    ∙ ap (λ k. digits_onto k n []) (omega arith)
    ∙ digits_onto-value_from s 1 m [] rest (omega (arith, lower, nonzero))
    ∙ last_digit m 0 (s ++ []) (omega (arith, upper))
    ∙ ap (λ d. d ∷ s ++ []) (omega (arith, lower, upper))
    ∙ ap (λ xs. b ∷ xs) (append_nil s)

-- Writing the number of a canonical decimal gives the decimal.
pub format_uint-value_from :
    (s : Bytes)
    → all_digits s ≡ true
    → has_leading_zero s ≡ false
    → 0 < value_from 0 s
    → value_from 0 s < u64_mod
    → format_uint (value_from 0 s) ≡ s
unfolding format_uint value_from
format_uint-value_from [] h canonical pos fits = absurd (omega (arith, pos))
format_uint-value_from (b ∷ []) h canonical pos fits =
    canonical_from b [] h (λ e. omega (arith, e, pos)) fits
format_uint-value_from (b ∷ c ∷ s) h canonical pos fits =
    canonical_from b (c ∷ s) h (λ e. ground (arith, e, canonical)) fits

-- A written number reads back, is made of digits, and leads with no zero.
pub value_from-format_uint : (n : ℕ) → n < u64_mod → value_from 0 (format_uint n) ≡ n
unfolding format_uint value_from
value_from-format_uint n fits = value_from-digits_onto 19 n [] (u64_fits n fits)

all_digits-digits_onto :
    (f n : ℕ) (r : Bytes) → all_digits r ≡ true → all_digits (digits_onto f n r) ≡ true
unfolding digits_onto all_digits
all_digits-digits_onto zero n r h = h
all_digits-digits_onto (suc f) n r h =
    let grown : all_digits ((48 + n % 10) ∷ r) ≡ true = ground (arith, h) in
    if_ind (λ x. all_digits x ≡ true) (n / 10 == 0) (λ _. grown)
      (λ _. all_digits-digits_onto f (n / 10) ((48 + n % 10) ∷ r) grown)

pub all_digits-format_uint : (n : ℕ) → all_digits (format_uint n) ≡ true
unfolding format_uint all_digits
all_digits-format_uint n = all_digits-digits_onto 20 n [] refl

-- The first byte is there and is no zero.
abbrev pub leads : Bytes → Bool
leads [] = false
leads (b ∷ bs) = not (b == 48)

leads-digits_onto :
    (f n : ℕ) (r : Bytes)
    → 0 < n
    → n < power_of_ten (suc f)
    → leads (digits_onto (suc f) n r) ≡ true
unfolding power_of_ten
leads-digits_onto zero n r pos small =
    subst⁻¹ (λ x. leads x ≡ true) (last_digit n zero r (omega (arith, small)))
      (ground (arith, pos, small))
leads-digits_onto (suc f) n r pos small = elim (Bool-cases (n / 10 == 0)) [
  | inl z ↦
      let e = zero_quotient n z in
      subst⁻¹ (λ x. leads x ≡ true) (last_digit n (suc f) r e) (ground (arith, pos, e))
  | inr z ↦
      let e = positive_quotient n z in
      subst⁻¹ (λ x. leads x ≡ true) (more_digits n (suc f) r e)
        (leads-digits_onto f (n / 10) ((48 + n % 10) ∷ r) (omega (arith, e)) (omega (arith, small)))
]

pub leads-format_uint : (n : ℕ) → 0 < n → n < u64_mod → leads (format_uint n) ≡ true
unfolding format_uint
leads-format_uint n pos fits = leads-digits_onto 19 n [] pos (u64_fits n fits)
