-- ===== src/Statement/Colons.antt =====
-- Splitting at colons and joining with them.
use housegate.Base.{
  ℕ, ◌≡◌, refl, sym, ap, ◌∙◌, Bool, true, false, not, ◌&&◌, List, [], ◌∷◌, ◌++◌, arith, ◌==◌,
  if_ind, Bytes,
}
use housegate.Statement.{colon, onto_first, split_colons, all_digits, all_hex}

-- The segments with a colon between each two.
unfoldable pub join_colons : List Bytes → Bytes
join_colons [] = []
join_colons (x ∷ []) = x
join_colons (x ∷ y ∷ ys) = x ++ colon ∷ join_colons (y ∷ ys)

join_colons-onto_first :
    (b : ℕ) (xs : List Bytes) → join_colons (onto_first b xs) ≡ b ∷ join_colons xs
unfolding join_colons
join_colons-onto_first b [] = refl
join_colons-onto_first b (x ∷ []) = refl
join_colons-onto_first b (x ∷ y ∷ ys) = refl

-- A split has a first segment.
split_cons : (s : Bytes) → (x : Bytes) × (xs : List Bytes) × (split_colons s ≡ x ∷ xs)
unfolding split_colons
split_cons [] = ([], [], refl)
split_cons (b ∷ s) =
    if_ind (λ r. (x : Bytes) × (xs : List Bytes) × (r ≡ x ∷ xs)) (b == colon)
      (λ _. ([], split_colons s, refl)) (λ _. go (split_colons s))
  where
    go : (r : List Bytes) → (x : Bytes) × (xs : List Bytes) × (onto_first b r ≡ x ∷ xs)
    go [] = (b ∷ [], [], refl)
    go (x ∷ xs) = (b ∷ x, xs, refl)

join_colons-empty :
    (s : Bytes) → join_colons ([] ∷ split_colons s) ≡ colon ∷ join_colons (split_colons s)
unfolding join_colons
join_colons-empty s =
    let (x, xs, e) = split_cons s in
    ap (λ r. join_colons ([] ∷ r)) e ∙ ap (λ r. colon ∷ join_colons r) (sym e)

-- Joining undoes splitting.
pub join_colons-split_colons : (s : Bytes) → join_colons (split_colons s) ≡ s
unfolding split_colons join_colons
join_colons-split_colons [] = refl
join_colons-split_colons (b ∷ s) =
    let rest = join_colons-split_colons s in
    if_ind (λ r. join_colons r ≡ b ∷ s) (b == colon)
      (λ e. join_colons-empty s ∙ ap (λ r. colon ∷ r) rest ∙ ap (λ c. c ∷ s) (sym (same b e)))
      (λ _. join_colons-onto_first b (split_colons s) ∙ ap (λ r. b ∷ r) rest)
  where
    same : (c : ℕ) → (c == colon) ≡ true → c ≡ colon
    same c e = ground (arith, e)

-- No colon in it.
unfoldable pub has_no_colon : Bytes → Bool
has_no_colon [] = true
has_no_colon (b ∷ bs) = not (b == colon) && has_no_colon bs

pub split_colons-one : (s : Bytes) → has_no_colon s ≡ true → split_colons s ≡ s ∷ []
unfolding split_colons has_no_colon
split_colons-one [] h = refl
split_colons-one (b ∷ s) h =
    let rest : has_no_colon s ≡ true = ground (arith, h) in
    let other : (b == colon) ≡ false = ground (arith, h) in
    rw other (ap (onto_first b) (split_colons-one s rest))

pub split_colons-append :
    (s r : Bytes) → has_no_colon s ≡ true → split_colons (s ++ colon ∷ r) ≡ s ∷ split_colons r
unfolding split_colons has_no_colon
split_colons-append [] r h = refl
split_colons-append (b ∷ s) r h =
    let rest : has_no_colon s ≡ true = ground (arith, h) in
    let other : (b == colon) ≡ false = ground (arith, h) in
    rw other (ap (onto_first b) (split_colons-append s r rest))

pub has_no_colon-digits : (s : Bytes) → all_digits s ≡ true → has_no_colon s ≡ true
unfolding has_no_colon all_digits
has_no_colon-digits [] h = refl
has_no_colon-digits (b ∷ s) h =
    let rest : all_digits s ≡ true = ground (arith, h) in
    let free = has_no_colon-digits s rest in ground (arith, h, free)

pub has_no_colon-hex : (s : Bytes) → all_hex s ≡ true → has_no_colon s ≡ true
unfolding has_no_colon all_hex
has_no_colon-hex [] h = refl
has_no_colon-hex (b ∷ s) h =
    let rest : all_hex s ≡ true = ground (arith, h) in
    let free = has_no_colon-hex s rest in ground (arith, h, free)
