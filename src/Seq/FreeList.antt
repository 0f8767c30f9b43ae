-- ===== src/Seq/FreeList.antt =====
-- The free list of a client_seq store (pkg/plugins/sistatement/seq.go, lanepool.go): ascending seqs
-- that were issued and given back. `sort.Search` and `slices.BinarySearch` return the first index
-- whose entry is at least the key, which on an ascending list a scan finds too.
use mathlib.Core.List.{head?}
use housegate.Base.{
  ℕ, zero, suc, ◌≤◌, ◌<◌, ◌≡◌, refl, Bool, true, false, ◌||◌, Option, none, some, List, [], ◌∷◌,
  ◌++◌, arith, leb, ◌==◌, if◌then◌else◌, if_ind, le_of_ltb-false, ltb, Apart, Bool-cases, inl, inr,
  length, take, drop, All, All-mono, All-take, NotIn, AscendsFrom, AscendsFrom-take,
  AscendsFrom-lower, AscendsFrom-NotIn, length-take-le,
}

abbrev pub max_free_seqs : ℕ
max_free_seqs = 64

-- The least index whose entry is at least `seq`, the length if there is none.
unfoldable pub search : ℕ → List ℕ → ℕ
search seq [] = 0
search seq (x ∷ xs) = if leb seq x then 0 else suc (search seq xs)

-- `idx < len(free) && free[idx] == seq`
unfoldable pub found_at : ℕ → ℕ → List ℕ → Bool
found_at seq idx xs = elim (head? (drop idx xs)) [ none ↦ false | some x ↦ x == seq ]

unfoldable pub insert_at : ℕ → ℕ → List ℕ → List ℕ
insert_at seq idx xs = take idx xs ++ seq ∷ drop idx xs

-- The loop of `load` and of `readLaneFile` over the free list: every entry non-zero, below the bound,
-- and above the one before it. `prev` is `none` at index 0.
unfoldable pub ascending_below : ℕ → Option ℕ → List ℕ → Bool
ascending_below bound prev [] = true
ascending_below bound prev (x ∷ xs) =
    let out_of_order : Bool = elim prev [ none ↦ false | some p ↦ leb x p ] in
    if x == 0 || leb bound x || out_of_order then false else ascending_below bound (some x) xs

-- What a free list of seqs below `bound` satisfies.
pub record IsFreeList (bound : ℕ) (xs : List ℕ) : Type 0 where
  pub ascends : AscendsFrom 0 xs
  pub below : All (λ x. x < bound) xs
  pub short : length xs ≤ max_free_seqs

pub nil-IsFreeList : (bound : ℕ) → IsFreeList bound []
nil-IsFreeList bound = record { ascends = tt; below = tt; short = omega arith }

pub IsFreeList-mono : (b c : ℕ) (xs : List ℕ) → b ≤ c → IsFreeList b xs → IsFreeList c xs
IsFreeList-mono b c xs h f = record {
  ascends = f.ascends;
  below = All-mono (λ x l. omega arith) xs f.below;
  short = f.short;
}

pub tail-IsFreeList : (b x : ℕ) (xs : List ℕ) → IsFreeList b (x ∷ xs) → IsFreeList b xs
tail-IsFreeList b x xs f = record {
  ascends = AscendsFrom-lower x 0 xs (omega arith) f.ascends.1;
  below = f.below.1;
  short = omega (arith, f.short);
}

pub take-IsFreeList :
    (b n : ℕ) (xs : List ℕ)
    → n ≤ max_free_seqs
    → AscendsFrom 0 xs
    → All (λ x. x < b) xs
    → IsFreeList b (take n xs)
take-IsFreeList b n xs h a l = record {
  ascends = AscendsFrom-take n 0 xs a;
  below = All-take (λ x. x < b) n xs l;
  short = omega (arith, length-take-le n xs);
}

-- The head of an ascending list is in none of its tail.
pub head-NotIn : (b x : ℕ) (xs : List ℕ) → IsFreeList b (x ∷ xs) → NotIn x xs
head-NotIn b x xs f = AscendsFrom-NotIn x x xs (omega arith) f.ascends.1

-- Inserting at the index that `search` finds keeps the order, unless the key is already there.
pub insert_at-ascends :
    (seq lo : ℕ) (xs : List ℕ)
    → lo < seq
    → AscendsFrom lo xs
    → found_at seq (search seq xs) xs ≡ false
    → AscendsFrom lo (insert_at seq (search seq xs) xs)
unfolding insert_at search found_at
insert_at-ascends seq lo [] h a f = (h, tt)
insert_at-ascends seq lo (x ∷ xs) h a f = elim (Bool-cases (leb seq x)) [
  | inl e ↦ rw e (h, (ground (arith, rw e at f), a.1))
  | inr e ↦ rw e (a.0, insert_at-ascends seq x xs (ground arith) a.1 (rw e at f))
]

pub insert_at-All {ℓ} :
    (P : ℕ → Type ℓ) (seq idx : ℕ) (xs : List ℕ) → P seq → All P xs → All P (insert_at seq idx xs)
unfolding insert_at
insert_at-All P seq zero xs p a = (p, a)
insert_at-All P seq (suc idx) [] p a = (p, tt)
insert_at-All P seq (suc idx) (x ∷ xs) p a = (a.0, insert_at-All P seq idx xs p a.1)

-- What the loader accepts is a free list, and it accepts every free list.
pub ascending_below_sound :
    (b lo : ℕ) (xs : List ℕ)
    → ascending_below b (some lo) xs ≡ true
    → AscendsFrom lo xs × All (λ x. x < b) xs
unfolding ascending_below
ascending_below_sound b lo [] h = (tt, tt)
ascending_below_sound b lo (x ∷ xs) h =
    let (a, l) = ascending_below_sound b x xs (ground arith) in
    ((ground arith, a), (ground arith, l))

pub ascending_below_complete :
    (b lo : ℕ) (xs : List ℕ)
    → AscendsFrom lo xs
    → All (λ x. x < b) xs
    → ascending_below b (some lo) xs ≡ true
unfolding ascending_below
ascending_below_complete b lo [] a l = refl
ascending_below_complete b lo (x ∷ xs) a l =
    ground (arith, ascending_below_complete b x xs a.1 l.1, a.0, l.0)

-- At index 0 there is no entry before, and a non-zero head plays the part of one above zero.
pub ascending_below_first :
    (b : ℕ) (xs : List ℕ) → ascending_below b none xs ≡ ascending_below b (some 0) xs
unfolding ascending_below
ascending_below_first b [] = refl
ascending_below_first b (x ∷ xs) = ground arith

-- A number that is on no list `xs`, or above all of it, may become held.
pub Apart-hold :
    (a b : ℕ) (xs held : List ℕ) → a ≤ b → All (λ x. x < a) xs → Apart xs held → Apart xs (b ∷ held)
Apart-hold a b [] held h l p = tt
Apart-hold a b (x ∷ xs) held h l p = ((omega (arith, l.0), p.0), Apart-hold a b xs held h l.1 p.1)

pub Apart-grow : (n : ℕ) (xs held : List ℕ) → NotIn n xs → Apart xs held → Apart xs (n ∷ held)
Apart-grow n [] held h p = tt
Apart-grow n (x ∷ xs) held h p = ((omega (arith, h.0), p.0), Apart-grow n xs held h.1 p.1)

-- What a release leaves of a free list: the seq inserted, the largest entry dropped past the cap.
abbrev pub keep : ℕ → List ℕ → List ℕ
keep seq free =
    let next = insert_at seq (search seq free) free in
    if ltb max_free_seqs (length next) then take max_free_seqs next else next

pub keep-IsFreeList :
    (bound seq : ℕ) (free : List ℕ)
    → 0 < seq
    → seq < bound
    → found_at seq (search seq free) free ≡ false
    → IsFreeList bound free
    → IsFreeList bound (keep seq free)
keep-IsFreeList bound seq free pos issued absent good =
    let idx = search seq free in
    let next = insert_at seq idx free in
    let ascends = insert_at-ascends seq 0 free pos good.ascends absent in
    let below = insert_at-All (λ x. x < bound) seq idx free issued good.below in
    if_ind (IsFreeList bound) (ltb max_free_seqs (length next))
      (λ _. take-IsFreeList bound max_free_seqs next (omega arith) ascends below)
      (λ fits. record { ascends = ascends; below = below; short = le_of_ltb-false _ _ fits })

pub keep-All :
    (P : ℕ → Type 0) (seq : ℕ) (free : List ℕ) → P seq → All P free → All P (keep seq free)
keep-All P seq free p all =
    let next = insert_at seq (search seq free) free in
    let inserted = insert_at-All P seq (search seq free) free p all in
    if_ind (All P) (ltb max_free_seqs (length next)) (λ _. All-take P max_free_seqs next inserted)
      (λ _. inserted)
