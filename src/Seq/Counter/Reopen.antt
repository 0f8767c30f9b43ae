-- ===== src/Seq/Counter/Reopen.antt =====
-- Opening a counter from what a restart may read (`OpenSeqCounter` and `load` of seq.go).
use housegate.Base.{
  ℕ, suc, ◌≤◌, ◌<◌, ◌≡◌, refl, subst, ◌∙◌, Bool, true, false, Option, none, some, List, [], arith,
  Result, ok, err, All, Apart,
}
use housegate.Durable.{File, candidates}
use housegate.Seq.FreeList.{
  IsFreeList, IsFreeList-mono, nil-IsFreeList, ascending_below_complete, ascending_below_first,
}
use housegate.Seq.Counter.{
  SeqCounter, SeqText, garbled, decimal, FreeText, undecodable, document, u64_mod, Reads, LoadError,
  load_last, load_free, with_free, load_rest, open_seq_counter, granted,
}
use housegate.Seq.Counter.Sound.{SeqOk, FreeOk, IsSound}

-- What the two files give, whichever of their possible contents is read.
module _ (floor : ℕ) where
  load_last-ge :
      (reads : Bool) (o : Option SeqText) {n : ℕ}
      → SeqOk floor o
      → load_last reads o ≡ ok n
      → (floor ≤ n) × (n < u64_mod)
  unfolding load_last
  load_last-ge reads none h e = ground arith
  load_last-ge reads (some garbled) h e = absurd h
  load_last-ge reads (some (decimal m)) h e = ground arith

  load_free-good :
      (reads : Bool) (last : ℕ) (held : List ℕ) (o : Option FreeText) {xs : List ℕ}
      → FreeOk floor held o
      → load_free reads last o ≡ ok xs
      → IsFreeList (suc floor) xs × Apart xs held
  unfolding load_free
  load_free-good reads last held none {xs} h e =
      let same : [] ≡ xs = cc in
      subst (λ zs. IsFreeList (suc floor) zs × Apart zs held) same (nil-IsFreeList (suc floor), tt)
  load_free-good reads last held (some undecodable) h e = absurd h
  load_free-good reads last held (some (document v ys)) h e =
      let same : ys ≡ _ = ground arith in
      subst (λ zs. IsFreeList (suc floor) zs × Apart zs held) same (h.1, h.2)

  load_last-total :
      (o : Option SeqText) → SeqOk floor o → (n : ℕ) × (load_last true o ≡ ok n) × (floor ≤ n)
  unfolding load_last
  load_last-total none h = (0, refl, omega arith)
  load_last-total (some garbled) h = absurd h
  load_last-total (some (decimal n)) h = (n, ground arith, h.0)

  load_free-total :
      (last : ℕ) (held : List ℕ) (o : Option FreeText)
      → floor ≤ last
      → FreeOk floor held o
      → (xs : List ℕ) × (load_free true last o ≡ ok xs)
  unfolding load_free
  load_free-total last held none le h = ([], refl)
  load_free-total last held (some undecodable) le h = absurd h
  load_free-total last held (some (document v xs)) le h =
      let good = IsFreeList-mono (suc floor) (suc last) xs (omega arith) h.1 in
      let ascends =
        ascending_below_first (suc last) xs
        ∙ ascending_below_complete (suc last) 0 xs good.ascends good.below in
      (xs, ground (arith, good.short, h.0))

abbrev counter_of : File SeqText → File FreeText → ℕ → List ℕ → SeqCounter
counter_of sf ff last free = record {
  closed = false;
  last = last;
  free = free;
  seq_file = sf;
  free_file = ff;
}

with_free-inversion :
    (sf : File SeqText) (ff : File FreeText) (n : ℕ) (y : Result LoadError (List ℕ))
    {c : SeqCounter}
    → with_free sf ff n y ≡ ok c
    → (xs : List ℕ) × (y ≡ ok xs) × (counter_of sf ff n xs ≡ c)
with_free-inversion sf ff n (err e) h = cc
with_free-inversion sf ff n (ok xs) h = (xs, refl, cc)

load_rest-inversion :
    (r : Reads) (sf : File SeqText) (ff : File FreeText) (x : Result LoadError ℕ) {c : SeqCounter}
    → load_rest r sf ff x ≡ ok c
    → (n : ℕ) × (xs : List ℕ) × (x ≡ ok n)
      × (load_free r.free_reads n ff.visible ≡ ok xs)
      × (counter_of sf ff n xs ≡ c)
load_rest-inversion r sf ff (err e) h = cc
load_rest-inversion r sf ff (ok n) h =
    let (xs, e, s) = with_free-inversion sf ff n (load_free r.free_reads n ff.visible) h in
    (n, xs, refl, e, s)

-- A counter that an open returns is as sound as the files were, for the same holders.
module _ (floor : ℕ) (held : List ℕ) (sf : File SeqText) (ff : File FreeText) where
  pub open-IsSound :
      (r : Reads) {c : SeqCounter}
      → All (SeqOk floor) (candidates sf)
      → All (FreeOk floor held) (candidates ff)
      → All (λ h. h ≤ floor) held
      → open_seq_counter granted r sf ff ≡ ok c
      → IsSound held c
  unfolding open_seq_counter
  open-IsSound r seqs frees issued h =
      let (n, xs, e, e', same) = load_rest-inversion r sf ff (load_last r.seq_reads sf.visible) h in
      let (ge, fits) = load_last-ge floor r.seq_reads sf.visible seqs.0 e in
      let (good, apart) = load_free-good floor r.free_reads n held ff.visible frees.0 e' in
      subst (IsSound held) same (record {
        floor = floor;
        floor_le = ge;
        last_fits = fits;
        seqs = seqs;
        frees = frees;
        free_list = good;
        free_apart = apart;
        held_issued = issued;
      })

  pub open-total :
      SeqOk floor sf.visible
      → FreeOk floor held ff.visible
      → (c : SeqCounter) × (open_seq_counter granted
            (record { seq_reads = true; free_reads = true })
            sf
            ff
          ≡ ok c)
  unfolding open_seq_counter
  open-total h k =
      let (n, e, ge) = load_last-total floor sf.visible h in
      let (xs, e') = load_free-total floor n held ff.visible ge k in
      (counter_of sf ff n xs, rw (e, e') refl)
