-- ===== src/Seq/Counter/History.antt =====
-- Whole lives of an account's client_seq files: calls with any failures, restarts of the process, and
-- crashes that undo renames. A caller holds a seq from the call that returned it until the call that
-- releases it.
use mathlib.Core.List.{Memᴰ}
use housegate.Base.{
  ℕ, ◌≤◌, ◌<◌, ◌≡◌, refl, subst, sym, true, false, Option, none, some, List, [], ◌∷◌, arith, ok,
  inl, inr, All, All-mono, NotIn, without,
}
use housegate.Durable.{Faults, File, candidates}
use housegate.Seq.FreeList.{nil-IsFreeList}
use housegate.Seq.Counter.{
  SeqCounter, SeqText, FreeText, SeqError, u64_mod, Reads, reserve_supplied, reserve, release,
  close, open_seq_counter, granted,
}
use housegate.Seq.Counter.Reopen.{open-IsSound, open-total}
use housegate.Seq.Counter.Sound.{SeqOk, FreeOk, IsSound}
use housegate.Seq.Counter.Taking.{handed, reserve-IsSound, reserve-fresh, reserve_supplied-IsSound}
use housegate.Seq.Counter.Giving.{release-IsSound, close-IsSound}

pub record World : Type 0 where
  pub counter : SeqCounter
  pub held : List ℕ

-- The files of an account that never had a counter.
abbrev pub no_file {ℓ} : {A : Type ℓ} → File A
no_file = record { visible = none; stale = [] }

abbrev pub fresh_world : World
fresh_world = record {
  counter = record { closed = false; last = 0; free = []; seq_file = no_file; free_file = no_file };
  held = [];
}

abbrev pub settled {ℓ} : {A : Type ℓ} → Option A → File A
settled content = record { visible = content; stale = [] }

abbrev pub supplied : Option SeqError → ℕ → List ℕ → List ℕ
supplied none seq held = seq ∷ held
supplied (some e) seq held = held

pub data Step (w : World) : World → Type 0 where
  reserves :
      (f : Faults)
      → Step w (record {
        counter = (reserve f w.counter).1;
        held = handed (reserve f w.counter).0 w.held;
      })
  supplies :
      (f : Faults) (seq : ℕ)
      → seq < u64_mod
      → Step w (record {
        counter = (reserve_supplied f w.counter seq).1;
        held = supplied (reserve_supplied f w.counter seq).0 seq w.held;
      })
  releases :
      (f : Faults) (seq : ℕ)
      → Memᴰ seq w.held
      → Step w (record { counter = (release f w.counter seq).1; held = without seq w.held })
  closes : Step w (record w { counter = close w.counter })
  -- the process ends, with or without `Close`, and another one opens the same files
  restarts :
      (r : Reads) (c : SeqCounter)
      → open_seq_counter granted r w.counter.seq_file w.counter.free_file ≡ ok c
      → Step w (record w { counter = c })
  -- the machine stops, and each file comes back with any content that it may have
  crashes :
      (r : Reads) (s : Option SeqText) (t : Option FreeText) (c : SeqCounter)
      → Memᴰ s (candidates w.counter.seq_file)
      → Memᴰ t (candidates w.counter.free_file)
      → open_seq_counter granted r (settled s) (settled t) ≡ ok c
      → Step w (record w { counter = c })

pub data Reach (w : World) : World → Type 0 where
  here : Reach w w
  next : {u v : World} → Reach w u → Step u v → Reach w v

lookup-All {ℓ κ} : {A : Type ℓ} (P : A → Type κ) {x : A} {xs : List A} → Memᴰ x xs → All P xs → P x
lookup-All P (Memᴰ.head e) h = subst P (sym e) h.0
lookup-All P (Memᴰ.tail m) h = lookup-All P m h.1

Step-IsSound : {u v : World} → Step u v → IsSound u.held u.counter → IsSound v.held v.counter
Step-IsSound {u} (reserves f) s = reserve-IsSound f u.held u.counter s
Step-IsSound {u} (supplies f seq fits) s =
    elim (reserve_supplied-IsSound f u.held u.counter s seq fits) [
      | inl (e, h, _) ↦ rw e h
      | inr (w, e, h) ↦ rw e h
    ]
Step-IsSound {u} (releases f seq m) s =
    release-IsSound f u.held u.counter s seq (lookup-All (λ h. h ≤ s.floor) m s.held_issued)
Step-IsSound {u} closes s = close-IsSound u.held u.counter s
Step-IsSound {u} (restarts r c e) s =
    open-IsSound s.floor u.held _ _ r s.seqs s.frees s.held_issued e
Step-IsSound {u} (crashes r x y c m k e) s =
    open-IsSound s.floor u.held (settled x) (settled y) r (lookup-All (SeqOk s.floor) m s.seqs, tt)
      (lookup-All (FreeOk s.floor u.held) k s.frees, tt) s.held_issued e

fresh-IsSound : IsSound [] fresh_world.counter
fresh-IsSound = record {
  floor = 0;
  floor_le = omega arith;
  last_fits = omega arith;
  seqs = (refl, tt);
  frees = (tt, tt);
  free_list = nil-IsFreeList 1;
  free_apart = tt;
  held_issued = tt;
}

Reach-IsSound : {w : World} → Reach fresh_world w → IsSound w.held w.counter
Reach-IsSound here = fresh-IsSound
Reach-IsSound (next r st) = Step-IsSound st (Reach-IsSound r)

module _ {w : World} (r : Reach fresh_world w) where
  -- After any calls, write failures, restarts and crashes from the account's first use, a seq that
  -- `Reserve` returns is not zero and is held by no caller.
  pub reserve_never_repeats :
      (f : Faults) (n : ℕ) → (reserve f w.counter).0 ≡ ok n → NotIn n w.held × (0 < n)
  reserve_never_repeats f n = reserve-fresh f w.held w.counter (Reach-IsSound r) n

  -- After any calls, write failures, restarts and crashes from the account's first use, a seq (a
  -- uint64) that `ReserveSupplied` accepts is held by no caller.
  pub reserve_supplied_never_repeats :
      (f : Faults) (seq : ℕ)
      → seq < u64_mod
      → (reserve_supplied f w.counter seq).0 ≡ none
      → NotIn seq w.held
  reserve_supplied_never_repeats f seq fits e =
      elim (reserve_supplied-IsSound f w.held w.counter (Reach-IsSound r) seq fits) [
        | inl (_, _, h) ↦ h
        | inr (x, e', _) ↦ cc
      ]

  -- After any calls, write failures, restarts and crashes from the account's first use: whatever a
  -- crash then leaves of the two files, a counter whose reads succeed opens again, with a high
  -- watermark no lower than any held seq.
  pub recovery :
      (s : Option SeqText) (t : Option FreeText)
      → Memᴰ s (candidates w.counter.seq_file)
      → Memᴰ t (candidates w.counter.free_file)
      → (c : SeqCounter) × (open_seq_counter granted
            (record { seq_reads = true; free_reads = true })
            (settled s)
            (settled t)
          ≡ ok c)
        × All (λ h. h ≤ c.last) w.held
  recovery s t m k =
      let sound = Reach-IsSound r in
      let seq = lookup-All (SeqOk sound.floor) m sound.seqs in
      let free = lookup-All (FreeOk sound.floor w.held) k sound.frees in
      let (c, e) = open-total sound.floor w.held (settled s) (settled t) seq free in
      let again =
        open-IsSound sound.floor w.held (settled s) (settled t) _ (seq, tt) (free, tt)
          sound.held_issued e in
      (c, e, All-mono (λ h le. omega (arith, again.floor_le)) w.held again.held_issued)
