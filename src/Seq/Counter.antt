-- ===== src/Seq/Counter.antt =====
-- `SeqCounter` of pkg/plugins/sistatement/seq.go: the durable per-account source of client_seq. A
-- method returns its result and the counter with what it wrote to the two files, errors included.
-- The mutex makes each method one step.
pub mod Sound
pub mod Taking
pub mod Giving
pub mod Reopen
pub mod History
mod Examples
use housegate.Base.{
  ℕ, zero, suc, ◌+◌, ◌-◌, ◌%◌, ◌^◌, ◌≡◌, Bool, true, false, not, Option, none, some, List, [], ◌∷◌,
  Result, ok, err, ltb, leb, ◌==◌, if◌then◌else◌, ◌||◌, length, take,
}
use housegate.Durable.{Faults, WriteError, File, write_durable}
use housegate.Seq.FreeList.{max_free_seqs, search, found_at, insert_at, ascending_below}

-- `^uint64(0)`, and the word's modulus.
abbrev pub u64_mod : ℕ
u64_mod = 2 ^ 64

abbrev pub max_u64 : ℕ
max_u64 = u64_mod - 1

pub data SeqError : Type 0 where
  closed exhausted reused never_issued already_free : SeqError
  write_failed : WriteError → SeqError

pub data LoadError : Type 0 where
  locked lock_failed read_failed corrupt_seq corrupt_free bad_version too_many not_ascending :
      LoadError

-- What `<account>.seq` holds: a decimal number, of any size, or text that is none.
pub data SeqText : Type 0 where
  garbled : SeqText
  decimal : ℕ → SeqText

-- What `<account>.seq.free` holds: a JSON document, or what `json.Unmarshal` refuses.
pub data FreeText : Type 0 where
  undecodable : FreeText
  document : ℕ → List ℕ → FreeText

-- `unlock` and the paths have no state of their own; the files are the state they name.
pub record SeqCounter : Type 0 where
  pub closed : Bool
  pub last : ℕ  -- uint64
  pub free : List ℕ
  pub seq_file : File SeqText
  pub free_file : File FreeText

-- `persistLocked`: `last` moves only after a durable write.
unfoldable pub persist_locked : Faults → SeqCounter → ℕ → Option SeqError × SeqCounter
persist_locked s c next =
    let (file, e) = write_durable s c.seq_file (decimal next) in
    elim e [
      | some w ↦ (some (write_failed w), record c { seq_file = file })
      | none ↦ (none, record c { seq_file = file; last = next })
    ]

-- `persistFreeLocked`
unfoldable pub persist_free_locked : Faults → SeqCounter → List ℕ → Option SeqError × SeqCounter
persist_free_locked s c free =
    let (file, e) = write_durable s c.free_file (document 1 free) in
    elim e [
      | some w ↦ (some (write_failed w), record c { free_file = file })
      | none ↦ (none, record c { free_file = file; free = free })
    ]

-- `ReserveSupplied`; `AdvanceTo` is the same method.
unfoldable pub reserve_supplied : Faults → SeqCounter → ℕ → Option SeqError × SeqCounter
reserve_supplied s c seq =
    if c.closed
    then (some SeqError.closed, c)
    else if seq == max_u64
    then (some exhausted, c)
    else if leb seq c.last
    then (some reused, c)
    else persist_locked s c seq

-- The value of an operation that may have failed, beside the state it left.
abbrev pub yield_value {ℓ κ} :
    {E : Type ℓ} {A : Type ℓ} {S : Type κ} → A → Option E × S → Result E A × S
yield_value a r = (elim r.0 [ none ↦ ok a | some e ↦ err e ], r.1)

-- `Reserve` on a counter with something on its free list.
unfoldable pub reserve_free : Faults → SeqCounter → List ℕ → Result SeqError ℕ × SeqCounter
reserve_free s c (seq ∷ rest) = yield_value seq (persist_free_locked s c rest)
reserve_free s c [] =
    if c.last == max_u64
    then (err exhausted, c)
    else let next = (c.last + 1) % u64_mod in yield_value next (persist_locked s c next)

-- `Reserve`; `Next` is the same method.
unfoldable pub reserve : Faults → SeqCounter → Result SeqError ℕ × SeqCounter
unfolding reserve_free
reserve s c = if c.closed then (err SeqError.closed, c) else reserve_free s c c.free

-- `Release`: the flag says that the largest entry was dropped.
unfoldable pub release : Faults → SeqCounter → ℕ → Result SeqError Bool × SeqCounter
release s c seq =
    let idx = search seq c.free in
    let next = insert_at seq idx c.free in
    let overflow = ltb max_free_seqs (length next) in
    let kept = if overflow then take max_free_seqs next else next in
    if c.closed
    then (err SeqError.closed, c)
    else if seq == 0 || ltb c.last seq
    then (err never_issued, c)
    else if found_at seq idx c.free
    then (err already_free, c)
    else yield_value overflow (persist_free_locked s c kept)

-- `Close`
unfoldable pub close : SeqCounter → SeqCounter
close c = record c { closed = true }

-- `load`: the first file, then the second against the number that the first gave. `reads` says
-- which of the two `os.ReadFile` calls succeed on a file that is there.
unfoldable pub load_last : Bool → Option SeqText → Result LoadError ℕ
load_last reads none = ok 0
load_last reads (some garbled) = err (if reads then corrupt_seq else read_failed)
load_last reads (some (decimal n)) =
    if not reads then err read_failed else if leb u64_mod n then err corrupt_seq else ok n

unfoldable pub load_free : Bool → ℕ → Option FreeText → Result LoadError (List ℕ)
load_free reads last none = ok []
load_free reads last (some undecodable) = err (if reads then corrupt_free else read_failed)
load_free reads last (some (document version free)) =
    if not reads
    then err read_failed
    else if not (version == 1)
    then err bad_version
    else if ltb max_free_seqs (length free)
    then err too_many
    else if ascending_below (suc last) none free
    then ok free
    else err not_ascending

pub record Reads : Type 0 where
  pub seq_reads : Bool
  pub free_reads : Bool

abbrev with_free :
    File SeqText → File FreeText → ℕ → Result LoadError (List ℕ) → Result LoadError SeqCounter
with_free sf ff last (err e) = err e
with_free sf ff last (ok free) =
    ok (record { closed = false; last = last; free = free; seq_file = sf; free_file = ff })

abbrev load_rest :
    Reads → File SeqText → File FreeText → Result LoadError ℕ → Result LoadError SeqCounter
load_rest r sf ff (err e) = err e
load_rest r sf ff (ok last) = with_free sf ff last (load_free r.free_reads last ff.visible)

unfoldable pub load : Reads → File SeqText → File FreeText → Result LoadError SeqCounter
unfolding load_last load_free
load r sf ff = load_rest r sf ff (load_last r.seq_reads sf.visible)

-- The outcome of `lockFile`: an exclusive flock, or why there is none.
pub data LockOutcome : Type 0 where
  granted held_elsewhere broken : LockOutcome

-- `OpenSeqCounter`, once its directory and account are there. A refused load gives the lock back.
unfoldable pub open_seq_counter :
    LockOutcome → Reads → File SeqText → File FreeText → Result LoadError SeqCounter
unfolding load
open_seq_counter granted r sf ff = load r sf ff
open_seq_counter held_elsewhere r sf ff = err locked
open_seq_counter broken r sf ff = err lock_failed
