-- ===== src/Intake/Safety/History.antt =====
-- Whole lives of a statement: calls of `Orchestrate` with any answers that the ports document, and ends
-- of the process, after which another one reads the journal.
use mathlib.Core.List.{Memᴰ}
use housegate.Base.{
  ◌+◌, ◌%◌, ◌≡◌, refl, sym, subst, subst⁻¹, Bool, false, not, ◌&&◌, Option, none, some, List, [],
  All, All-mono, if_ind, option_ind, arith,
}
use housegate.Durable.{File, candidates}
use housegate.Seq.Counter.{u64_mod}
use housegate.Seq.Counter.History.{settled, no_file}
use housegate.Intake.Records.{
  AdmissionRecord, StatementEnvelope, IntakeRecord, IntakeJournalRecord, journal_record_from,
}
use housegate.Intake.Consistency.{same_statement, zero_candidate_terminal}
use housegate.Intake.World.{Config, Answers, World, Outcome}
use housegate.Intake.Run.{run}
use housegate.Intake.Orchestrate.{
  Node, Published, new_record, loaded_record, world_of, finish_attempt, attempt_with, resume_record,
  after_first_save, create_record, load_or_create, orchestrate,
}
use housegate.Intake.Safety.{RecordOk, restored, FileOk, IsSafe, IsLive}
use housegate.Intake.Safety.Saving.{save_journal_snapshot-ind, stored-All}
use housegate.Intake.Safety.Runs.{Documented, run-IsSafe}

-- What the journal holds of a statement that is not in memory.
abbrev ColdOk : Bool → Option IntakeJournalRecord → Type 0
ColdOk written none = written ≡ false
ColdOk written (some j) = RecordOk written (restored j)

abbrev MemoryOk : Bool → File IntakeJournalRecord → Option IntakeRecord → Type 0
MemoryOk written file none = (file.stale ≡ []) × ColdOk written file.visible
MemoryOk written file (some r) =
    RecordOk written r × All (FileOk written r.prepare_known_unwritten) (candidates file)

record NodeOk (n : Node) : Type 0 where
  undoubled : n.doubled ≡ false
  known : MemoryOk n.written n.journal n.memory

FileOk-cold :
    (written unwritten : Bool) (o : Option IntakeJournalRecord)
    → FileOk written unwritten o
    → ColdOk written o
FileOk-cold written unwritten none h = absurd h
FileOk-cold written unwritten (some j) h = h.0

finish_attempt-NodeOk : (n : Node) (o : Outcome) → IsSafe o.1 → NodeOk (finish_attempt n o).1
finish_attempt-NodeOk n ((res, some e), w) s = record {
  undoubled = s.undoubled;
  known = (s.memory, s.files);
}
finish_attempt-NodeOk n ((res, none), w) s =
    let P : IntakeRecord → Type 0 = λ r.
      RecordOk w.written r
      × All (FileOk w.written r.prepare_known_unwritten) (candidates w.journal) in
    let h = s.memory in
    record {
      undoubled = s.undoubled;
      known =
          if_ind P res.terminal
            (λ _. (
              record {
                covered = λ _. ground arith;
                trusted = h.trusted;
                fenced = h.fenced;
                staged = ground arith;
              },
              s.files,
            ))
            (λ _. (h, s.files));
    }

loaded-files :
    (written : Bool) (file : File IntakeJournalRecord) (j : IntakeJournalRecord)
    → ColdOk written (some j)
    → file.visible ≡ some j
    → file.stale ≡ []
    → All (FileOk written j.prepare_known_unwritten) (candidates file)
loaded-files written file j cold v stale = (
  subst⁻¹ (FileOk written j.prepare_known_unwritten) v (cold, λ e. e),
  subst⁻¹ (λ x. All (FileOk written j.prepare_known_unwritten) x) stale tt,
)

module _ (c : Config) (a : Answers) where
  abbrev Keeps : Published → Type 0
  Keeps p = NodeOk p.1

  attempt_with-NodeOk :
      (gets_frontier : Bool) (n : Node) (w : World)
      → IsLive w
      → Documented c a w.written
      → Keeps (attempt_with c a gets_frontier n w)
  unfolding attempt_with
  attempt_with-NodeOk gets_frontier n w live doc =
      if_ind Keeps gets_frontier
        (λ _. finish_attempt-NodeOk n (run c a w) (run-IsSafe c a w live doc))
        (λ _. record {
          undoubled = live.safe.undoubled;
          known = (live.safe.memory, live.safe.files);
        })

  module _ (gets_frontier : Bool) (env : StatementEnvelope) (adm : AdmissionRecord) (n : Node) where
    resume_record-NodeOk :
        (r : IntakeRecord)
        → NodeOk (record n { memory = some r })
        → Documented c a n.written
        → Keeps (resume_record c a gets_frontier env adm n r)
    unfolding resume_record
    resume_record-NodeOk r s doc =
        if_ind Keeps
          (not (same_statement r.env r.adm env adm r.is_terminal (zero_candidate_terminal r)))
          (λ _. s)
          λ _.
            if_ind Keeps r.is_terminal (λ _. s)
              λ is_open.
                attempt_with-NodeOk gets_frontier n (world_of n r)
                  (record {
                    safe = record {
                      undoubled = s.undoubled;
                      memory = s.known.0;
                      files = s.known.1;
                    };
                    is_open = is_open;
                  })
                  doc

    -- A statement without a file has no write.
    create_record-NodeOk :
        n.doubled ≡ false
        → n.memory ≡ none
        → n.journal.stale ≡ []
        → n.journal.visible ≡ none
        → n.written ≡ false
        → Documented c a n.written
        → Keeps (create_record c a gets_frontier env adm n)
    unfolding create_record
    create_record-NodeOk undoubled e stale absent unwritten doc =
        let ordinal = (n.next_ordinal + 1) % u64_mod in
        let r = new_record c ordinal env adm in
        let n' = record n { next_ordinal = ordinal } in
        let w = world_of n' r in
        let fresh : RecordOk n.written r = record {
          covered = λ h. cc;
          trusted = λ h. unwritten;
          fenced = λ h. refl;
          staged = refl;
        } in
        save_journal_snapshot-ind (λ s. Keeps (after_first_save c a gets_frontier n' s)) c a w
          (journal_record_from r) doc.durable
          (λ file h.
            attempt_with-NodeOk gets_frontier n' (record w { journal = file; saved = 1 })
              (record {
                safe = record {
                  undoubled = undoubled;
                  memory = fresh;
                  files = stored-All c a doc.durable w r refl undoubled fresh r file refl h;
                };
                is_open = refl;
              })
              doc)
          (record {
            undoubled = undoubled;
            known = (stale, subst⁻¹ (ColdOk n.written) absent unwritten);
          })

  load_or_create-NodeOk :
      (loads gets_frontier : Bool) (env : StatementEnvelope) (adm : AdmissionRecord) (n : Node)
      → NodeOk n
      → n.memory ≡ none
      → Documented c a n.written
      → Keeps (load_or_create c a loads gets_frontier env adm n n.journal.visible)
  unfolding load_or_create
  load_or_create-NodeOk loads gets_frontier env adm n s e doc =
      let known = subst (MemoryOk n.written n.journal) e s.known in
      go n.journal.visible refl known.0 known.1
    where
      go :
          (o : Option IntakeJournalRecord)
          → n.journal.visible ≡ o
          → n.journal.stale ≡ []
          → ColdOk n.written o
          → Keeps (load_or_create c a loads gets_frontier env adm n o)
      go none v stale cold =
          if_ind Keeps (c.has_journal && not loads) (λ _. s)
            (λ _. create_record-NodeOk gets_frontier env adm n s.undoubled e stale v cold doc)
      go (some j) v stale cold =
          if_ind Keeps (not c.has_journal)
            (λ no. let on = doc.durable.journaled in ground (arith, no, on))
            λ _.
              if_ind Keeps (not loads) (λ _. s)
                λ _.
                  resume_record-NodeOk gets_frontier env adm _ (loaded_record c j)
                    (record {
                      undoubled = s.undoubled;
                      known = (cold, loaded-files n.written n.journal j cold v stale);
                    })
                    doc

  orchestrate-NodeOk :
      (loads gets_frontier : Bool) (env : StatementEnvelope) (adm : AdmissionRecord) (n : Node)
      → NodeOk n
      → Documented c a n.written
      → Keeps (orchestrate c a loads gets_frontier env adm n)
  unfolding orchestrate
  orchestrate-NodeOk loads gets_frontier env adm n s doc =
      option_ind Keeps n.memory (λ e. load_or_create-NodeOk loads gets_frontier env adm n s e doc)
        (λ r e.
          resume_record-NodeOk gets_frontier env adm n r
            (record {
              undoubled = s.undoubled;
              known = subst (MemoryOk n.written n.journal) e s.known;
            })
            doc)

-- A step of a statement's life under one configuration.
pub data Step (c : Config) (n : Node) : Node → Type 0 where
  calls :
      (a : Answers) (loads gets_frontier : Bool) (env : StatementEnvelope) (adm : AdmissionRecord)
      → Documented c a n.written
      → Step c n (orchestrate c a loads gets_frontier env adm n).1
  -- the process ends, or the machine stops, and the file comes back with a content that it may have
  restarts :
      (o : Option IntakeJournalRecord)
      → Memᴰ o (candidates n.journal)
      → Step c n (record n { memory = none; journal = settled o })

pub data Reach (c : Config) (n : Node) : Node → Type 0 where
  here : Reach c n n
  next : {u v : Node} → Reach c n u → Step c u v → Reach c n v

-- A statement that nobody has heard of.
abbrev pub fresh_node : Node
fresh_node = record {
  memory = none;
  journal = no_file;
  next_ordinal = 0;
  calls = [];
  written = false;
  doubled = false;
}

lookup-All {ℓ κ} : {A : Type ℓ} (P : A → Type κ) {x : A} {xs : List A} → Memᴰ x xs → All P xs → P x
lookup-All P (Memᴰ.head e) h = subst P (sym e) h.0
lookup-All P (Memᴰ.tail m) h = lookup-All P m h.1

MemoryOk-cold :
    (written : Bool) (file : File IntakeJournalRecord) (m : Option IntakeRecord)
    → MemoryOk written file m
    → All (ColdOk written) (candidates file)
MemoryOk-cold written file none h = (h.1, subst⁻¹ (λ x. All (ColdOk written) x) h.0 tt)
MemoryOk-cold written file (some r) h =
    All-mono (FileOk-cold written r.prepare_known_unwritten) (candidates file) h.1

Step-NodeOk : (c : Config) {u v : Node} → Step c u v → NodeOk u → NodeOk v
Step-NodeOk c {u} (calls a loads gets_frontier env adm doc) s =
    orchestrate-NodeOk c a loads gets_frontier env adm u s doc
Step-NodeOk c {u} (restarts o m) s = record {
  undoubled = s.undoubled;
  known =
      (refl, lookup-All (ColdOk u.written) m (MemoryOk-cold u.written u.journal u.memory s.known));
}

Reach-NodeOk : (c : Config) {n : Node} → Reach c fresh_node n → NodeOk n
Reach-NodeOk c here = record { undoubled = refl; known = (refl, refl) }
Reach-NodeOk c (next r st) = Step-NodeOk c st (Reach-NodeOk c r)

-- For a statement that starts fresh, after any calls of `Orchestrate` and any restarts and crashes
-- between them, with a journal on a disk whose directory syncs and ports that answer as they document,
-- the source never made an unsafe write of the statement while it held one.
pub never_writes_twice : (c : Config) {n : Node} → Reach c fresh_node n → n.doubled ≡ false
never_writes_twice c r = (Reach-NodeOk c r).undoubled
