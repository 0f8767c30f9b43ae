-- ===== src/Seq/Lane/Sound.antt =====
-- What holds of a lane between two calls, of its state and of all that its file may hold: the
-- invariant of `LanedStore`, and that every method keeps it.
use housegate.Base.{
  ℕ, ◌<◌, ◌≡◌, ◌≢◌, refl, Option, none, some, List, ◌⊎◌, inl, inr, All, All-mono, Apart,
  All-without, without, Option-cases, Bytes,
}
use housegate.Durable.{
  WriteError, Faults, candidates, write_durable, write_durable-All, write_durable-All_new,
}
use housegate.Seq.FreeList.{IsFreeList}
use housegate.Seq.Counter.{u64_mod}
use housegate.Seq.Lane.{
  LaneFile, LaneText, undecodable, trailing_data, document, LaneError, write_failed, LanedStore,
  lane_file_version, persist,
}

-- A document that the lane may be reopened from while callers hold `held`.
pub record IsGood (lane : Bytes) (held : List ℕ) (d : LaneFile) : Type 0 where
  pub right_version : d.version ≡ lane_file_version
  pub right_lane : d.lane ≡ lane
  pub positive : 0 < d.next
  pub fits : d.next < u64_mod
  pub free_list : IsFreeList d.next d.free
  pub free_apart : Apart d.free held
  pub held_below : All (λ h. h < d.next) held

abbrev pub TextOk : Bytes → List ℕ → Option LaneText → Type 0
TextOk lane held none = ⊥
TextOk lane held (some undecodable) = ⊥
TextOk lane held (some trailing_data) = ⊥
TextOk lane held (some (document d)) = IsGood lane held d

pub record IsSound (lane : Bytes) (held : List ℕ) (s : LanedStore) : Type 0 where
  pub texts : All (TextOk lane held) (candidates s.file)
  pub state : IsGood lane held s.state

pub IsGood-without :
    (lane : Bytes) (n : ℕ) (held : List ℕ) (d : LaneFile)
    → IsGood lane held d
    → IsGood lane (without n held) d
IsGood-without lane n held d g = record {
  right_version = g.right_version;
  right_lane = g.right_lane;
  positive = g.positive;
  fits = g.fits;
  free_list = g.free_list;
  free_apart = All-mono (λ x p. All-without (λ y. y ≢ x) n held p) d.free g.free_apart;
  held_below = All-without (λ h. h < d.next) n held g.held_below;
}

pub TextOk-without :
    (lane : Bytes) (n : ℕ) (held : List ℕ) (o : Option LaneText)
    → TextOk lane held o
    → TextOk lane (without n held) o
TextOk-without lane n held none h = h
TextOk-without lane n held (some undecodable) h = h
TextOk-without lane n held (some trailing_data) h = h
TextOk-without lane n held (some (document d)) h = IsGood-without lane n held d h

module _ (f : Faults) (s : LanedStore) (d : LaneFile) where
  pub persist_ok :
      (write_durable f s.file (document d)).1 ≡ none
      → persist f s d
        ≡ (none, record s { file = (write_durable f s.file (document d)).0; state = d })
  unfolding persist
  persist_ok e = rw (e, persist)

  pub persist_failed :
      {w : WriteError}
      → (write_durable f s.file (document d)).1 ≡ some w
      → persist f s d
        ≡ (some (write_failed w), record s { file = (write_durable f s.file (document d)).0 })
  unfolding persist
  persist_failed e = rw (e, persist)

module _ (f : Faults) (lane : Bytes) (held : List ℕ) (s : LanedStore)
    (sound : IsSound lane held s) where
  open sound use {texts, state as g}

  -- The state becomes `d` for callers that hold `held'`, or nothing but the file changes.
  pub persist-IsSound :
      (d : LaneFile) (held' : List ℕ)
      → IsGood lane held d
      → IsGood lane held' d
      → let (e, s') = persist f s d in
        ((e ≡ none) × IsSound lane held' s')
        ⊎ ((x : LaneError) × (e ≡ some x) × IsSound lane held s')
  unfolding persist
  persist-IsSound d held' good good' = elim (Option-cases (write_durable f s.file (document d)).1) [
    | inl e ↦
        rw (e, persist)
          (inl (
            refl,
            record {
              texts = write_durable-All_new (TextOk lane held') f s.file (document d) e good';
              state = good';
            },
          ))
    | inr (w, e) ↦
        rw (e, persist)
          (inr (
            _,
            refl,
            record {
              texts = write_durable-All (TextOk lane held) f s.file (document d) texts good;
              state = g;
            },
          ))
  ]
