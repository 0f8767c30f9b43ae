-- ===== src/Chain/Exceptions.antt =====
-- What an exception does in a chain: no error keeps a later plugin from running, and the first error
-- is the one returned.
use mathlib.Core.List.{map}
use housegate.Base.{
  ◌≡◌, refl, Bool, Option, none, some, List, [], ◌∷◌, ◌++◌, Bool-cases, inl, inr, ◌∙◌,
}
use housegate.Session.{SessionState}
use housegate.Chain.Filter.{Markers, Plugin, kept_error, first_error, run_every}
use housegate.Chain.Stages.{on_exception, on_session_event, query_filter}

-- The same plugin with its error dropped.
abbrev pub forget {ℓ κ} : {S : Type ℓ} {Err : Type κ} → Plugin (S → Option Err × S) → Plugin (S → S)
forget p = record { markers = p.markers; hook = λ s. (p.hook s).1 }

module _ {ℓ κ} {S : Type ℓ} {Err : Type κ} (skips : S → Markers → Bool) where
  first_error-run_every :
      (first : Option Err) (ps : List (Plugin (S → Option Err × S))) (s : S)
      → (first_error skips first ps s).1 ≡ run_every skips (map forget ps) s
  unfolding first_error run_every
  first_error-run_every first [] s = refl
  first_error-run_every first (p ∷ ps) s = elim (Bool-cases (skips s p.markers)) [
    | inl e ↦ simp e (first_error-run_every first ps s)
    | inr e ↦ simp e (first_error-run_every (kept_error first (p.hook s).0) ps (p.hook s).1)
  ]

  first_error-keeps :
      (x : Err) (ps : List (Plugin (S → Option Err × S))) (s : S)
      → (first_error skips (some x) ps s).0 ≡ some x
  unfolding first_error
  first_error-keeps x [] s = refl
  first_error-keeps x (p ∷ ps) s = elim (Bool-cases (skips s p.markers)) [
    | inl e ↦ simp e (first_error-keeps x ps s)
    | inr e ↦ simp e (first_error-keeps x ps (p.hook s).1)
  ]

  first_error-append :
      (x : Err) (first : Option Err) (xs ys : List (Plugin (S → Option Err × S))) (s : S)
      → (first_error skips first xs s).0 ≡ some x
      → (first_error skips first (xs ++ ys) s).0 ≡ some x
  unfolding first_error
  first_error-append x none [] ys s h = cc
  first_error-append x (some y) [] ys s h = first_error-keeps y ys s ∙ h
  first_error-append x first (p ∷ ps) ys s h = elim (Bool-cases (skips s p.markers)) [
    | inl e ↦ simp e (first_error-append x first ps ys s (simp e at h))
    | inr e ↦
        simp e
          (first_error-append x (kept_error first (p.hook s).0) ps ys (p.hook s).1 (simp e at h))
  ]

module _ {H T N S Err : Type 0} (session_of : S → SessionState H T N) where
  -- `OnException` runs its plugins as a stage without errors would: an error stops none of them.
  pub on_exception-runs_all :
      (ps : List (Plugin (S → Option Err × S))) (s : S)
      → (on_exception session_of ps s).1 ≡ on_session_event session_of (map forget ps) s
  unfolding on_exception on_session_event
  on_exception-runs_all ps s = first_error-run_every (query_filter session_of) none ps s

  -- The error that `OnException` returns for some plugins it also returns with any plugins behind
  -- them.
  pub on_exception-first :
      (x : Err) (xs ys : List (Plugin (S → Option Err × S))) (s : S)
      → (on_exception session_of xs s).0 ≡ some x
      → (on_exception session_of (xs ++ ys) s).0 ≡ some x
  unfolding on_exception
  on_exception-first x xs ys s = first_error-append (query_filter session_of) x none xs ys s
