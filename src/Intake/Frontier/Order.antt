-- ===== src/Intake/Frontier/Order.antt =====
-- The frontier is never free while someone waits, and it serves its queue whole and in order.
use housegate.Base.{
  ℕ, ◌≡◌, ◌≢◌, refl, ap, subst, subst⁻¹, Bool, true, false, ◌||◌, Option, none, some, List, [], ◌∷◌,
  ◌++◌, String, str_eq, str_eq_refl, ◌==◌, if_ind, All, arith,
}
use housegate.Intake.Frontier.{
  Waiter, SourceFrontier, remove_by_statement, remove_waiter, acquire_frontier, hand_over,
  release_frontier, cancel_wait, Step, acquires, releases, cancels, Reach, here, next, fences,
  fence_recovered, is_queued,
}

-- Everyone in the queue has an id, and if there is anyone the frontier is held.
pub record IsBusy (f : SourceFrontier) : Type 0 where
  pub recovered_named : All (λ id. id ≢ "") f.recovered
  pub waiters_named : All (λ w. w.statement_id ≢ "") f.waiters
  pub free_is_idle : f.holder ≡ "" → (f.recovered ≡ []) × (f.waiters ≡ [])

pub remove_by_statement-All {κ} :
    (P : Waiter → Type κ) (id : String) (ws : List Waiter)
    → All P ws
    → All P (remove_by_statement id ws)
unfolding remove_by_statement
remove_by_statement-All P id [] h = tt
remove_by_statement-All P id (w ∷ ws) h =
    if_ind (All P) (str_eq w.statement_id id) (λ _. h.1)
      (λ _. (h.0, remove_by_statement-All P id ws h.1))

All-snoc {ℓ κ} :
    {A : Type ℓ} (P : A → Type κ) (xs : List A) (x : A) → All P xs → P x → All P (xs ++ x ∷ [])
All-snoc P [] x h p = (p, tt)
All-snoc P (y ∷ ys) x h p = (h.0, All-snoc P ys x h.1 p)

abbrev Kept {κ} : (P : Waiter → Type κ) → Option (List Waiter) → Type κ
Kept P none = Unit
Kept P (some xs) = All P xs

Kept-behind {κ} :
    (P : Waiter → Type κ) (w : Waiter) (o : Option (List Waiter))
    → P w
    → Kept P o
    → Kept P (elim o [ none ↦ none | some xs ↦ some (w ∷ xs) ])
Kept-behind P w none p h = tt
Kept-behind P w (some xs) p h = (p, h)

remove_waiter-Kept {κ} :
    (P : Waiter → Type κ) (t : ℕ) (ws : List Waiter) → All P ws → Kept P (remove_waiter t ws)
unfolding remove_waiter
remove_waiter-Kept P t [] h = tt
remove_waiter-Kept P t (w ∷ ws) h =
    if_ind (Kept P) (w.ticket == t) (λ _. h.1)
      (λ _. Kept-behind P w (remove_waiter t ws) h.0 (remove_waiter-Kept P t ws h.1))

hand_over-IsBusy :
    (ids : List String) (ws : List Waiter)
    → All (λ id. id ≢ "") ids
    → All (λ w. w.statement_id ≢ "") ws
    → IsBusy (hand_over ids ws)
hand_over-IsBusy (id ∷ ids) ws named waits = record {
  recovered_named = named.1;
  waiters_named = remove_by_statement-All (λ w. w.statement_id ≢ "") id ws waits;
  free_is_idle = λ e. absurd (named.0 e);
}
hand_over-IsBusy [] (w ∷ ws) named waits = record {
  recovered_named = tt;
  waiters_named = waits.1;
  free_is_idle = λ e. absurd (waits.0 e);
}
hand_over-IsBusy [] [] named waits = record {
  recovered_named = tt;
  waiters_named = tt;
  free_is_idle = λ e. (refl, refl);
}

release_frontier-IsBusy :
    (id : String) (f : SourceFrontier) → IsBusy f → IsBusy (release_frontier id f)
unfolding release_frontier
release_frontier-IsBusy id f b =
    if_ind IsBusy (str_eq f.holder id)
      (λ _. hand_over-IsBusy f.recovered f.waiters b.recovered_named b.waiters_named) (λ _. b)

acquire_frontier-IsBusy :
    (id : String) (t : ℕ) (f : SourceFrontier)
    → id ≢ ""
    → IsBusy f
    → IsBusy (acquire_frontier id t f).1
unfolding acquire_frontier
acquire_frontier-IsBusy id t f named b =
    if_ind (λ (r : Bool × SourceFrontier). IsBusy r.1) (str_eq f.holder "" || str_eq f.holder id)
      (λ _. record {
        recovered_named = b.recovered_named;
        waiters_named = b.waiters_named;
        free_is_idle = λ e. absurd (named e);
      })
      (λ held. record {
        recovered_named = b.recovered_named;
        waiters_named = All-snoc (λ w. w.statement_id ≢ "") f.waiters _ b.waiters_named named;
        free_is_idle = λ e. absurd (held_named held e);
      })
  where
    held_named : (str_eq f.holder "" || str_eq f.holder id) ≡ false → f.holder ≢ ""
    held_named held e =
        let free : str_eq f.holder "" ≡ true =
          subst⁻¹ (λ x. str_eq x "" ≡ true) e (str_eq_refl "") in
        ground (arith, held, free)

pub not_equal : (s t : String) → str_eq s t ≡ false → s ≢ t
not_equal s t h e =
    let same : str_eq s t ≡ true = subst (λ x. str_eq s x ≡ true) e (str_eq_refl s) in cc

fence_recovered-IsBusy :
    (id : String) (f : SourceFrontier) → IsBusy f → IsBusy (fence_recovered id f)
unfolding fence_recovered
fence_recovered-IsBusy id f b =
    if_ind IsBusy (str_eq id "") (λ _. b)
      λ n.
        (let named = not_equal id "" n in
          if_ind IsBusy (str_eq f.holder "")
            (λ _. record {
              recovered_named = b.recovered_named;
              waiters_named = b.waiters_named;
              free_is_idle = λ e. absurd (named e);
            })
            λ held.
              if_ind IsBusy (str_eq f.holder id || is_queued id f.recovered) (λ _. b)
                (λ _. record {
                  recovered_named = All-snoc (λ x. x ≢ "") f.recovered id b.recovered_named named;
                  waiters_named = b.waiters_named;
                  free_is_idle = λ e. absurd (not_equal f.holder "" held e);
                }))

cancelled-IsBusy :
    (id : String) (f : SourceFrontier) (o : Option (List Waiter))
    → Kept (λ w. w.statement_id ≢ "") o
    → (f.waiters ≡ [] → o ≡ none)
    → IsBusy f
    → IsBusy (elim o [ some ws ↦ record f { waiters = ws } | none ↦ release_frontier id f ])
cancelled-IsBusy id f none kept idle b = release_frontier-IsBusy id f b
cancelled-IsBusy id f (some ws) kept idle b = record {
  recovered_named = b.recovered_named;
  waiters_named = kept;
  free_is_idle = λ e. (let no_one = idle (b.free_is_idle e).1 in cc);
}

cancel_wait-IsBusy :
    (id : String) (t : ℕ) (f : SourceFrontier) → IsBusy f → IsBusy (cancel_wait id t f)
unfolding cancel_wait remove_waiter
cancel_wait-IsBusy id t f b =
    cancelled-IsBusy id f (remove_waiter t f.waiters)
      (remove_waiter-Kept (λ w. w.statement_id ≢ "") t f.waiters b.waiters_named)
      (λ e. ap (remove_waiter t) e) b

Step-IsBusy : {u v : SourceFrontier} → Step u v → IsBusy u → IsBusy v
Step-IsBusy {u} (acquires id t named) b = acquire_frontier-IsBusy id t u named b
Step-IsBusy {u} (fences id) b = fence_recovered-IsBusy id u b
Step-IsBusy {u} (releases id) b = release_frontier-IsBusy id u b
Step-IsBusy {u} (cancels id t) b = cancel_wait-IsBusy id t u b

abbrev pub free_frontier : SourceFrontier
free_frontier = record { holder = ""; recovered = []; waiters = [] }

pub Reach-IsBusy : {f : SourceFrontier} → Reach free_frontier f → IsBusy f
Reach-IsBusy here = record {
  recovered_named = tt;
  waiters_named = tt;
  free_is_idle = λ e. (refl, refl);
}
Reach-IsBusy (next r st) = Step-IsBusy st (Reach-IsBusy r)
