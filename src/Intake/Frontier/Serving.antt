-- ===== src/Intake/Frontier/Serving.antt =====
-- The frontier serves its whole queue, the recovered statements first and then the waiters in the order
-- of their arrival.
use housegate.Base.{
  ℕ, zero, suc, ◌+◌, ◌-◌, ◌≡◌, ◌≢◌, ◌<◌, ◌≤◌, refl, sym, ap, ◌++◌, map, ◌&&◌, ◌∙◌, false, List, [],
  ◌∷◌, String, str_eq, str_eq_refl, if◌then◌else◌, if_ind, All, arith, length, str_eq→eq,
  Bool-cases, inl, inr, IsSublist, empty, keeps, leaves, IsSublist-refl, IsSublist-trans,
}
use housegate.Intake.Frontier.{
  Waiter, SourceFrontier, remove_by_statement, hand_over, release_frontier, Reach,
}
use housegate.Intake.Frontier.Order.{remove_by_statement-All, free_frontier, Reach-IsBusy}

-- Every holder in turn releases: who holds the frontier next, until it is free or the fuel is spent.
unfoldable pub served : ℕ → SourceFrontier → List String
unfolding release_frontier
served zero f = []
served (suc n) f =
    let f' = release_frontier f.holder f in
    let rest = served n f' in if str_eq f'.holder "" then [] else f'.holder ∷ rest

-- The queue as the operations take it apart.
abbrev queue : List String → List Waiter → List String
queue [] [] = []
queue [] (w ∷ ws) = w.statement_id ∷ queue [] ws
queue (id ∷ ids) ws = id ∷ queue ids (remove_by_statement id ws)

named_test : (s : String) → s ≢ "" → str_eq s "" ≡ false
named_test s h = elim (Bool-cases (str_eq s "")) [
  | inl e ↦ absurd (h (str_eq→eq s "" e))
  | inr e ↦ e
]

release-own : (f : SourceFrontier) → release_frontier f.holder f ≡ hand_over f.recovered f.waiters
unfolding release_frontier
release-own f = rw (str_eq_refl f.holder)

length-remove_by_statement :
    (id : String) (ws : List Waiter) → length (remove_by_statement id ws) ≤ length ws
unfolding remove_by_statement
length-remove_by_statement id [] = omega arith
length-remove_by_statement id (w ∷ ws) =
    let shorter = length-remove_by_statement id ws in
    if_ind (λ (xs : List Waiter). length xs ≤ suc (length ws)) (str_eq w.statement_id id)
      (λ _. omega arith) (λ _. omega (arith, shorter))

-- The holder that a hand-over names, and those behind it.
served_from : ℕ → SourceFrontier → List String
served_from n f = if str_eq f.holder "" then [] else f.holder ∷ served n f

served-step :
    (n : ℕ) (f : SourceFrontier) (ids : List String) (ws : List Waiter)
    → f.recovered ≡ ids
    → f.waiters ≡ ws
    → served (suc n) f ≡ served_from n (hand_over ids ws)
unfolding served served_from
served-step n f ids ws e h =
    ap (served_from n) (release-own f)
    ∙ ap (λ x. served_from n (hand_over x f.waiters)) e
    ∙ ap (λ x. served_from n (hand_over ids x)) h

served-queue :
    (n : ℕ) (ids : List String) (ws : List Waiter) (f : SourceFrontier)
    → f.recovered ≡ ids
    → f.waiters ≡ ws
    → All (λ id. id ≢ "") ids
    → All (λ w. w.statement_id ≢ "") ws
    → length ids + length ws < n
    → served n f ≡ queue ids ws
unfolding served_from
served-queue zero ids ws f e h named waits enough = absurd (omega (arith, enough))
served-queue (suc n) [] [] f e h named waits enough = served-step n f [] [] e h
served-queue (suc n) [] (w ∷ ws) f e h named waits enough =
    let f' = hand_over [] (w ∷ ws) in
    served-step n f [] (w ∷ ws) e h
    ∙ rw (named_test w.statement_id waits.0) (
        ap (λ x. w.statement_id ∷ x)
          (served-queue n [] ws f' refl refl tt waits.1 (omega (arith, enough))))
served-queue (suc n) (id ∷ ids) ws f e h named waits enough =
    let f' = hand_over (id ∷ ids) ws in
    let others = remove_by_statement id ws in
    served-step n f (id ∷ ids) ws e h
    ∙ rw (named_test id named.0) (
        ap (λ x. id ∷ x)
          (served-queue n ids others f' refl refl named.1
            (remove_by_statement-All (λ w. w.statement_id ≢ "") id ws waits)
            (omega (arith, enough, length-remove_by_statement id ws))))

abbrev pub ids_of : List Waiter → List String
ids_of ws = map (λ (w : Waiter). w.statement_id) ws

-- How often a text stands in a list.
unfoldable pub occurrences : String → List String → ℕ
occurrences s [] = 0
occurrences s (x ∷ xs) = (if str_eq x s then 1 else 0) + occurrences s xs

remove_by_statement-IsSublist :
    (id : String) (ws : List Waiter) → IsSublist (ids_of (remove_by_statement id ws)) (ids_of ws)
unfolding remove_by_statement
remove_by_statement-IsSublist id [] = empty
remove_by_statement-IsSublist id (w ∷ ws) =
    if_ind (λ (xs : List Waiter). IsSublist (ids_of xs) (ids_of (w ∷ ws)))
      (str_eq w.statement_id id) (λ _. leaves w.statement_id (IsSublist-refl (ids_of ws)))
      (λ _. keeps w.statement_id (remove_by_statement-IsSublist id ws))

occurrences-remove_by_statement :
    (s id : String) (ws : List Waiter)
    → occurrences s (ids_of (remove_by_statement id ws))
      ≡ occurrences s (ids_of ws) - (if str_eq id s then 1 else 0)
unfolding remove_by_statement occurrences
occurrences-remove_by_statement s id [] = omega arith
occurrences-remove_by_statement s id (w ∷ ws) = elim (Bool-cases (str_eq w.statement_id id)) [
  | inl e ↦
      let same = ap (λ x. str_eq x s) (str_eq→eq w.statement_id id e) in
      rw e (rw same (omega arith))
  | inr e ↦ rw e (ground (arith, occurrences-remove_by_statement s id ws, other e))
]
  where
    other : str_eq w.statement_id id ≡ false → (str_eq w.statement_id s && str_eq id s) ≡ false
    other e = elim (Bool-cases (str_eq id s)) [
      | inl f ↦ rw (sym (str_eq→eq id s f)) (ground (arith, e))
      | inr f ↦ ground (arith, f)
    ]

-- Those who wait behind the recovered statements.
left_over : List String → List Waiter → List String
left_over [] ws = ids_of ws
left_over (id ∷ ids) ws = left_over ids (remove_by_statement id ws)

queue-left_over : (ids : List String) (ws : List Waiter) → queue ids ws ≡ ids ++ left_over ids ws
unfolding left_over
queue-left_over [] [] = refl
queue-left_over [] (w ∷ ws) = ap (λ x. w.statement_id ∷ x) (queue-left_over [] ws)
queue-left_over (id ∷ ids) ws = ap (λ x. id ∷ x) (queue-left_over ids (remove_by_statement id ws))

left_over-IsSublist :
    (ids : List String) (ws : List Waiter) → IsSublist (left_over ids ws) (ids_of ws)
unfolding left_over
left_over-IsSublist [] ws = IsSublist-refl (ids_of ws)
left_over-IsSublist (id ∷ ids) ws =
    IsSublist-trans (left_over-IsSublist ids (remove_by_statement id ws))
      (remove_by_statement-IsSublist id ws)

occurrences-left_over :
    (s : String) (ids : List String) (ws : List Waiter)
    → occurrences s (left_over ids ws) ≡ occurrences s (ids_of ws) - occurrences s ids
unfolding left_over occurrences
occurrences-left_over s [] ws = omega arith
occurrences-left_over s (id ∷ ids) ws = omega (
  arith,
  occurrences-left_over s ids (remove_by_statement id ws),
  occurrences-remove_by_statement s id ws,
)

-- After any calls on a frontier that was free, if every holder in turn releases, everyone in the queue
-- is served: first the recovered statements in their order, then waiters in the order of their arrival,
-- and of the waiters of any one statement as many as exceed its recovered entries.
pub frontier_serves_queue :
    {f : SourceFrontier}
    → Reach free_frontier f
    → (s : String)
    → (behind : List String) × (served (suc (length f.recovered + length f.waiters)) f
        ≡ f.recovered ++ behind)
      × IsSublist behind (ids_of f.waiters)
      × (occurrences s behind ≡ occurrences s (ids_of f.waiters) - occurrences s f.recovered)
frontier_serves_queue {f} r s =
    let b = Reach-IsBusy r in
    let whole =
      served-queue _ f.recovered f.waiters f refl refl b.recovered_named b.waiters_named
        (omega arith) in
    (
      left_over f.recovered f.waiters,
      whole ∙ queue-left_over f.recovered f.waiters,
      left_over-IsSublist f.recovered f.waiters,
      occurrences-left_over s f.recovered f.waiters,
    )

-- After any calls on a frontier that was free, nobody waits for a frontier that nobody holds.
pub frontier_is_never_stranded :
    {f : SourceFrontier}
    → Reach free_frontier f
    → f.holder ≡ ""
    → (f.recovered ≡ []) × (f.waiters ≡ [])
frontier_is_never_stranded r = (Reach-IsBusy r).free_is_idle
