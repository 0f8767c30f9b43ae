-- ===== src/Intake/Frontier/Examples.antt =====
-- Runs of the source frontier, and the theorems about it at concrete runs.
use housegate.Base.{◌-◌, ◌≡◌, refl, List, [], ◌∷◌, ◌++◌, String, IsSublist}
use housegate.Intake.Frontier.{
  SourceFrontier, acquire_frontier, release_frontier, fence_recovered, remove_by_statement, here,
  next, acquires, releases, fences,
}
use housegate.Intake.Frontier.Order.{free_frontier, not_equal}
use housegate.Intake.Frontier.Serving.{
  served, ids_of, occurrences, frontier_serves_queue, frontier_is_never_stranded,
}

-- "a" was recovered and holds, "b" was recovered behind it, "c" and "b" wait.
abbrev crowded : SourceFrontier
crowded = record {
  holder = "a";
  recovered = "b" ∷ [];
  waiters =
      record { statement_id = "c"; ticket = 1 } ∷ record { statement_id = "b"; ticket = 2 } ∷ [];
}

frontier_serves_queue_example :
    (behind : List String) × (served 4 crowded ≡ crowded.recovered ++ behind)
    × IsSublist behind (ids_of crowded.waiters)
    × (occurrences "b" behind
        ≡ occurrences "b" (ids_of crowded.waiters) - occurrences "b" crowded.recovered)
unfolding acquire_frontier fence_recovered remove_by_statement
frontier_serves_queue_example =
    frontier_serves_queue
      (next
        (next (next (next here (fences "a")) (fences "b")) (acquires "c" 1 (not_equal "c" "" refl)))
        (acquires "b" 2 (not_equal "b" "" refl)))
      "b"

-- The waiter "b" is served with its recovered entry, and "c" behind it.
served-crowded : served 4 crowded ≡ "b" ∷ "c" ∷ []
unfolding served release_frontier remove_by_statement
served-crowded = refl

abbrev idle : SourceFrontier
idle = release_frontier "c" (acquire_frontier "c" 1 free_frontier).1

frontier_is_never_stranded_example : (idle.recovered ≡ []) × (idle.waiters ≡ [])
unfolding acquire_frontier release_frontier
frontier_is_never_stranded_example =
    frontier_is_never_stranded
      (next (next here (acquires "c" 1 (not_equal "c" "" refl))) (releases "c")) refl
