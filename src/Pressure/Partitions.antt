-- ===== src/Pressure/Partitions.antt =====
-- Partition ids and the texts of system.parts.
use Prim.Native.Char.{code}
use mathlib.Core.Bool.{true≢false}
use housegate.Base.{
  ◌≡◌, refl, ap, Bool, false, if_ind, List, [], ◌∷◌, map, String, str_eq, str_eq→eq, ok, ◌==◌,
}
use housegate.Pressure.Scope.{
  logical_partition_id, PartitionText, strip_prefix, partition_text, value, collect_texts, texts_of,
  partition_texts,
}

starts_with_p : String → Bool
starts_with_p String.[] = false
starts_with_p (String.◌∷◌ c s) = code c == 112

partition_text-logical : (t : String) → partition_text (logical_partition_id t false) ≡ value t
unfolding partition_text strip_prefix logical_partition_id starts_with_p
partition_text-logical t =
    let id = String.◌∷◌ "p" (String.◌∷◌ "_" t) in
    if_ind (λ (p : PartitionText). p ≡ value t) (str_eq id "all")
      (λ e. absurd (true≢false (ap starts_with_p (str_eq→eq id "all" e)))) (λ _. refl)

collect_texts-logical :
    (ts : List String) → collect_texts (map (λ t. logical_partition_id t false) ts) ≡ ok (false, ts)
unfolding collect_texts
collect_texts-logical [] = refl
collect_texts-logical (t ∷ ts) = rw (partition_text-logical t, collect_texts-logical ts)

-- The texts of a partitioned table come back from their ids, also where a text is "all" or "tuple()".
pub partition_texts-logical :
    (t : String) (ts : List String)
    → partition_texts (map (λ t. logical_partition_id t false) (t ∷ ts)) ≡ ok (t ∷ ts, false)
unfolding partition_texts
partition_texts-logical t ts = ap texts_of (collect_texts-logical (t ∷ ts))
