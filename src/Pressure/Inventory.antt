-- ===== src/Pressure/Inventory.antt =====
-- The reads of the inventory (parts_pressure.go) and what they are authoritative for. What ClickHouse
-- answers, the clock and the answers of the observation hook are parameters.
use housegate.Base.{
  ℕ, ◌+◌, ◌%◌, Bool, false, not, ◌&&◌, ◌||◌, Option, List, [], ◌∷◌, String, str_eq, if◌then◌else◌,
}
use housegate.Seq.Counter.{u64_mod}
use housegate.Pressure.Scope.{PartsKey, key_eq, PartsScope, covers, logical_partition_id}
use housegate.Pressure.Maps.{PartsMap, put, get_or, has_key}
use housegate.Pressure.Guard.{Observation, increment}
use housegate.Pressure.Claims.{add_text}

-- A row of the exact query, and of the aggregate one.
pub record PartRow : Type 0 where
  pub database : String
  pub table : String
  pub partition : String
  pub partition_key : String
  pub part_name : String

pub record CountRow : Type 0 where
  pub database : String
  pub table : String
  pub partition : String
  pub partition_key : String
  pub number : ℕ

-- What one refresh learns: its rows, or `none` where the query, a scan or the end of the rows failed;
-- which observations the hook makes durable; and the clock where the refresh reads it.
pub record Reading : Type 0 where
  pub rows : Option (List PartRow)
  pub hook : Observation → Bool
  pub applied_at : ℕ
  pub marked_at : ℕ

abbrev pub logical_key : String → String → String → String → PartsKey
logical_key database table partition partition_key = record {
  database = database;
  table = table;
  partition = logical_partition_id partition (str_eq partition_key "");
}

abbrev pub row_key : PartRow → PartsKey
row_key r = logical_key r.database r.table r.partition r.partition_key

-- The loops over the rows.
unfoldable pub count_rows : List PartRow → PartsMap ℕ → PartsMap ℕ
unfolding logical_partition_id
count_rows [] m = m
count_rows (r ∷ rs) m = count_rows rs (increment (row_key r) m)

unfoldable pub name_rows : List PartRow → PartsMap (List String) → PartsMap (List String)
unfolding logical_partition_id
name_rows [] m = m
name_rows (r ∷ rs) m =
    name_rows rs (put (row_key r) (add_text r.part_name (get_or [] (row_key r) m)) m)

unfoldable pub number_rows : List CountRow → PartsMap ℕ → PartsMap ℕ
unfolding logical_partition_id
number_rows [] m = m
number_rows (r ∷ rs) m =
    number_rows rs (put (logical_key r.database r.table r.partition r.partition_key) r.number m)

-- Writes of one value or of many.
abbrev pub put_all {ℓ} : {V : Type ℓ} → PartsMap V → PartsMap V → PartsMap V
put_all [] m = m
put_all ((k, v) ∷ kvs) m = put_all kvs (put k v m)

abbrev pub put_each {ℓ} : {V : Type ℓ} → List PartsKey → V → PartsMap V → PartsMap V
put_each [] v m = m
put_each (k ∷ ks) v m = put_each ks v (put k v m)

-- Requested keys that the read did not show are there with nothing.
abbrev pub put_absent {ℓ} : {V : Type ℓ} → List PartsKey → V → PartsMap V → PartsMap V
put_absent [] v m = m
put_absent (k ∷ ks) v m = put_absent ks v (if has_key k m then m else put k v m)

abbrev pub has_member : PartsKey → List PartsKey → Bool
has_member k [] = false
has_member k (j ∷ js) = key_eq j k || has_member k js

-- The keys of a map, and the covered ones among them, each once in the result.
abbrev pub add_keys {ℓ} : {V : Type ℓ} → PartsMap V → List PartsKey → List PartsKey
add_keys [] ks = ks
add_keys ((k, v) ∷ m) ks = add_keys m (if has_member k ks then ks else k ∷ ks)

abbrev pub add_covered {ℓ} : {V : Type ℓ} → PartsScope → PartsMap V → List PartsKey → List PartsKey
add_covered s [] ks = ks
add_covered s ((k, v) ∷ m) ks =
    add_covered s m (if covers s k && not (has_member k ks) then k ∷ ks else ks)

abbrev pub add_members : List PartsKey → List PartsKey → List PartsKey
add_members [] ks = ks
add_members (j ∷ js) ks = add_members js (if has_member j ks then ks else j ∷ ks)

abbrev pub bump_each : List PartsKey → PartsMap ℕ → PartsMap ℕ
bump_each [] m = m
bump_each (k ∷ ks) m = bump_each ks (put k ((get_or 0 k m + 1) % u64_mod) m)

-- A key that the scope covers and the read does not show.
abbrev pub is_gone {ℓ} : {V : Type ℓ} → PartsScope → PartsMap V → PartsKey → Bool
is_gone scope shown k = covers scope k && not (has_key k shown)
