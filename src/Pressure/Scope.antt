-- ===== src/Pressure/Scope.antt =====
-- The keys of an inventory and the scope of one read (pkg/storageintegrity/parts_pressure_scope.go,
-- physical_table.go).
use Prim.Native.Char.{code}
use housegate.Base.{
  ◌≡◌, Bool, true, false, not, ◌&&◌, ◌||◌, List, [], ◌∷◌, map, String, str_eq, str_eq→eq,
  str_eq_refl, ◌==◌, if◌then◌else◌, Result, ok, err, arith,
}

-- `PartsKey`
pub record PartsKey : Type 0 where
  pub database : String
  pub table : String
  pub partition : String

unfoldable pub key_eq : PartsKey → PartsKey → Bool
key_eq k j =
    str_eq k.database j.database && str_eq k.table j.table && str_eq k.partition j.partition

-- `PartsScope`
pub record PartsScope : Type 0 where
  pub database : String
  pub include_safe_database : Bool
  pub safe_database : String
  pub table : String
  pub partitions : List String

unfoldable pub has_text : String → List String → Bool
has_text s [] = false
has_text s (x ∷ xs) = str_eq x s || has_text s xs

abbrev pub is_nil {ℓ} : {A : Type ℓ} → List A → Bool
is_nil [] = true
is_nil (x ∷ xs) = false

-- `Covers`
unfoldable pub covers : PartsScope → PartsKey → Bool
unfolding has_text
covers s k =
    if str_eq k.database s.database
    then (if not (str_eq s.table "") && not (str_eq k.table s.table)
        then false
        else if str_eq s.table "" || is_nil s.partitions
        then true
        else has_text k.partition s.partitions)
    else if str_eq k.database s.safe_database
    then (if not s.include_safe_database || str_eq s.safe_database ""
        then false
        else str_eq s.table "")
    else false

-- `RequestedKeys`
unfoldable pub requested_keys : PartsScope → List PartsKey
requested_keys s =
    if str_eq s.table "" || is_nil s.partitions
    then []
    else map (λ p. record { database = s.database; table = s.table; partition = p }) s.partitions

-- `IsFull`, of the unsafe database that is configured.
unfoldable pub is_full : String → PartsScope → Bool
is_full unsafe s = str_eq s.table "" && str_eq s.database unsafe

-- `LogicalPartitionID`
unfoldable pub logical_partition_id : String → Bool → String
logical_partition_id text unpartitioned =
    if unpartitioned then "all" else String.◌∷◌ "p" (String.◌∷◌ "_" text)

-- `partitionTexts`: the texts of system.parts, and whether the table is unpartitioned.
pub data ScopeError : Type 0 where
  bad_prefix mixed : ScopeError

pub data PartitionText : Type 0 where
  whole : PartitionText
  value : String → PartitionText
  malformed : PartitionText

unfoldable pub strip_prefix : String → PartitionText
strip_prefix String.[] = malformed
strip_prefix (String.◌∷◌ a String.[]) = malformed
strip_prefix (String.◌∷◌ a (String.◌∷◌ b rest)) =
    if code a == 112 && code b == 95 then value rest else malformed

unfoldable pub partition_text : String → PartitionText
unfolding strip_prefix
partition_text id = if str_eq id "all" then whole else strip_prefix id

abbrev pub text_behind :
    PartitionText → Result ScopeError (Bool × List String) → Result ScopeError (Bool × List String)
text_behind malformed rest = err bad_prefix
text_behind whole (ok (all, texts)) = ok (true, texts)
text_behind (value t) (ok (all, texts)) = ok (all, t ∷ texts)
text_behind whole (err e) = err e
text_behind (value t) (err e) = err e

unfoldable pub collect_texts : List String → Result ScopeError (Bool × List String)
unfolding partition_text
collect_texts [] = ok (false, [])
collect_texts (id ∷ ids) = text_behind (partition_text id) (collect_texts ids)

abbrev pub texts_of :
    Result ScopeError (Bool × List String) → Result ScopeError (List String × Bool)
texts_of (err e) = err e
texts_of (ok (false, texts)) = ok (texts, false)
texts_of (ok (true, [])) = ok ([], true)
texts_of (ok (true, t ∷ texts)) = err mixed

unfoldable pub partition_texts : List String → Result ScopeError (List String × Bool)
unfolding collect_texts
partition_texts [] = ok ([], true)
partition_texts (id ∷ ids) = texts_of (collect_texts (id ∷ ids))

-- `PhysicalTableName`: every "." is written "__".
unfoldable pub physical_table_name : String → String
physical_table_name String.[] = String.[]
physical_table_name (String.◌∷◌ c s) =
    let rest = physical_table_name s in
    if code c == 46 then String.◌∷◌ "_" (String.◌∷◌ "_" rest) else String.◌∷◌ c rest

-- Two keys are equal exactly when the test says so.
pub key_eq→eq : (k j : PartsKey) → key_eq k j ≡ true → k ≡ j
unfolding key_eq
key_eq→eq k j h = ground (
  arith,
  h,
  str_eq→eq k.database j.database,
  str_eq→eq k.table j.table,
  str_eq→eq k.partition j.partition,
)

pub key_eq_refl : (k : PartsKey) → key_eq k k ≡ true
unfolding key_eq
key_eq_refl k = ground (arith, str_eq_refl k.database, str_eq_refl k.table, str_eq_refl k.partition)
