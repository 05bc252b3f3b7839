-- ===== src/Partitioned/Names.antt =====
-- Names of partitions and the map from a name to its place in the vector.
use Prim.Native.Nat.{Ordering}
use Prim.Native.String.{String, compare}
use limen.Base.{ℕ, Bool, true, false, if◌then◌else◌, List, [], ◌∷◌, Option, none, some}

-- std::string's operator==
abbrev pub same_name : String → String → Bool
same_name a b = elim (compare a b) [ Ordering.eq ↦ true | _ ↦ false ]

-- `kUnknownPartitionName`
abbrev pub unknown : String
unknown = "unknown"

-- `std::map::find`, on pairs with the last written first.
unfoldable pub find : List (String × ℕ) → String → Option ℕ
find [] name = none
find (entry ∷ rest) name = if same_name entry.0 name then some entry.1 else find rest name
