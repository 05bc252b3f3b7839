-- ===== src/Partitioned/Resolve.antt =====
-- Resolution of a context to a partition always finds one.
use limen.Base.{
  ℕ, suc, ◌+◌, ◌<◌, ◌≤◌, ◌≡◌, refl, List, [], ◌∷◌, Option, none, some, String, length,
  length-append, if_elim, arith, map, ap, All,
}
use limen.Double.{DoubleOps}
use limen.Partitioned.Names.{find, same_name}
use limen.Partitioned.Config.{PartitionSpec, Config}
use limen.Partitioned.Defs.{
  Partition, Routing, try_name, resolve_with, resolve_partition, new_partitions, new_partition,
  index_names, routing,
}

abbrev Within : ℕ → List (String × ℕ) → Type 0
Within n = All λ entry. entry.1 < n

-- An answer, if there is one, is below the bound.
abbrev Below : ℕ → Option ℕ → Type 0
Below n none = Unit
Below n (some i) = i < n

find-Within :
    (n : ℕ) (by_name : List (String × ℕ)) (name : String)
    → Within n by_name
    → Below n (find by_name name)
unfolding find
find-Within n [] name h = tt
find-Within n (entry ∷ rest) name h =
    if_elim (Below n) (same_name entry.0 name) (λ t. h.0) (λ f. find-Within n rest name h.1)

try_name-Within :
    (n : ℕ) (by_name : List (String × ℕ)) (name : Option String)
    → Within n by_name
    → Below n (try_name by_name name)
unfolding try_name
try_name-Within n by_name none h = tt
try_name-Within n by_name (some name) h = find-Within n by_name name h

or_else-Below :
    (n other : ℕ) (o : Option ℕ) → Below n o → other < n → elim o [ none ↦ other | some i ↦ i ] < n
or_else-Below n other none h k = k
or_else-Below n other (some i) h k = h

resolve_with-lt :
    (n : ℕ) (r : Routing) (resolvers : List (String → Option String)) (context : String)
    → Within n r.partition_index_by_name
    → r.unknown_partition_index < n
    → resolve_with r resolvers context < n
unfolding resolve_with
resolve_with-lt n r [] context h k = k
resolve_with-lt n r (resolver ∷ rest) context h k =
    or_else-Below n _ (try_name r.partition_index_by_name (resolver context))
      (try_name-Within n r.partition_index_by_name (resolver context) h)
      (resolve_with-lt n r rest context h k)

index_names-Within :
    (d : DoubleOps) (n i : ℕ) (parts : List (Partition d.Double)) (by_name : List (String × ℕ))
    → length parts + i ≤ n
    → Within n by_name
    → Within n (index_names d parts i by_name)
unfolding index_names
index_names-Within d n i [] by_name b h = h
index_names-Within d n i (part ∷ rest) by_name b h =
    index_names-Within d n (suc i) rest ((part.name, i) ∷ by_name) (omega arith) (omega arith, h)

length-map : {A B : Type 0} (f : A → B) (xs : List A) → length (map f xs) ≡ length xs
length-map f [] = refl
length-map f (x ∷ xs) = ap suc (length-map f xs)

length-new_partitions :
    (d : DoubleOps) (specs : List (PartitionSpec d.Double))
    → length (new_partitions d specs) ≡ suc (length specs)
unfolding new_partitions
length-new_partitions d specs = omega (
  arith,
  length-append (map (new_partition d) specs) (new_partition d _ ∷ []),
  length-map (new_partition d) specs,
)

-- Whatever the resolvers answer, the index that `ResolvePartition` returns in a limiter that `Build`
-- made is that of one of its partitions.
pub resolve_partition-lt :
    (d : DoubleOps) {L : Type 0} (c : Config d.Double L) (context : String)
    → resolve_partition (routing d c) context < length (new_partitions d c.specs)
unfolding resolve_partition routing
resolve_partition-lt d c context =
    resolve_with-lt _ _ c.resolvers context
      (index_names-Within d _ 0 (new_partitions d c.specs) [] (omega arith) tt)
      (omega (arith, length-new_partitions d c.specs))
