-- ===== src/Partitioned/Limits.antt =====
-- The partitions' limits follow the wrapped limit.
use limen.Base.{
  ℕ, zero, suc, ◌≡◌, refl, sym, ap, ◌∙◌, Bool, ℤ, pos, negsuc, List, [], ◌∷◌, Option, none, some,
  String, get_elem?, set, if_elim, map, arith,
}
use limen.Double.{DoubleOps}
use limen.Limit.Defs.{
  AbstractLimit, Update, get_limit, set_limit_locked, on_sample, notify_on_change,
}
use limen.Limit.Publish.{Keeps, on_sample-mirror}
use limen.Limiter.Defs.{LimiterState, AcquireResult}
use limen.Limiter.Account.{Op, after}
use limen.Limiter.Kept.{after-keeps}
use limen.Limiter.Kept
use limen.Partitioned.Config.{PartitionSpec}
use limen.Partitioned.Defs.{
  Partition, Pools, Routing, Wrapped, compute_partition_limit, relimit, recompute_partition_limits,
  new_partitions, attach, enter, leave, update_at, with_pools, is_admitted, acquire_in, do_acquire,
  on_release_partition, partitioned_gate, wrapped_limit,
}
use limen.Partitioned.Share.{maybe_backoff_delay-partitions}

-- What a partition is configured with, and its limit now.
abbrev pub share : {D : Type 0} → Partition D → D × ℤ
share part = (part.percent, part.limit)

abbrev pub shares : {D : Type 0} → Pools D → List (D × ℤ)
shares p = map share p.partitions

map-set :
    {A B : Type 0} (f : A → B) (xs : List A) (i : ℕ) (x v : A)
    → get_elem? xs i ≡ some x
    → f v ≡ f x
    → map f (set xs i v) ≡ map f xs
map-set f [] i x v e k = refl
map-set f (y ∷ ys) zero x v e k = cc
map-set f (y ∷ ys) (suc i) x v e k = ap (λ zs. f y ∷ zs) (map-set f ys i x v e k)

update_at-shares :
    {D : Type 0} (f : Partition D → Partition D) (p : Pools D) (i : ℕ) (o : Option (Partition D))
    → get_elem? p.partitions i ≡ o
    → ((part : Partition D) → share (f part) ≡ share part)
    → shares (update_at f o i p) ≡ shares p
unfolding update_at
update_at-shares f p i none e k = refl
update_at-shares f p i (some part) e k = map-set share p.partitions i part (f part) e (k part)

module _ (d : DoubleOps) where
  -- Each percentage with the partition limit that belongs to it.
  abbrev pub limits_for : List d.Double → ℤ → List (d.Double × ℤ)
  limits_for percents n = map (λ percent. (percent, compute_partition_limit d n percent)) percents

  percents_of-shares :
      (parts : List (Partition d.Double))
      → map (λ x. x.0) (map share parts) ≡ map (λ part. part.percent) parts
  percents_of-shares [] = refl
  percents_of-shares (part ∷ rest) = ap (λ xs. part.percent ∷ xs) (percents_of-shares rest)

  percents_of-limits_for :
      (percents : List d.Double) (n : ℤ) → map (λ x. x.0) (limits_for percents n) ≡ percents
  percents_of-limits_for [] n = refl
  percents_of-limits_for (x ∷ xs) n = ap (λ ys. x ∷ ys) (percents_of-limits_for xs n)

  shares-relimit :
      (n : ℤ) (parts : List (Partition d.Double))
      → map share (map (relimit d n) parts) ≡ limits_for (map (λ part. part.percent) parts) n
  unfolding relimit
  shares-relimit n [] = refl
  shares-relimit n (part ∷ rest) =
      ap (λ xs. (part.percent, compute_partition_limit d n part.percent) ∷ xs)
        (shares-relimit n rest)

  relimit-shares :
      (n m : ℤ) (percents : List d.Double) (parts : List (Partition d.Double))
      → map share parts ≡ limits_for percents m
      → map share (map (relimit d n) parts) ≡ limits_for percents n
  relimit-shares n m percents parts e =
      shares-relimit n parts
      ∙ ap (λ xs. limits_for xs n)
          (sym (percents_of-shares parts)
            ∙ ap (map (λ x. x.0)) e
            ∙ percents_of-limits_for percents m)

  recompute-Keeps :
      (percents : List d.Double) → Keeps shares (limits_for percents) (recompute_partition_limits d)
  unfolding recompute_partition_limits
  recompute-Keeps percents n m w e = relimit-shares n m percents w.partitions e

  -- The callback is registered and the limits agree.
  pub record InStep {S : Type 0} (percents : List d.Double) (l : Wrapped S d.Double) : Type 0 where
    pub listening : l.1.listeners ≡ recompute_partition_limits d ∷ []
    pub agreeing : shares l.1.world ≡ limits_for percents (get_limit l.1)

  -- A change of the pools that leaves the shares alone.
  with_pools-InStep :
      {S : Type 0} (update : Update S) (r : Routing) (percents : List d.Double)
      (s : LimiterState (Wrapped S d.Double)) (p : Pools d.Double)
      → shares p ≡ shares s.limit.1.world
      → InStep percents s.limit
      → InStep percents (with_pools update r s p).limit
  unfolding with_pools get_limit
  with_pools-InStep update r percents s p e h = record {
    listening = h.listening;
    agreeing = e ∙ h.agreeing;
  }

module _ (d : DoubleOps) {S : Type 0} (update : Update S) (r : Routing)
    (percents : List d.Double) where
  acquire_in-InStep :
      (s : LimiterState (Wrapped S d.Double)) (i : ℕ) (o : Option (Partition d.Double))
      → get_elem? s.limit.1.world.partitions i ≡ o
      → InStep d percents s.limit
      → InStep d percents (acquire_in update r s i o).0.limit
  unfolding acquire_in enter
  acquire_in-InStep s i none e h = h
  acquire_in-InStep s i (some part) e h =
      if_elim {A = LimiterState (Wrapped S d.Double) × Option AcquireResult}
        (λ x. InStep d percents x.0.limit) (is_admitted update r s part)
        (λ t.
          with_pools-InStep d update r percents s _
            (update_at-shares _ s.limit.1.world i (some part) e (λ q. refl)) h)
        (λ f.
          with_pools-InStep d update r percents s _
            (ap (map share) (maybe_backoff_delay-partitions r part s.limit.1.world)) h)

  on_release_partition-InStep :
      (s : LimiterState (Wrapped S d.Double)) (index : ℤ)
      → InStep d percents s.limit
      → InStep d percents (on_release_partition update r s index).limit
  unfolding on_release_partition leave
  on_release_partition-InStep s (pos i) h =
      with_pools-InStep d update r percents s _
        (update_at-shares _ s.limit.1.world i _ refl (λ q. refl)) h
  on_release_partition-InStep s (negsuc n) h = h

  set_limit_locked-listeners :
      (a : AbstractLimit (Pools d.Double)) (n : ℤ) → (set_limit_locked a n).listeners ≡ a.listeners
  unfolding set_limit_locked
  set_limit_locked-listeners a n = ground arith

  on_sample-InStep :
      (l : Wrapped S d.Double) (start rtt inflight : ℤ) (did_drop : Bool)
      → InStep d percents l
      → InStep d percents (on_sample update l start rtt inflight did_drop)
  unfolding on_sample
  on_sample-InStep (s, a) start rtt inflight did_drop h = record {
    listening = set_limit_locked-listeners a _ ∙ h.listening;
    agreeing =
        on_sample-mirror shares (limits_for d percents) update s a (recompute_partition_limits d) []
          start rtt inflight did_drop h.listening (recompute-Keeps d percents) tt h.agreeing;
  }

  gate-Keeps : Kept.Keeps (wrapped_limit update r) (partitioned_gate update r) (InStep d percents)
  unfolding do_acquire
  gate-Keeps = record {
    acquire = λ s context. acquire_in-InStep s _ _ refl;
    release = on_release_partition-InStep;
    sample = on_sample-InStep;
  }

attach-InStep :
    (d : DoubleOps) {S : Type 0} (specs : List (PartitionSpec d.Double)) (s : S) (n : ℤ)
    → InStep d (map (λ part. part.percent) (new_partitions d specs)) (attach d specs (s, n))
unfolding attach notify_on_change recompute_partition_limits get_limit
attach-InStep d specs s n = record {
  listening = refl;
  agreeing = shares-relimit d n (new_partitions d specs);
}

-- In a partitioned limiter over any limit algorithm, after any history of calls, each partition has
-- its configured percentage, and as limit the one computed from that percentage and the limit that
-- `GetLimit` answers then.
pub after-limits :
    (d : DoubleOps) {S : Type 0} (update : Update S) (r : Routing) (bypass : Option (String → Bool))
    (specs : List (PartitionSpec d.Double)) (s : S) (n : ℤ) (history : List Op)
    → let l =
        (after
          (wrapped_limit update r)
          (partitioned_gate update r)
          bypass
          (attach d specs (s, n))
          history).state.limit in
      shares l.1.world
      ≡ limits_for d (map (λ part. part.percent) (new_partitions d specs)) (get_limit l.1)
after-limits d update r bypass specs s n history =
    (after-keeps (wrapped_limit update r) (partitioned_gate update r) bypass (InStep d _)
      (gate-Keeps d update r _) (attach d specs (s, n)) history
      (attach-InStep d specs s n)).agreeing
