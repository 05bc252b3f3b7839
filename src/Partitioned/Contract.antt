-- ===== src/Partitioned/Contract.antt =====
-- The partitioned gate keeps the contract of `DoAcquire`.
use limen.Base.{ℕ, ◌≡◌, refl, ℤ, pos, negsuc, add32, Option, none, some, if_elim}
use limen.Limit.Defs.{Update}
use limen.Limiter.Defs.{LimiterState, AcquireResult}
use limen.Limiter.Account.{IsGate}
use limen.Partitioned.Defs.{
  Partition, Routing, Wrapped, with_pools, is_admitted, acquire_in, do_acquire,
  on_release_partition, partitioned_gate,
}

module _ {S D : Type 0} (update : Update S) (r : Routing) where
  -- The three clauses on an acquisition, of one answer.
  record Kept (s : LimiterState (Wrapped S D))
      (x : LimiterState (Wrapped S D) × Option AcquireResult) : Type 0 where
    admitted : (a : AcquireResult) → x.1 ≡ some a → x.0.inflight ≡ add32 s.inflight (pos 1)
    refused : x.1 ≡ none → x.0.inflight ≡ s.inflight
    counts : x.0.outcome_counts ≡ s.outcome_counts

  acquire_in-Kept :
      (s : LimiterState (Wrapped S D)) (i : ℕ) (o : Option (Partition D))
      → Kept s (acquire_in update r s i o)
  unfolding acquire_in with_pools
  acquire_in-Kept s i none = record { admitted = λ a e. cc; refused = λ e. refl; counts = refl }
  acquire_in-Kept s i (some part) =
      if_elim {A = LimiterState (Wrapped S D) × Option AcquireResult} (Kept s)
        (is_admitted update r s part)
        (λ t. record { admitted = λ a e. refl; refused = λ e. cc; counts = refl })
        (λ f. record { admitted = λ a e. cc; refused = λ e. refl; counts = refl })

  on_release_partition-kept :
      (s : LimiterState (Wrapped S D)) (index : ℤ)
      → ((on_release_partition update r s index).inflight ≡ s.inflight)
        × ((on_release_partition update r s index).outcome_counts ≡ s.outcome_counts)
  unfolding on_release_partition with_pools
  on_release_partition-kept s (pos i) = (refl, refl)
  on_release_partition-kept s (negsuc n) = (refl, refl)

  -- An admission puts one more slot in flight, a rejection none, and neither of them nor a release
  -- touches the outcome counters.
  pub partitioned_gate-IsGate : IsGate (partitioned_gate {D = D} update r)
  unfolding do_acquire
  partitioned_gate-IsGate = record {
    admitted = λ s context a e. (acquire_in-Kept s _ _).admitted a e;
    refused = λ s context e. (acquire_in-Kept s _ _).refused e;
    acquire_counts = λ s context. (acquire_in-Kept s _ _).counts;
    release_inflight = λ s index. (on_release_partition-kept s index).0;
    release_counts = λ s index. (on_release_partition-kept s index).1;
  }
