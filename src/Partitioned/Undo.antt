-- ===== src/Partitioned/Undo.antt =====
-- A slot that is taken and then given back unused leaves a partitioned limiter as it was.
use limen.Base.{
  ℕ, zero, suc, ◌≡◌, refl, ap, Bool, false, ℤ, pos, add32, IsInt32, List, [], ◌∷◌, Option, none,
  some, String, get_elem?, set, if_elim, sub32-add32,
}
use limen.Limit.Defs.{Update}
use limen.Limiter.Guard.{CompletionStatus, SlotGuard, complete, make_slot}
use limen.Limiter.Defs.{
  Status, LimiterState, AcquireResult, count_outcome, is_bypassed, admit, do_try_acquire,
  feed_sample, on_slot_complete, limiter_at, to_outcome_status,
}
use limen.Partitioned.Defs.{
  Partition, Pools, Routing, Wrapped, resolve_partition, enter, leave, update_at, with_pools,
  is_admitted, acquire_in, do_acquire, on_release_partition, partitioned_gate, wrapped_limit,
}

abbrev unwrap : {A : Type 0} → A → Option A → A
unwrap a none = a
unwrap a (some b) = b

-- An int that is counted up and down is the same again.
get_elem?-set :
    {A : Type 0} (xs : List A) (i : ℕ) (x v : A)
    → get_elem? xs i ≡ some x
    → get_elem? (set xs i v) i ≡ some v
get_elem?-set [] i x v e = cc
get_elem?-set (y ∷ ys) zero x v e = refl
get_elem?-set (y ∷ ys) (suc i) x v e = get_elem?-set ys i x v e

set-set :
    {A : Type 0} (xs : List A) (i : ℕ) (x v : A)
    → get_elem? xs i ≡ some x
    → set (set xs i v) i x ≡ xs
set-set [] i x v e = refl
set-set (y ∷ ys) zero x v e = cc
set-set (y ∷ ys) (suc i) x v e = ap (λ zs. y ∷ zs) (set-set ys i x v e)

leave-enter : {D : Type 0} (part : Partition D) → IsInt32 part.busy → leave (enter part) ≡ part
unfolding leave enter
leave-enter part h = ap (λ z. record part { busy = z }) (sub32-add32 part.busy h)

update_at-undone :
    {D : Type 0} (p : Pools D) (i : ℕ) (part : Partition D)
    → get_elem? p.partitions i ≡ some part
    → IsInt32 part.busy
    → let p' = update_at enter (some part) i p in
      update_at leave (get_elem? p'.partitions i) i p' ≡ p
unfolding update_at
update_at-undone p i part e h =
    rw
      (
        get_elem?-set p.partitions i part (enter part) e,
        leave-enter part h,
        set-set p.partitions i part (enter part) e,
      )
      refl

module _ {S D : Type 0} (update : Update S) (r : Routing) (bypass : Option (String → Bool)) where
  -- A completion as ignored of the slot that the gate has granted.
  abbrev pub given_back : ℤ → LimiterState (Wrapped S D) → SlotGuard → LimiterState (Wrapped S D)
  given_back now s g =
      (complete (limiter_at (wrapped_limit update r) (partitioned_gate update r) bypass now) s g
        CompletionStatus.ignored).0

  -- The state and the guard after an admission by partition `i`.
  abbrev entered_state : LimiterState (Wrapped S D) → ℕ → Partition D → LimiterState (Wrapped S D)
  entered_state s i part =
      record (with_pools update r s (update_at enter (some part) i s.limit.1.world)) {
        inflight = add32 s.inflight (pos 1);
      }

  entered-undone :
      (now later : ℤ) (s : LimiterState (Wrapped S D)) (i : ℕ) (part : Partition D)
      → get_elem? s.limit.1.world.partitions i ≡ some part
      → IsInt32 s.inflight
      → IsInt32 part.busy
      → given_back later
          (entered_state s i part)
          (make_slot now (add32 s.inflight (pos 1)) false (pos i))
        ≡ count_outcome s Status.ignored
  unfolding complete on_slot_complete feed_sample make_slot on_release_partition with_pools
      to_outcome_status
  entered-undone now later s i part e h k =
      rw (sub32-add32 s.inflight h, update_at-undone s.limit.1.world i part e k) refl

  acquire_in-undone :
      (now later : ℤ) (s : LimiterState (Wrapped S D)) (i : ℕ) (o : Option (Partition D))
      (g : SlotGuard)
      → get_elem? s.limit.1.world.partitions i ≡ o
      → IsInt32 s.inflight
      → ((part : Partition D) → o ≡ some part → IsInt32 part.busy)
      → let x =
          admit
            (wrapped_limit update r)
            (partitioned_gate update r)
            bypass
            now
            (acquire_in update r s i o) in
        x.1 ≡ some g → given_back later x.0 g ≡ count_outcome s Status.ignored
  unfolding acquire_in admit
  acquire_in-undone now later s i none g e h k = λ a. cc
  acquire_in-undone now later s i (some part) g e h k =
      if_elim {A = LimiterState (Wrapped S D) × Option AcquireResult}
        (λ x.
          let y = admit (wrapped_limit update r) (partitioned_gate update r) bypass now x in
          y.1 ≡ some g → given_back later y.0 g ≡ count_outcome s Status.ignored)
        (is_admitted update r s part)
        (λ t a.
          let same : make_slot now (add32 s.inflight (pos 1)) false (pos i) ≡ g = ap (unwrap g) a in
          rw (← same) (entered-undone now later s i part e h (k part refl)))
        (λ f a. cc)

  -- A call that the gate admits, and whose slot is then ignored with no other call in between, leaves
  -- the limiter as it was but for one more ignored outcome: `InflightCount`, the count of each
  -- partition and the wrapped limit are the same again. The call is not bypassed, and the counters
  -- are ints.
  pub acquire-ignored :
      (now later : ℤ) (s : LimiterState (Wrapped S D)) (context : String) (g : SlotGuard)
      → is_bypassed (wrapped_limit {D = D} update r) (partitioned_gate update r) bypass context
        ≡ false
      → IsInt32 s.inflight
      → ((i : ℕ) (part : Partition D)
          → get_elem? s.limit.1.world.partitions i ≡ some part
          → IsInt32 part.busy)
      → (do_try_acquire (wrapped_limit update r) (partitioned_gate update r) bypass now s context).1
        ≡ some g
      → given_back later
          (do_try_acquire
            (wrapped_limit update r)
            (partitioned_gate update r)
            bypass
            now
            s
            context).0
          g
        ≡ count_outcome s Status.ignored
  unfolding do_try_acquire do_acquire
  acquire-ignored now later s context g b h k = rw b (
      acquire_in-undone now later s (resolve_partition r context) _ g refl h
        (λ part. k (resolve_partition r context) part))
