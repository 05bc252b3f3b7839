-- ===== src/Limiter/Balance.antt =====
-- One call's effect on the counters of a limiter.
use limen.Base.{
  ℕ, suc, ◌+◌, ◌≡◌, refl, ap, ◌∙◌, sym, Bool, false, ℤ, pos, ◌+ℤ◌, add32, sub32, add64, int32,
  int64, int64-add, add32-int32, sub32-int32, Option, none, some, String, arith, int_laws, if_elim,
  true_and_false,
}
use native.Mathlib.Nat.{zero-add}
use limen.Limit.Defs.{LimitOps}
use limen.Limiter.Guard.{CompletionStatus, SlotGuard, make_slot}
use limen.Limiter.Defs.{
  Status, LimiterState, AcquireResult, Gate, count_outcome, is_bypassed, admit, do_try_acquire,
  feed_sample, on_slot_complete, to_outcome_status,
}
use limen.Limiter.Account.{IsGate, live, all_outcomes}

-- After `n` attempts with `k` slots in flight: the two counters, as far as they have not wrapped.
pub record Accounts {L : Type 0} (n k : ℕ) (s : LimiterState L) : Type 0 where
  pub held : s.inflight ≡ int32 (pos k)
  pub outcomes : int64 (all_outcomes s.outcome_counts +ℤ pos k) ≡ int64 (pos n)

suc-eq-one-add : (k : ℕ) → suc k ≡ 1 + k
suc-eq-one-add k = omega arith

-- The part of the total beside one outcome, and a slot counter.
bump : (a y t t' : ℤ) → t ≡ add64 a (pos 1) +ℤ y → t' ≡ a +ℤ pos 1 +ℤ y → int64 t ≡ int64 t'
unfolding add64
bump a y t t' e e' = rw (e, e') (int64-add (a +ℤ pos 1) y)

-- One more attempt, with the same slots in flight.
next_attempt :
    (t z : ℤ) (n : ℕ)
    → int64 (t +ℤ z) ≡ int64 (pos n)
    → int64 (t +ℤ pos 1 +ℤ z) ≡ int64 (pos (suc n))
next_attempt t z n e =
    ap int64 (omega int_laws)
    ∙ sym (int64-add (t +ℤ z) (pos 1))
    ∙ ap (λ x. int64 (x +ℤ pos 1)) e
    ∙ int64-add (pos n) (pos 1)
    ∙ ap int64 (omega int_laws)

module _ {L : Type 0} where
  count_outcome-total :
      (s : LimiterState L) (status : Status) (z : ℤ)
      → int64 (all_outcomes (count_outcome s status).outcome_counts +ℤ z)
        ≡ int64 (all_outcomes s.outcome_counts +ℤ pos 1 +ℤ z)
  unfolding count_outcome
  count_outcome-total s Status.success z =
      let c = s.outcome_counts in
      bump (c Status.success)
        (c Status.rejected +ℤ c Status.dropped +ℤ c Status.ignored +ℤ c Status.bypassed +ℤ z) _ _
        (omega int_laws) (omega int_laws)
  count_outcome-total s Status.rejected z =
      let c = s.outcome_counts in
      bump (c Status.rejected)
        (c Status.success +ℤ c Status.dropped +ℤ c Status.ignored +ℤ c Status.bypassed +ℤ z) _ _
        (omega int_laws) (omega int_laws)
  count_outcome-total s Status.dropped z =
      let c = s.outcome_counts in
      bump (c Status.dropped)
        (c Status.success +ℤ c Status.rejected +ℤ c Status.ignored +ℤ c Status.bypassed +ℤ z) _ _
        (omega int_laws) (omega int_laws)
  count_outcome-total s Status.ignored z =
      let c = s.outcome_counts in
      bump (c Status.ignored)
        (c Status.success +ℤ c Status.rejected +ℤ c Status.dropped +ℤ c Status.bypassed +ℤ z) _ _
        (omega int_laws) (omega int_laws)
  count_outcome-total s Status.bypassed z =
      let c = s.outcome_counts in
      bump (c Status.bypassed)
        (c Status.success +ℤ c Status.rejected +ℤ c Status.dropped +ℤ c Status.ignored +ℤ z) _ _
        (omega int_laws) (omega int_laws)

  pub count_outcome-Accounts :
      (n k : ℕ) (s : LimiterState L) (status : Status)
      → Accounts n k s
      → Accounts (suc n) k (count_outcome s status)
  unfolding count_outcome
  count_outcome-Accounts n k s status a = record {
    held = a.held;
    outcomes = count_outcome-total s status (pos k) ∙ next_attempt _ (pos k) n a.outcomes;
  }

-- The slots in flight that an answer adds.
abbrev pub granted : Option SlotGuard → ℕ
granted none = 0
granted (some g) = live g

module _ {L : Type 0} (limit : LimitOps L) (gate : Gate L) (bypass : Option (String → Bool))
    (laws : IsGate gate) where
  admit-Accounts :
      (now : ℤ) (n k : ℕ) (s : LimiterState L) (context : String) (r : Option AcquireResult)
      → Accounts n k s
      → (gate.do_acquire s context).1 ≡ r
      → let answer = admit limit gate bypass now ((gate.do_acquire s context).0, r) in
        Accounts (suc n) (granted answer.1 + k) answer.0
  unfolding admit make_slot
  admit-Accounts now n k s context none a e = rw zero-add (
      count_outcome-Accounts n k (gate.do_acquire s context).0 Status.rejected (record {
        held = laws.refused s context e ∙ a.held;
        outcomes = rw (laws.acquire_counts s context) a.outcomes;
      }))
  admit-Accounts now n k s context (some r) a e = record {
    held =
        laws.admitted s context r e
        ∙ ap (λ x. add32 x (pos 1)) a.held
        ∙ add32-int32 k
        ∙ ap (λ m. int32 (pos m)) (suc-eq-one-add k);
    outcomes =
        rw (laws.acquire_counts s context)
          (ap int64 (omega int_laws) ∙ next_attempt _ (pos k) n a.outcomes);
  }

  -- `DoTryAcquire` is one more attempt, and one more slot in flight if it hands out a live guard.
  pub do_try_acquire-Accounts :
      (now : ℤ) (n k : ℕ) (s : LimiterState L) (context : String)
      → Accounts n k s
      → let answer = do_try_acquire limit gate bypass now s context in
        Accounts (suc n) (granted answer.1 + k) answer.0
  unfolding do_try_acquire make_slot
  do_try_acquire-Accounts now n k s context a =
      if_elim {A = LimiterState L × Option SlotGuard}
        (λ answer. Accounts (suc n) (granted answer.1 + k) answer.0)
        (is_bypassed limit gate bypass context)
        (λ _. rw zero-add (count_outcome-Accounts n k s Status.bypassed a))
        (λ _. admit-Accounts now n k s context _ a refl)

  feed_sample-Accounts :
      (now : ℤ) (n k : ℕ) (s : LimiterState L) (status : CompletionStatus) (g : SlotGuard)
      → Accounts n k s
      → Accounts n k (feed_sample limit gate bypass now s status g)
  unfolding feed_sample
  feed_sample-Accounts now n k s CompletionStatus.ignored g a = a
  feed_sample-Accounts now n k s CompletionStatus.success g a = record {
    held = a.held;
    outcomes = a.outcomes;
  }
  feed_sample-Accounts now n k s CompletionStatus.dropped g a = record {
    held = a.held;
    outcomes = a.outcomes;
  }

  -- A completion of a guard that is not bypassed takes its slot out of flight, and counts one outcome.
  pub on_slot_complete-Accounts :
      (now : ℤ) (n k : ℕ) (s : LimiterState L) (status : CompletionStatus) (g : SlotGuard)
      → g.bypassed ≡ false
      → Accounts n (suc k) s
      → Accounts n k (on_slot_complete limit gate bypass now s status g)
  unfolding on_slot_complete count_outcome
  on_slot_complete-Accounts now n k s status g e a =
      let lower = record s { inflight = sub32 s.inflight (pos 1) } in
      let released = gate.on_release_partition lower g.partition_index in
      if_elim (Accounts n k) g.bypassed (λ t. absurd (true_and_false g.bypassed t e))
        λ _. feed_sample-Accounts now n k _ status g (record {
          held =
              laws.release_inflight lower g.partition_index
              ∙ ap (λ x. sub32 x (pos 1)) a.held
              ∙ sub32-int32 k;
          outcomes =
              count_outcome-total released (to_outcome_status status) (pos k)
              ∙ rw (laws.release_counts lower g.partition_index)
                  (ap int64 (omega int_laws) ∙ a.outcomes);
        })
