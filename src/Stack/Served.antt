-- ===== src/Stack/Served.antt =====
-- What examples/quickstart.cc counts: requests that come one at a time are never refused.
use limen.Base.{
  ℕ, suc, ◌+◌, ◌<◌, ◌^◌, ◌≡◌, refl, Bool, true, false, ℤ, pos, ◌+ℤ◌, ◌≤ℤ◌, add32, sub32, add32-pos,
  List, [], ◌∷◌, length, arith, negsuc, ◌<ℤ◌, int32, ◌-ℤ◌,
}
use limen.Limit.Defs.{LimitOps}
use limen.Limiter.Guard.{make_slot, complete}
use limen.Limiter.Defs.{
  LimiterState, admit, is_bypassed, do_try_acquire, on_slot_complete, feed_sample, count_outcome,
}
use limen.Simple.Defs.{simple_acquire_iff}
use limen.Codel.Time.{AbslTime}
use limen.Codel.Filter.{Codel}
use limen.Stack.Quickstart.{Reading, Demo, finish, dequeue, request, requests}

module _ (a : AbslTime) {L : Type 0} (limit : LimitOps L) (P : L → Type 0)
    (keep : (l : L) (start rtt inflight : ℤ) (did_drop : Bool)
      → P l
      → P (limit.on_sample l start rtt inflight did_drop))
    (positive : (l : L) → P l → pos 1 ≤ℤ limit.get_limit l) where
  -- After `n` rounds: nothing is out, nothing was rejected, and each round was counted.
  pub record Tally (n : ℕ) (s : Demo a L) : Type 0 where
    pub k : ℕ
    pub m : ℕ
    pub all : k + m ≡ n
    pub admitted_is : s.admitted ≡ pos k
    pub dropped_is : s.dropped ≡ pos m
    pub rejected_is : s.rejected ≡ pos 0
    pub inflight_is : s.limiter.inflight ≡ pos 0
    pub kept : P s.limiter.limit

  -- One slot is out.
  abbrev taken : Demo a L → LimiterState L
  taken s = record s.limiter { inflight = add32 s.limiter.inflight (pos 1) }

  given_back : (x : ℤ) → x ≡ pos 0 → sub32 (add32 x (pos 1)) (pos 1) ≡ pos 0
  unfolding add32 sub32 int32 ◌+ℤ◌ ◌-ℤ◌
  given_back x e = rw e refl

  finish-Tally :
      (n : ℕ) (s : Demo a L) (start now post : ℤ) (codel : Codel a) (drop : Bool)
      → suc n < 2 ^ 31
      → Tally n s
      → Tally (suc n) (
          finish a limit
            (record s { limiter = taken s })
            now
            (make_slot start post false (negsuc 0))
            (codel, drop))
  unfolding finish complete make_slot on_slot_complete feed_sample count_outcome
  finish-Tally n s start now post codel true lt h = record {
    k = h.k;
    m = suc h.m;
    all = omega (arith, h.all);
    admitted_is = h.admitted_is;
    dropped_is = rw h.dropped_is (add32-pos h.m (omega (arith, h.all)));
    rejected_is = h.rejected_is;
    inflight_is = given_back s.limiter.inflight h.inflight_is;
    kept = keep _ _ _ _ _ h.kept;
  }
  finish-Tally n s start now post codel false lt h = record {
    k = suc h.k;
    m = h.m;
    all = omega (arith, h.all);
    admitted_is = rw h.admitted_is (add32-pos h.k (omega (arith, h.all)));
    dropped_is = h.dropped_is;
    rejected_is = h.rejected_is;
    inflight_is = given_back s.limiter.inflight h.inflight_is;
    kept = keep _ _ _ _ _ h.kept;
  }

  below : (x y : ℤ) → x ≡ pos 0 → pos 1 ≤ℤ y → x <ℤ y
  below x y e h = ground arith

  request-Tally :
      (n : ℕ) (s : Demo a L) (r : Reading a)
      → suc n < 2 ^ 31
      → Tally n s
      → Tally (suc n) (request a limit s r)
  unfolding request do_try_acquire is_bypassed admit dequeue
  request-Tally n s r lt h =
      let e =
        (simple_acquire_iff limit s.limiter "demo").0
          (below _ _ h.inflight_is (positive s.limiter.limit h.kept)) in
      rw e (finish-Tally n s _ _ _ _ _ lt h)

  pub recount : (m n : ℕ) (s : Demo a L) → m ≡ n → Tally m s → Tally n s
  recount m n s e h = rw (← e) h

  pub requests-Tally :
      (n : ℕ) (s : Demo a L) (readings : List (Reading a))
      → n + length readings < 2 ^ 31
      → Tally n s
      → Tally (n + length readings) (requests a limit s readings)
  unfolding requests
  requests-Tally n s [] lt h = recount n _ s (omega arith) h
  requests-Tally n s (r ∷ rest) lt h = recount _ _ _ (omega arith) (
      requests-Tally (suc n) (request a limit s r) rest (omega (arith, lt))
        (request-Tally n s r (omega (arith, lt)) h))
