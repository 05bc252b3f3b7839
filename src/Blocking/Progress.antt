-- ===== src/Blocking/Progress.antt =====
-- A release serves as many waiters as the delegate has room for; a release that comes between a
-- caller's rejection and its parking serves none.
use native.Mathlib.Nat.{sub-zero, zero-sub, suc-sub-suc}
use limen.Base.{
  ℕ, zero, suc, ◌-◌, ◌≡◌, true, false, List, [], ◌∷◌, length, Option, none, some, String, arith,
}
use limen.Limiter.Guard.{SlotGuard, LimiterOps, try_acquire}
use limen.Blocking.Defs.{Waiter, Blocking, Served, set_slot_of, serve, unblock}
use limen.Blocking.Frames.{is_none}

-- A delegate with a predicate "k slots are free" that tells whether it admits a call.
pub record IsCounted {S : Type 0} (limiter : LimiterOps S) (Free : ℕ → S → Type 0) : Type 0 where
  pub admits :
      (k : ℕ) (s : S) (context : String)
      → Free (suc k) s
      → (is_none (try_acquire limiter s context).1 ≡ false)
        × Free k (try_acquire limiter s context).0
  pub rejects :
      (s : S) (context : String)
      → Free 0 s
      → (is_none (try_acquire limiter s context).1 ≡ true)
        × Free 0 (try_acquire limiter s context).0

module _ {S : Type 0} (limiter : LimiterOps S) (Free : ℕ → S → Type 0)
    (laws : IsCounted limiter Free) where
  -- How the loop ends that began with `k` free slots and `n` waiters.
  record Drained (k n : ℕ) (r : Served S) : Type 0 where
    left : length r.queue ≡ n - k
    free : Free (k - n) r.delegate

  serve-Drained :
      (k : ℕ) (s : S) (slot_of : ℕ → Option SlotGuard) (queue : List Waiter)
      → Free k s
      → Drained k (length queue) (serve limiter s slot_of queue)
  unfolding serve
  serve-Drained k s slot_of [] h = record { left = omega arith; free = rw sub-zero h }
  serve-Drained zero s slot_of (w ∷ rest) h =
      let (e, f) = laws.rejects s w.context h in rejected (try_acquire limiter s w.context) e f
    where
      rejected :
          (answer : S × Option SlotGuard)
          → is_none answer.1 ≡ true
          → Free 0 answer.0
          → Drained 0 (suc (length rest)) (elim answer.1 [
            | none ↦ record { delegate = answer.0; slot_of = slot_of; queue = w ∷ rest }
            | some g ↦ serve limiter answer.0 (set_slot_of slot_of w.frame (some g)) rest
          ])
      rejected (s', none) e f = record { left = omega arith; free = rw zero-sub f }
      rejected (s', some g) e f = cc
  serve-Drained (suc k) s slot_of (w ∷ rest) h =
      let (e, f) = laws.admits k s w.context h in
      admitted (try_acquire limiter s w.context) e f
        (λ s' slots f'. serve-Drained k s' slots rest f')
    where
      admitted :
          (answer : S × Option SlotGuard)
          → is_none answer.1 ≡ false
          → Free k answer.0
          → ((s' : S) (slots : ℕ → Option SlotGuard)
              → Free k s'
              → Drained k (length rest) (serve limiter s' slots rest))
          → Drained (suc k) (suc (length rest)) (elim answer.1 [
            | none ↦ record { delegate = answer.0; slot_of = slot_of; queue = w ∷ rest }
            | some g ↦ serve limiter answer.0 (set_slot_of slot_of w.frame (some g)) rest
          ])
      admitted (s', none) e f ih = cc
      admitted (s', some g) e f ih =
          let d = ih s' (set_slot_of slot_of w.frame (some g)) f in
          record { left = omega (arith, d.left); free = rw suc-sub-suc d.free }

  -- With k slots free at the delegate, `Unblock` serves exactly min(k, n) of the n waiters, so that
  -- n - k of them still wait, and k - n slots are then free: no waiter is left while a slot is free,
  -- and none is overtaken by a slot that stays free. It is assumed of the delegate that it admits a
  -- call exactly while a slot is free, and that this takes one.
  pub length-unblock :
      (k : ℕ) (b : Blocking S)
      → Free k b.delegate
      → let b' = unblock limiter b in
        (length b'.queue ≡ length b.queue - k) × Free (k - length b.queue) b'.delegate
  unfolding unblock
  length-unblock k b h = let d = serve-Drained k b.delegate b.slot_of b.queue h in (d.left, d.free)
