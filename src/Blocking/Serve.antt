-- ===== src/Blocking/Serve.antt =====
-- `Unblock` serves the queue in order, and stops only for a good reason.
use limen.Base.{
  ℕ, ◌≡◌, refl, ap, ◌∙◌, false, ◌==◌, List, [], ◌∷◌, ◌++◌, Option, none, some, All, arith, ◌⊎◌, inl,
  inr, if_elim,
}
use limen.Limiter.Guard.{SlotGuard, LimiterOps, try_acquire}
use limen.Blocking.Defs.{Waiter, Blocking, Served, serve, unblock, set_slot_of}

abbrev pub IsSome : {A : Type 0} → Option A → Type 0
IsSome none = ⊥
IsSome (some a) = Unit

-- The loop from a delegate, the frames' slots and a queue: the waiters before the new queue have a
-- slot each, no slot was taken back, other frames' slots are as before, and either nobody is left or
-- the delegate's last answer rejected the one at the front.
pub record Handoff {S : Type 0} (limiter : LimiterOps S) (slot_of : ℕ → Option SlotGuard)
    (queue : List Waiter) (r : Served S) : Type 0 where
  pub served : List Waiter
  pub in_order : queue ≡ served ++ r.queue
  pub delivered : All (λ w. IsSome (r.slot_of w.frame)) served
  pub kept : (i : ℕ) → IsSome (slot_of i) → IsSome (r.slot_of i)
  pub untouched : (i : ℕ) → All (λ w. (w.frame == i) ≡ false) served → r.slot_of i ≡ slot_of i
  pub stop :
      (r.queue ≡ [])
      ⊎ ((s : S) × (w : Waiter) × (rest : List Waiter) × (r.queue ≡ w ∷ rest)
          × (try_acquire limiter s w.context ≡ (r.delegate, none)))

module _ {S : Type 0} (limiter : LimiterOps S) where
  set-IsSome :
      (slot_of : ℕ → Option SlotGuard) (i j : ℕ) (g : SlotGuard)
      → IsSome (slot_of i)
      → IsSome (set_slot_of slot_of j (some g) i)
  set-IsSome slot_of i j g h = if_elim IsSome (i == j) (λ t. tt) (λ f. h)

  set_self :
      (slot_of : ℕ → Option SlotGuard) (i : ℕ) (g : SlotGuard)
      → IsSome (set_slot_of slot_of i (some g) i)
  set_self slot_of i g = if_elim IsSome (i == i) (λ t. tt) (λ f. absurd (ground arith))

  passed :
      (slot_of : ℕ → Option SlotGuard) (i j : ℕ) (g : SlotGuard)
      → (j == i) ≡ false
      → set_slot_of slot_of j (some g) i ≡ slot_of i
  passed slot_of i j g h =
      if_elim (λ o. o ≡ slot_of i) (i == j) (λ t. absurd (ground arith)) (λ f. refl)

  -- A waiter that the delegate admits goes before what the rest of the loop serves.
  serve_one :
      (slot_of : ℕ → Option SlotGuard) (w : Waiter) (g : SlotGuard) (rest : List Waiter)
      (r : Served S)
      → Handoff limiter (set_slot_of slot_of w.frame (some g)) rest r
      → Handoff limiter slot_of (w ∷ rest) r
  serve_one slot_of w g rest r h = record {
    served = w ∷ h.served;
    in_order = ap (λ q. w ∷ q) h.in_order;
    delivered = (h.kept w.frame (set_self slot_of w.frame g), h.delivered);
    kept = λ i k. h.kept i (set-IsSome slot_of i w.frame g k);
    untouched = λ i u. h.untouched i u.1 ∙ passed slot_of i w.frame g u.0;
    stop = h.stop;
  }

  serve_next :
      (delegate : S) (slot_of : ℕ → Option SlotGuard) (w : Waiter) (rest : List Waiter)
      (answer : S × Option SlotGuard)
      → try_acquire limiter delegate w.context ≡ answer
      → ((s : S) (slots : ℕ → Option SlotGuard)
          → Handoff limiter slots rest (serve limiter s slots rest))
      → Handoff limiter slot_of (w ∷ rest) (elim answer.1 [
        | none ↦ record { delegate = answer.0; slot_of = slot_of; queue = w ∷ rest }
        | some g ↦ serve limiter answer.0 (set_slot_of slot_of w.frame (some g)) rest
      ])
  serve_next delegate slot_of w rest (s, none) e k = record {
    served = [];
    in_order = refl;
    delivered = tt;
    kept = λ i h. h;
    untouched = λ i h. refl;
    stop = inr (delegate, w, rest, refl, e);
  }
  serve_next delegate slot_of w rest (s, some g) e k =
      serve_one slot_of w g rest _ (k s (set_slot_of slot_of w.frame (some g)))

  serve-Handoff :
      (delegate : S) (slot_of : ℕ → Option SlotGuard) (queue : List Waiter)
      → Handoff limiter slot_of queue (serve limiter delegate slot_of queue)
  unfolding serve
  serve-Handoff delegate slot_of [] = record {
    served = [];
    in_order = refl;
    delivered = tt;
    kept = λ i h. h;
    untouched = λ i h. refl;
    stop = inl refl;
  }
  serve-Handoff delegate slot_of (w ∷ rest) =
      serve_next delegate slot_of w rest (try_acquire limiter delegate w.context) refl
        (λ s slots. serve-Handoff s slots rest)

  -- A release hands slots to the waiters at the front of the queue, one each and in the order of the
  -- queue, and touches no other waiter. It stops only when nobody waits or when the delegate, asked
  -- last, rejects the waiter that is then at the front.
  pub unblock-Handoff :
      (b : Blocking S)
      → let b' = unblock limiter b in
        Handoff limiter b.slot_of b.queue
          (record { delegate = b'.delegate; slot_of = b'.slot_of; queue = b'.queue })
  unfolding unblock
  unblock-Handoff b = serve-Handoff b.delegate b.slot_of b.queue
