-- ===== src/Simple/Capacity.antt =====
-- The simple limiter over a whole history of calls: it keeps the gate's contract, and never has more
-- slots out than the largest limit.
use limen.Base.{
  ℕ, ◌+◌, ◌≤◌, ◌<◌, ◌^◌, ◌≡◌, refl, Bool, false, List, [], ◌∷◌, ℤ, pos, ◌≤ℤ◌, leb_ℤ, int32,
  int32-eq_self, Option, none, some, String, get_elem?, sum_of-set, sum_of-append, arith, if_elim,
  Option-cases, inl, inr, ◌∙◌, add32,
}
use limen.Limit.Defs.{LimitOps}
use limen.Limiter.Guard.{CompletionStatus, SlotGuard, make_slot, complete, destroy}
use limen.Limiter.Defs.{LimiterState, AcquireResult, is_bypassed, admit, do_try_acquire, limiter_at}
use limen.Limiter.Account.{
  IsGate, Op, acquires, completes, destroys, World, live, in_flight, step, after, hand_out,
  on_guard,
}
use limen.Limiter.Ledger.{after-Accounts}
use limen.Limiter.Balance.{granted}
use limen.Limiter.Kept.{Keeps, after-keeps}
use limen.Simple.Defs.{simple_acquire, simple_gate}

module _ {L : Type 0} (limit : LimitOps L) where
  -- One answer of the gate, whether there is room or not.
  record Kept (s : LimiterState L) (x : LimiterState L × Option AcquireResult) : Type 0 where
    admitted : (a : AcquireResult) → x.1 ≡ some a → x.0.inflight ≡ add32 s.inflight (pos 1)
    refused : x.1 ≡ none → x.0.inflight ≡ s.inflight
    counts : x.0.outcome_counts ≡ s.outcome_counts

  simple_acquire-Kept :
      (s : LimiterState L) (context : String) → Kept s (simple_acquire limit s context)
  unfolding simple_acquire
  simple_acquire-Kept s context =
      if_elim {A = LimiterState L × Option AcquireResult} (Kept s)
        (leb_ℤ (limit.get_limit s.limit) s.inflight)
        (λ t. record { admitted = λ a e. cc; refused = λ e. refl; counts = refl })
        (λ f. record { admitted = λ a e. refl; refused = λ e. cc; counts = refl })

  pub simple_gate-IsGate : IsGate (simple_gate limit)
  simple_gate-IsGate = record {
    admitted = λ s context. (simple_acquire-Kept s context).admitted;
    refused = λ s context. (simple_acquire-Kept s context).refused;
    acquire_counts = λ s context. (simple_acquire-Kept s context).counts;
    release_inflight = λ s index. refl;
    release_counts = λ s index. refl;
  }

  simple_acquire-limit :
      (s : LimiterState L) (context : String) → (simple_acquire limit s context).0.limit ≡ s.limit
  unfolding simple_acquire
  simple_acquire-limit s context = ground arith

  -- What the samples keep, the gate keeps too.
  pub simple_gate-Keeps :
      (P : L → Type 0)
      → ((l : L) (start rtt inflight : ℤ) (did_drop : Bool)
          → P l
          → P (limit.on_sample l start rtt inflight did_drop))
      → Keeps limit (simple_gate limit) P
  simple_gate-Keeps P keep = record {
    acquire = λ s context h. rw (simple_acquire-limit s context) h;
    release = λ s index h. h;
    sample = keep;
  }

module _ {L : Type 0} (limit : LimitOps L) (bypass : Option (String → Bool)) (top : ℕ) where
  hand_out-in_flight :
      (guards : List SlotGuard) (r : LimiterState L × Option SlotGuard)
      → in_flight (hand_out guards r).guards ≡ in_flight guards + granted r.1
  unfolding hand_out
  hand_out-in_flight guards (s, none) = omega arith
  hand_out-in_flight guards (s, some g) = omega (arith, sum_of-append live guards (g ∷ []))

  -- A call is granted a slot only below the limit.
  granted-le :
      (now : ℤ) (k : ℕ) (s : LimiterState L) (context : String)
      → k ≤ top
      → s.inflight ≡ pos k
      → limit.get_limit s.limit ≤ℤ pos top
      → k + granted (do_try_acquire limit (simple_gate limit) bypass now s context).1 ≤ top
  unfolding do_try_acquire admit simple_acquire make_slot
  granted-le now k s context b i l =
      if_elim {A = LimiterState L × Option SlotGuard} (λ r. k + granted r.1 ≤ top)
        (is_bypassed limit (simple_gate limit) bypass context) (λ t. omega arith)
        (λ f.
          if_elim {A = LimiterState L × Option AcquireResult}
            (λ r. k + granted (admit limit (simple_gate limit) bypass now r).1 ≤ top)
            (leb_ℤ (limit.get_limit s.limit) s.inflight) (λ full. omega arith)
            (λ room. below k (limit.get_limit s.limit) s.inflight i l room))
    where
      below :
          (k : ℕ) (cap inflight : ℤ)
          → inflight ≡ pos k
          → cap ≤ℤ pos top
          → leb_ℤ cap inflight ≡ false
          → k + 1 ≤ top
      below k cap inflight i l room = ground arith

  -- A completion or a destruction leaves no more slots out than before.
  on_guard-le :
      (w : World L) (i : ℕ) (f : SlotGuard → LimiterState L × SlotGuard)
      → ((g : SlotGuard) → live (f g).1 ≤ live g)
      → in_flight (on_guard w i (get_elem? w.guards i) f).guards ≤ in_flight w.guards
  unfolding on_guard
  on_guard-le w i f le = elim (Option-cases (get_elem? w.guards i)) [
    | inl e ↦ rw (e, on_guard) (omega arith)
    | inr (g, e) ↦ rw (e, on_guard) (omega (arith, le g, sum_of-set live w.guards i g (f g).1 e))
  ]

  complete-le :
      (now : ℤ) (s : LimiterState L) (g : SlotGuard) (status : CompletionStatus)
      → live (complete (limiter_at limit (simple_gate limit) bypass now) s g status).1 ≤ live g
  unfolding complete
  complete-le now s g status = ground arith

  detached-le : (g : SlotGuard) → live (record g { attached = false }) ≤ live g
  detached-le g = ground arith

  fits_int : (n : ℕ) → n ≤ top → top < 2 ^ 31 → int32 (pos n) ≡ pos n
  fits_int n h t = int32-eq_self (pos n) (ground arith)

  step-le :
      (w : World L) (op : Op)
      → in_flight w.guards ≤ top
      → w.state.inflight ≡ pos (in_flight w.guards)
      → limit.get_limit w.state.limit ≤ℤ pos top
      → in_flight (step limit (simple_gate limit) bypass w op).guards ≤ top
  unfolding step
  step-le w (acquires now context) b i l = omega (
    arith,
    hand_out-in_flight w.guards
        (do_try_acquire limit (simple_gate limit) bypass now w.state context),
    granted-le now (in_flight w.guards) w.state context b i l,
  )
  step-le w (completes now j status) b i l = omega (
    arith,
    on_guard-le w j
        (λ g. complete (limiter_at limit (simple_gate limit) bypass now) w.state g status)
        (λ g. complete-le now w.state g status),
  )
  step-le w (destroys now j) b i l = omega (
    arith,
    on_guard-le w j
        (λ g. (
          destroy (limiter_at limit (simple_gate limit) bypass now) w.state g,
          record g { attached = false },
        ))
        detached-le,
  )

  -- What is proved below of a history, in one induction.
  after-le :
      (P : L → Type 0)
      → ((l : L) (start rtt inflight : ℤ) (did_drop : Bool)
          → P l
          → P (limit.on_sample l start rtt inflight did_drop))
      → ((l : L) → P l → limit.get_limit l ≤ℤ pos top)
      → top < 2 ^ 31
      → (l : L) (history : List Op) → P l
      → in_flight (after limit (simple_gate limit) bypass l history).guards ≤ top
  unfolding after
  after-le P keep below int l [] p = omega arith
  after-le P keep below int l (op ∷ past) p =
      let b = after-le P keep below int l past p in
      step-le (after limit (simple_gate limit) bypass l past) op b
        ((after-Accounts limit (simple_gate limit) bypass (simple_gate-IsGate limit) l past).0
          ∙ fits_int _ b int)
        (below _ (
          after-keeps limit (simple_gate limit) bypass P (simple_gate-Keeps limit P keep) l past p))

  -- If the samples keep a predicate and the limit is at most `top` where it holds, then after any
  -- history of calls, completions and destructions there are at most `top` slots out, bypassed calls
  -- aside, and `InflightCount` is their number. It is assumed that `top` is an int.
  pub after-in_flight :
      (P : L → Type 0)
      → ((l : L) (start rtt inflight : ℤ) (did_drop : Bool)
          → P l
          → P (limit.on_sample l start rtt inflight did_drop))
      → ((l : L) → P l → limit.get_limit l ≤ℤ pos top)
      → top < 2 ^ 31
      → (l : L) (history : List Op) → P l
      → let w = after limit (simple_gate limit) bypass l history in
        (in_flight w.guards ≤ top) × (w.state.inflight ≡ pos (in_flight w.guards))
  after-in_flight P keep below int l history p =
      let b = after-le P keep below int l history p in
      (
        b,
        (after-Accounts limit (simple_gate limit) bypass (simple_gate-IsGate limit) l history).0
            ∙ fits_int _ b int,
      )
