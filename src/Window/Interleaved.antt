-- ===== src/Window/Interleaved.antt =====
-- Concurrent calls of `PercentileSampleWindow::AddSample` leave the window that they leave one at a time.
use limen.Base.{
  ◌≡◌, refl, sym, ap, ◌∙◌, Bool, true, false, if◌then◌else◌, ltb, List, [], ◌∷◌, ◌++◌, ℕ, zero, suc,
  ◌+◌, ◌≤◌, ◌<◌, ◌^◌, ℤ, pos, negsuc, eqb_ℤ, add32, add32-pos, sum_of, sum_of-middle,
  sum_of-replicate, length, All, All-middle, All-replicate, All-map, replicate, arith,
}
use limen.Double.{DoubleOps}
use limen.Window.Defs.{Entry, after_entries}
use limen.Window.Percentile.{PercentileWindow, add_sample, percentile_window}
use limen.Window.Claims.{Pc, idle, claimed, Move, System, begins, moves, Reach, start, later}
use limen.Window.Accesses.{
  Access, stores_at, lowers_to, raises_to, drops, flags, pending, all_pending, all_pending-middle,
  claims, clash-claims, clash-shared, clashes,
}
use limen.Window.Pending.{apply, run, run-first, run-last, counted, run-counted, run-sample_count}
use limen.Window.Effects.{Seen, Effect, none, next, Move-Effect, Move-Moved}

-- The threads that may be about to store at an index, with `n` indices handed out.
abbrev pub room : ℤ → ℕ → ℕ
room (pos k) n = if ltb k n then 1 else 0
room (negsuc k) n = 0

room-le : (i : ℤ) (n : ℕ) → room i n ≤ 1
room-le (pos k) n = ground arith
room-le (negsuc k) n = omega arith

room-suc : (i : ℤ) (n : ℕ) → room i n + (if eqb_ℤ i (pos n) then 1 else 0) ≤ room i (suc n)
room-suc (pos k) n = ground arith
room-suc (negsuc k) n = ground arith

room-same : (i : ℤ) (n : ℕ) → i ≡ pos n → room i n ≡ 0
room-same (pos k) n e = ground arith
room-same (negsuc k) n e = refl

clashes-flags : (e : Entry) (bs : List Access) → clashes (flags e) bs ≡ 0
clashes-flags e bs = flagged e.did_drop
  where
    flagged : (b : Bool) → clashes (if b then drops ∷ [] else []) bs ≡ 0
    flagged true = omega (arith, clash-shared drops tt bs)
    flagged false = refl

clashes-claimed :
    (i : ℤ) (e : Entry) (ps : List Pc)
    → sum_of (claims i) ps ≡ 0
    → clashes (pending (claimed i e)) (all_pending ps) ≡ 0
clashes-claimed i e ps h =
    let bs = all_pending ps in
    omega (
      arith,
      h,
      clash-claims i e.rtt_ns ps,
      clash-shared (lowers_to e.rtt_ns) tt bs,
      clash-shared (raises_to e.inflight) tt bs,
      clashes-flags e bs,
    )

run-flags :
    {D : Type 0} (w : PercentileWindow D) (b : Bool)
    → run w (if b then drops ∷ [] else []) ≡ record w { did_drop = if b then true else w.did_drop }
run-flags w true = refl
run-flags w false = refl

-- The thread is in no call.
abbrev pub IsIdle : Pc → Type 0
IsIdle idle = Unit
IsIdle _ = ⊥

module _ (d : DoubleOps) (fresh : PercentileWindow d.Double) where
  -- The writes of a call, after its `fetch_add`, are the call.
  run-add_sample :
      (w : PercentileWindow d.Double) (e : Entry)
      → run (counted w) (pending (claimed w.sample_count e)) ≡ add_sample d w e
  unfolding add_sample
  run-add_sample w e =
      run-flags
        (apply (raises_to e.inflight)
          (apply (lowers_to e.rtt_ns) (apply (stores_at w.sample_count e.rtt_ns) (counted w))))
        e.did_drop

  -- The window after one call at a time, in the order in which the entries were counted.
  abbrev sequential : List Entry → PercentileWindow d.Double
  sequential = after_entries (percentile_window d) fresh

  record IsSafe (x : System d.Double) : Type 0 where
    count : x.window.sample_count ≡ pos (length x.log)
    claimed_once : (i : ℤ) → sum_of (claims i) x.threads ≤ room i (length x.log)
    seen : All (Seen x.window) x.threads
    finishes : run x.window (all_pending x.threads) ≡ sequential x.log

  -- A call that begins.
  begins-finishes :
      (w : PercentileWindow d.Double) (before behind : List Pc) (e : Entry)
      → sum_of (claims w.sample_count) behind ≡ 0
      → run (counted w) (all_pending (before ++ claimed w.sample_count e ∷ behind))
        ≡ add_sample d (run w (all_pending (before ++ idle ∷ behind))) e
  begins-finishes w before behind e h =
      let bs = all_pending before in
      let rest = all_pending behind in
      let call = pending (claimed w.sample_count e) in
      let v = run w (bs ++ rest) in
      ap (run (counted w)) (all_pending-middle before behind (claimed w.sample_count e))
      ∙ run-last bs call rest (counted w) (clashes-claimed w.sample_count e behind h)
      ∙ ap (λ u. run u call) (run-counted w (bs ++ rest))
      ∙ ap (λ i. run (counted v) (pending (claimed i e))) (sym (run-sample_count w (bs ++ rest)))
      ∙ run-add_sample v e
      ∙ ap (λ cs. add_sample d (run w cs) e) (sym (all_pending-middle before behind idle))

  begins-IsSafe :
      (x : System d.Double) (before behind : List Pc) (e : Entry)
      → suc (length x.log) < 2 ^ 31
      → x.threads ≡ before ++ idle ∷ behind
      → IsSafe x
      → IsSafe (record {
        window = counted x.window;
        threads = before ++ claimed x.window.sample_count e ∷ behind;
        log = e ∷ x.log;
      })
  unfolding after_entries
  begins-IsSafe x before behind e few at h =
      let n = length x.log in
      let split =
        λ (i : ℤ). ap (sum_of (claims i)) at ∙ sum_of-middle (claims i) before behind idle in
      let all : All (Seen x.window) (before ++ idle ∷ behind) = rw (← at) h.seen in
      let (mine, others) = All-middle (Seen x.window) before behind idle all in
      record {
        count = ap (λ i. add32 i (pos 1)) h.count ∙ add32-pos n few;
        claimed_once = λ i. omega (
          arith,
          sum_of-middle (claims i) before behind (claimed x.window.sample_count e),
          split i,
          h.claimed_once i,
          room-suc i n,
          ap (λ j. claims i (claimed j e)) h.count,
        );
        seen = others (claimed x.window.sample_count e) tt;
        finishes =
            begins-finishes x.window before behind e (
              omega (
                arith,
                split x.window.sample_count,
                h.claimed_once x.window.sample_count,
                room-same x.window.sample_count n h.count,
              ))
            ∙ ap (λ ps. add_sample d (run x.window (all_pending ps)) e) (sym at)
            ∙ ap (λ w. add_sample d w e) h.finishes;
      }

  -- A step of a call that has begun.
  moved-finishes :
      (w w' : PercentileWindow d.Double) (before behind : List Pc) (p q : Pc)
      → ((i : ℤ) → claims i p + sum_of (claims i) before ≤ 1)
      → Effect w p w' q
      → run w' (all_pending (before ++ q ∷ behind)) ≡ run w (all_pending (before ++ p ∷ behind))
  moved-finishes w w' before behind p q h (none e f) =
      ap (λ v. run v (all_pending (before ++ q ∷ behind))) (sym f)
      ∙ ap (run w) (
          all_pending-middle before behind q
          ∙ ap (λ cs. all_pending before ++ (cs ++ all_pending behind)) (sym e)
          ∙ sym (all_pending-middle before behind p))
  moved-finishes w w' before behind p q h (next c e f k) =
      ap (λ v. run v (all_pending (before ++ q ∷ behind))) (sym f)
      ∙ ap (run (apply c w)) (all_pending-middle before behind q)
      ∙ sym (run-first c (all_pending before) (pending q ++ all_pending behind) w (k before h))
      ∙ ap (λ cs. run w (all_pending before ++ (cs ++ all_pending behind))) (sym e)
      ∙ ap (run w) (sym (all_pending-middle before behind p))

  moves-IsSafe :
      (x : System d.Double) (before behind : List Pc) (p : Pc) (w : PercentileWindow d.Double)
      (q : Pc)
      → x.threads ≡ before ++ p ∷ behind
      → Move x.window p w q
      → IsSafe x
      → IsSafe (record { window = w; threads = before ++ q ∷ behind; log = x.log })
  moves-IsSafe x before behind p w q at move h =
      let all : All (Seen x.window) (before ++ p ∷ behind) = rw (← at) h.seen in
      let (mine, others) = All-middle (Seen x.window) before behind p all in
      let k = Move-Moved x.window p w q mine move in
      let split = λ (i : ℤ). ap (sum_of (claims i)) at ∙ sum_of-middle (claims i) before behind p in
      let kept = All-map (Seen x.window) (Seen w) (before ++ p ∷ behind) k.others all in
      record {
        count = k.count ∙ h.count;
        claimed_once = λ i.
            omega (
              arith,
              sum_of-middle (claims i) before behind q,
              split i,
              h.claimed_once i,
              k.fewer i,
            );
        seen = (All-middle (Seen w) before behind p kept).1 q k.own;
        finishes =
            moved-finishes x.window w before behind p q
              (λ i. omega (arith, split i, h.claimed_once i, room-le i (length x.log)))
              (Move-Effect x.window p w q mine move)
            ∙ ap (λ ps. run x.window (all_pending ps)) (sym at)
            ∙ h.finishes;
      }

  idle-pending : (n : ℕ) → all_pending (replicate n idle) ≡ []
  idle-pending zero = refl
  idle-pending (suc n) = idle-pending n

  Reach-IsSafe :
      (x : System d.Double)
      → fresh.sample_count ≡ pos 0
      → length x.log < 2 ^ 31
      → Reach fresh x
      → IsSafe x
  unfolding after_entries
  Reach-IsSafe x e few (start n) = record {
    count = e;
    claimed_once = λ i. omega (arith, sum_of-replicate (claims i) n idle refl);
    seen = All-replicate (Seen fresh) n idle tt;
    finishes = ap (run fresh) (idle-pending n);
  }
  Reach-IsSafe y e few (later {x} reached (begins before behind entry at)) =
      begins-IsSafe x before behind entry few at (Reach-IsSafe x e (omega (arith, few)) reached)
  Reach-IsSafe y e few (later {x} reached (moves before behind p {w} {q} at move)) =
      moves-IsSafe x before behind p w q at move (Reach-IsSafe x e few reached)

  none-pending : (threads : List Pc) → All IsIdle threads → all_pending threads ≡ []
  none-pending [] h = refl
  none-pending (idle ∷ rest) h = none-pending rest h.1
  none-pending (_ ∷ rest) h = absurd h.0

  -- Threads call `AddSample` on one window, an access to an atomic at a time, with weak exchanges that
  -- may fail, and nobody resets it. In every state that they can reach, with fewer than 2^31 calls begun
  -- since the counter was zero, the window that is left when each call has returned is the one that the
  -- calls leave one at a time, in the order in which they took their indices: no sample is lost, none is
  -- stored over another, and the minimum, the maximum and the flag are theirs.
  pub Reach-sequential :
      (x : System d.Double)
      → fresh.sample_count ≡ pos 0
      → length x.log < 2 ^ 31
      → Reach fresh x
      → All IsIdle x.threads
      → x.window ≡ after_entries (percentile_window d) fresh x.log
  Reach-sequential x e few reached still =
      let h = Reach-IsSafe x e few reached in
      ap (run x.window) (sym (none-pending x.threads still)) ∙ h.finishes
