-- ===== src/Window/Claims.antt =====
-- `PercentileSampleWindow::AddSample` by several threads, an access to an atomic at a time.
use limen.Base.{◌≡◌, true, false, List, [], ◌∷◌, ◌++◌, ℕ, ℤ, pos, add32, ◌≤ℤ◌, ◌<ℤ◌, replicate}
use limen.Window.Defs.{Entry}
use limen.Window.Percentile.{PercentileWindow, store_at}

-- Where a thread stands, with the entry that it adds and its local variables.
pub data Pc : Type 0 where
  idle : Pc
  -- with its index, before the store
  claimed : ℤ → Entry → Pc
  -- before `current_min` is loaded, then with it
  lowering : Entry → Pc
  at_min : Entry → ℤ → Pc
  -- the same with `current_max`
  raising : Entry → Pc
  at_max : Entry → ℤ → Pc
  -- before the test of `did_drop`
  marking : Entry → Pc

module _ {D : Type 0} where
  -- One step of one thread after it has its index. A weak exchange may fail although the values agree,
  -- and loads the live one.
  pub data Move (w : PercentileWindow D) : Pc → PercentileWindow D → Pc → Type 0 where
    stores :
        {i : ℤ} {e : Entry}
        → i <ℤ w.max_samples
        → Move w (claimed i e) (record w { rtts = store_at w.rtts i e.rtt_ns }) (lowering e)
    skips : {i : ℤ} {e : Entry} → w.max_samples ≤ℤ i → Move w (claimed i e) w (lowering e)
    load_min : {e : Entry} → Move w (lowering e) w (at_min e w.min_rtt_ns)
    keep_min :
        {e : Entry} {current : ℤ} → current ≤ℤ e.rtt_ns → Move w (at_min e current) w (raising e)
    lower_min :
        {e : Entry} {current : ℤ}
        → e.rtt_ns <ℤ current
        → w.min_rtt_ns ≡ current
        → Move w (at_min e current) (record w { min_rtt_ns = e.rtt_ns }) (raising e)
    lose_min :
        {e : Entry} {current : ℤ}
        → e.rtt_ns <ℤ current
        → Move w (at_min e current) w (at_min e w.min_rtt_ns)
    load_max : {e : Entry} → Move w (raising e) w (at_max e w.max_inflight)
    keep_max :
        {e : Entry} {current : ℤ} → e.inflight ≤ℤ current → Move w (at_max e current) w (marking e)
    raise_max :
        {e : Entry} {current : ℤ}
        → current <ℤ e.inflight
        → w.max_inflight ≡ current
        → Move w (at_max e current) (record w { max_inflight = e.inflight }) (marking e)
    lose_max :
        {e : Entry} {current : ℤ}
        → current <ℤ e.inflight
        → Move w (at_max e current) w (at_max e w.max_inflight)
    mark : {e : Entry} → e.did_drop ≡ true → Move w (marking e) (record w { did_drop = true }) idle
    pass : {e : Entry} → e.did_drop ≡ false → Move w (marking e) w idle

-- The window, the threads, and the entries in the order of their `fetch_add`, the latest first.
pub record System (D : Type 0) : Type 0 where
  pub window : PercentileWindow D
  pub threads : List Pc
  pub log : List Entry

-- A thread begins a call with its `fetch_add`, or goes on with one.
pub data Step {D : Type 0} (x : System D) : System D → Type 0 where
  begins :
      (before behind : List Pc) (e : Entry)
      → x.threads ≡ before ++ idle ∷ behind
      → Step x (record {
        window = record x.window { sample_count = add32 x.window.sample_count (pos 1) };
        threads = before ++ claimed x.window.sample_count e ∷ behind;
        log = e ∷ x.log;
      })
  moves :
      (before behind : List Pc) (p : Pc) {w : PercentileWindow D} {q : Pc}
      → x.threads ≡ before ++ p ∷ behind
      → Move x.window p w q
      → Step x (record { window = w; threads = before ++ q ∷ behind; log = x.log })

-- The states that threads, all idle at first, can reach from a window while nobody resets it.
pub data Reach {D : Type 0} (fresh : PercentileWindow D) : System D → Type 0 where
  start : (n : ℕ) → Reach fresh (record { window = fresh; threads = replicate n idle; log = [] })
  later : {x y : System D} → Reach fresh x → Step x y → Reach fresh y
