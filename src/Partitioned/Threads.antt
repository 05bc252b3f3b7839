-- ===== src/Partitioned/Threads.antt =====
-- Threads in `AbstractPartitionedLimiter::DoAcquire`, in `MaybeBackoffDelay` and in the release of a
-- slot, an access to an atomic at a time.
use limen.Base.{
  ◌≡◌, ◌≢◌, List, ◌∷◌, ◌++◌, ℕ, ℤ, pos, ◌+ℤ◌, ◌≤ℤ◌, ◌<ℤ◌, add32, sub32, replicate, if◌then◌else◌,
  ◌==◌,
}

-- Where a thread stands, with the partition it has resolved to and its local variables.
pub data Pc : Type 0 where
  idle : Pc
  resolved : ℕ → Pc
  -- `inflight_` is loaded, `GetLimit` is next
  counted : ℕ → ℤ → Pc
  -- or the other way round: the operands of the test may be read in either order
  bounded : ℕ → ℤ → Pc
  -- capacity is idle, and the call takes of it
  lent : ℕ → Pc
  -- the limiter is full: at the partition's gate, then with `current`, then with `part_cap` too
  gated : ℕ → Pc
  loaded : ℕ → ℤ → Pc
  capped : ℕ → ℤ → ℤ → Pc
  -- counted by the partition, not by the limiter yet
  entered : ℕ → Pc
  -- the slot is held until the guard completes
  holding : ℕ → Pc
  -- counted by the partition still, by the limiter no longer
  leaving : ℕ → Pc
  -- in `MaybeBackoffDelay`, then with `current`
  rejected : ℕ → Pc
  asking : ℕ → ℤ → Pc
  sleeping : ℕ → Pc

-- The atomics that the threads write.
pub record Counters : Type 0 where
  pub inflight : ℤ
  pub busy : ℕ → ℤ
  pub delayed_threads : ℤ

-- What they read only: the limits now, and what was configured.
pub record Settings : Type 0 where
  pub cap_now : ℤ
  pub limit : ℕ → ℤ
  pub reject_delay : ℕ → ℤ
  pub max_delayed_threads : ℤ

pub record System : Type 0 where
  pub counters : Counters
  pub settings : Settings
  pub threads : List Pc

abbrev pub set_busy : Counters → ℕ → ℤ → Counters
set_busy c i n = record c { busy = λ j. if j == i then n else c.busy j }

-- One step of one thread. A weak exchange may fail although the values agree, and loads the live one.
-- An exchange wins below a cap, an int, so its sum does not wrap.
pub data Move (c : Counters) (s : Settings) : Pc → Counters → Pc → Type 0 where
  resolve : (i : ℕ) → Move c s idle c (resolved i)
  count : {i : ℕ} → Move c s (resolved i) c (counted i c.inflight)
  find_idle : {i : ℕ} {n : ℤ} → n <ℤ s.cap_now → Move c s (counted i n) c (lent i)
  find_full : {i : ℕ} {n : ℤ} → s.cap_now ≤ℤ n → Move c s (counted i n) c (gated i)
  read_limit : {i : ℕ} → Move c s (resolved i) c (bounded i s.cap_now)
  compare_idle : {i : ℕ} {cap : ℤ} → c.inflight <ℤ cap → Move c s (bounded i cap) c (lent i)
  compare_full : {i : ℕ} {cap : ℤ} → cap ≤ℤ c.inflight → Move c s (bounded i cap) c (gated i)
  burst : {i : ℕ} → Move c s (lent i) (set_busy c i (add32 (c.busy i) (pos 1))) (entered i)
  load : {i : ℕ} → Move c s (gated i) c (loaded i (c.busy i))
  read_cap : {i : ℕ} {current : ℤ} → Move c s (loaded i current) c (capped i current (s.limit i))
  reject :
      {i : ℕ} {current cap : ℤ} → cap ≤ℤ current → Move c s (capped i current cap) c (rejected i)
  cas_win :
      {i : ℕ} {current cap : ℤ}
      → current <ℤ cap
      → c.busy i ≡ current
      → Move c s (capped i current cap) (set_busy c i (add32 current (pos 1))) (entered i)
  cas_lose :
      {i : ℕ} {current cap : ℤ}
      → current <ℤ cap
      → Move c s (capped i current cap) c (loaded i (c.busy i))
  admit :
      {i : ℕ} → Move c s (entered i) (record c { inflight = add32 c.inflight (pos 1) }) (holding i)
  release :
      {i : ℕ} → Move c s (holding i) (record c { inflight = sub32 c.inflight (pos 1) }) (leaving i)
  release_partition : {i : ℕ} → Move c s (leaving i) (set_busy c i (sub32 (c.busy i) (pos 1))) idle
  no_delay : {i : ℕ} → s.reject_delay i ≡ pos 0 → Move c s (rejected i) c idle
  ask : {i : ℕ} → s.reject_delay i ≢ pos 0 → Move c s (rejected i) c (asking i c.delayed_threads)
  exhausted :
      {i : ℕ} {current : ℤ} → s.max_delayed_threads ≤ℤ current → Move c s (asking i current) c idle
  reserve :
      {i : ℕ} {current : ℤ}
      → current <ℤ s.max_delayed_threads
      → c.delayed_threads ≡ current
      → Move c s (asking i current) (record c { delayed_threads = current +ℤ pos 1 }) (sleeping i)
  reserve_lose :
      {i : ℕ} {current : ℤ}
      → current <ℤ s.max_delayed_threads
      → Move c s (asking i current) c (asking i c.delayed_threads)
  wake :
      {i : ℕ}
      → Move c s (sleeping i) (record c { delayed_threads = sub32 c.delayed_threads (pos 1) }) idle

-- Any thread moves, or the algorithm publishes a limit, or the callback stores a partition's.
pub data Step (x : System) : System → Type 0 where
  moves :
      (before behind : List Pc) (p : Pc) {c : Counters} {q : Pc}
      → x.threads ≡ before ++ p ∷ behind
      → Move x.counters x.settings p c q
      → Step x (record x { counters = c; threads = before ++ q ∷ behind })
  publishes : (cap : ℤ) → Step x (record x { settings = record x.settings { cap_now = cap } })
  recomputes :
      (i : ℕ) (cap : ℤ)
      → Step x (record x {
        settings = record x.settings { limit = λ j. if j == i then cap else x.settings.limit j };
      })

-- The states that threads, all idle at first, can reach.
pub data Reach : System → Type 0 where
  start :
      (settings : Settings) (n : ℕ)
      → Reach (record {
        counters = record { inflight = pos 0; busy = λ i. pos 0; delayed_threads = pos 0 };
        settings = settings;
        threads = replicate n idle;
      })
  later : {x y : System} → Reach x → Step x y → Reach y
