-- ===== src/Simple/Threads.antt =====
-- Threads in `SimpleLimiter::DoAcquire` and `OnSlotComplete`, an access to an atomic at a time.
use limen.Base.{◌≡◌, List, ◌∷◌, ◌++◌, ℤ, pos, ◌+ℤ◌, ◌≤ℤ◌, ◌<ℤ◌, sub32, replicate, ℕ}

-- Where a thread stands, with its local variables.
pub data Pc : Type 0 where
  idle : Pc
  -- `current` is loaded, at the head of the loop
  loaded : ℤ → Pc
  -- `cap` is read too
  capped : ℤ → ℤ → Pc
  -- the slot is held until the guard completes
  holding : Pc

pub record System : Type 0 where
  pub inflight : ℤ
  -- what `GetLimit` answers now
  pub cap_now : ℤ
  pub threads : List Pc

-- One step of one thread on the counter, under a limit.
pub data Move (inflight cap_now : ℤ) : Pc → ℤ → Pc → Type 0 where
  load : Move inflight cap_now idle inflight (loaded inflight)
  read_cap :
      {current : ℤ} → Move inflight cap_now (loaded current) inflight (capped current cap_now)
  reject :
      {current cap : ℤ} → cap ≤ℤ current → Move inflight cap_now (capped current cap) inflight idle
  cas_win :
      {current cap : ℤ}
      → current <ℤ cap
      → inflight ≡ current
      → Move inflight cap_now (capped current cap) (current +ℤ pos 1) holding
  -- the weak exchange may fail although the values agree; it loads the live value
  cas_lose :
      {current cap : ℤ}
      → current <ℤ cap
      → Move inflight cap_now (capped current cap) inflight (loaded inflight)
  release : Move inflight cap_now holding (sub32 inflight (pos 1)) idle

-- Any thread moves, or the algorithm publishes a limit, of at most `top`.
pub data Step (top : ℤ) (s : System) : System → Type 0 where
  moves :
      (before behind : List Pc) (p : Pc) {n : ℤ} {q : Pc}
      → s.threads ≡ before ++ p ∷ behind
      → Move s.inflight s.cap_now p n q
      → Step top s (record s { inflight = n; threads = before ++ q ∷ behind })
  publishes : (cap : ℤ) → cap ≤ℤ top → Step top s (record s { cap_now = cap })

-- The states that threads, all idle at first, can reach.
pub data Reach (top : ℤ) : System → Type 0 where
  start :
      (cap : ℤ) (n : ℕ)
      → cap ≤ℤ top
      → Reach top (record { inflight = pos 0; cap_now = cap; threads = replicate n idle })
  later : {s t : System} → Reach top s → Step top s t → Reach top t
