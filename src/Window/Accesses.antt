-- ===== src/Window/Accesses.antt =====
-- What concurrent calls of `PercentileSampleWindow::AddSample` have still to write.
use mathlib.Core.List.{append_assoc}
use limen.Base.{
  ◌≡◌, refl, sym, ap, ◌∙◌, Bool, true, false, if◌then◌else◌, List, [], ◌∷◌, ◌++◌, ℕ, zero, suc, ◌+◌,
  ℤ, pos, negsuc, eqb_ℤ, set, sum_of, arith,
}
use limen.Window.Defs.{Entry}
use limen.Window.Percentile.{store_at}
use limen.Window.Claims.{Pc, idle, claimed, lowering, at_min, raising, at_max, marking}

-- A write; a loop of exchanges is the one that ends it.
pub data Access : Type 0 where
  stores_at : ℤ → ℤ → Access
  lowers_to raises_to : ℤ → Access
  drops : Access

-- The writes of a thread, the next one first.
abbrev pub flags : Entry → List Access
flags e = if e.did_drop then drops ∷ [] else []

abbrev pub pending : Pc → List Access
pending idle = []
pending (claimed i e) = stores_at i e.rtt_ns ∷ lowers_to e.rtt_ns ∷ raises_to e.inflight ∷ flags e
pending (lowering e) = lowers_to e.rtt_ns ∷ raises_to e.inflight ∷ flags e
pending (at_min e current) = lowers_to e.rtt_ns ∷ raises_to e.inflight ∷ flags e
pending (raising e) = raises_to e.inflight ∷ flags e
pending (at_max e current) = raises_to e.inflight ∷ flags e
pending (marking e) = flags e

abbrev pub all_pending : List Pc → List Access
all_pending [] = []
all_pending (p ∷ rest) = pending p ++ all_pending rest

-- Two writes to one element of the array.
abbrev pub clash : Access → Access → ℕ
clash (stores_at i v) (stores_at j u) = if eqb_ℤ i j then 1 else 0
clash (stores_at i v) _ = 0
clash _ c = 0

-- The threads that have an index and have not stored yet.
abbrev pub claims : ℤ → Pc → ℕ
claims i (claimed j e) = if eqb_ℤ i j then 1 else 0
claims i _ = 0

-- The clashes of some writes with others.
abbrev pub clashes : List Access → List Access → ℕ
clashes [] bs = 0
clashes (c ∷ cs) bs = sum_of (clash c) bs + clashes cs bs

all_pending-append :
    (before behind : List Pc)
    → all_pending (before ++ behind) ≡ all_pending before ++ all_pending behind
all_pending-append [] behind = refl
all_pending-append (p ∷ rest) behind =
    ap (λ cs. pending p ++ cs) (all_pending-append rest behind)
    ∙ sym (append_assoc (pending p) (all_pending rest) (all_pending behind))

-- The writes of one thread among the others.
pub all_pending-middle :
    (before behind : List Pc) (p : Pc)
    → all_pending (before ++ p ∷ behind) ≡ all_pending before ++ (pending p ++ all_pending behind)
all_pending-middle before behind p = all_pending-append before (p ∷ behind)

-- A write to the array clashes with those of the threads that have its index.
clash-flags :
    (i v : ℤ) (e : Entry) (bs : List Access)
    → sum_of (clash (stores_at i v)) (flags e ++ bs) ≡ sum_of (clash (stores_at i v)) bs
clash-flags i v e bs = flagged e.did_drop
  where
    flagged :
        (b : Bool)
        → sum_of (clash (stores_at i v)) ((if b then drops ∷ [] else []) ++ bs)
          ≡ sum_of (clash (stores_at i v)) bs
    flagged true = omega arith
    flagged false = refl

clash-pending :
    (i v : ℤ) (p : Pc) (bs : List Access)
    → sum_of (clash (stores_at i v)) (pending p ++ bs)
      ≡ claims i p + sum_of (clash (stores_at i v)) bs
clash-pending i v idle bs = omega arith
clash-pending i v (claimed j e) bs = omega (arith, clash-flags i v e bs)
clash-pending i v (lowering e) bs = omega (arith, clash-flags i v e bs)
clash-pending i v (at_min e c) bs = omega (arith, clash-flags i v e bs)
clash-pending i v (raising e) bs = omega (arith, clash-flags i v e bs)
clash-pending i v (at_max e c) bs = omega (arith, clash-flags i v e bs)
clash-pending i v (marking e) bs = omega (arith, clash-flags i v e bs)

pub clash-claims :
    (i v : ℤ) (threads : List Pc)
    → sum_of (clash (stores_at i v)) (all_pending threads) ≡ sum_of (claims i) threads
clash-claims i v [] = refl
clash-claims i v (p ∷ rest) =
    omega (arith, clash-pending i v p (all_pending rest), clash-claims i v rest)

-- The other writes clash with none.
abbrev pub IsShared : Access → Type 0
IsShared (stores_at i v) = ⊥
IsShared _ = Unit

pub clash-shared : (c : Access) → IsShared c → (bs : List Access) → sum_of (clash c) bs ≡ 0
clash-shared (stores_at i v) h bs = absurd h
clash-shared (lowers_to a) h [] = refl
clash-shared (lowers_to a) h (b ∷ bs) = omega (arith, clash-shared (lowers_to a) h bs)
clash-shared (raises_to a) h [] = refl
clash-shared (raises_to a) h (b ∷ bs) = omega (arith, clash-shared (raises_to a) h bs)
clash-shared drops h [] = refl
clash-shared drops h (b ∷ bs) = omega (arith, clash-shared drops h bs)

pub apart : (i j v u : ℤ) → clash (stores_at i v) (stores_at j u) ≡ 0 → eqb_ℤ i j ≡ false
apart i j v u h = ground arith

set_comm :
    (xs : List ℤ) (i j : ℕ) (v u : ℤ)
    → (eqb_ℤ (pos i) (pos j) ≡ false)
    → set (set xs j u) i v ≡ set (set xs i v) j u
set_comm [] i j v u h = refl
set_comm (x ∷ xs) zero zero v u h = ground arith
set_comm (x ∷ xs) zero (suc j) v u h = refl
set_comm (x ∷ xs) (suc i) zero v u h = refl
set_comm (x ∷ xs) (suc i) (suc j) v u h = ap (λ ys. x ∷ ys) (set_comm xs i j v u (ground arith))

pub store_at_comm :
    (xs : List ℤ) (i j v u : ℤ)
    → eqb_ℤ i j ≡ false
    → store_at (store_at xs j u) i v ≡ store_at (store_at xs i v) j u
unfolding store_at
store_at_comm xs (pos i) (pos j) v u h = set_comm xs i j v u h
store_at_comm xs (pos i) (negsuc j) v u h = refl
store_at_comm xs (negsuc i) (pos j) v u h = refl
store_at_comm xs (negsuc i) (negsuc j) v u h = refl
