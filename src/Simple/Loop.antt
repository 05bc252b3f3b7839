-- ===== src/Simple/Loop.antt =====
-- The compare-and-swap loop of `SimpleLimiter::DoAcquire` among other threads, and when it ends.
use limen.Base.{
  ℕ, zero, suc, ◌+◌, ◌≤◌, ◌≡◌, refl, sym, ◌∙◌, Bool, true, false, not, ◌&&◌, if◌then◌else◌, ℤ, pos,
  ◌≤ℤ◌, ◌<ℤ◌, leb_ℤ, eqb_ℤ, add32, Option, none, some, arith, if_elim,
}

-- What the loop meets: at the k-th reading of the limit its value, and at the k-th exchange the value
-- of `inflight_` then and whether the weak exchange fails although the values agree.
pub record Others : Type 0 where
  pub cap : ℕ → ℤ
  pub live : ℕ → ℤ
  pub spurious : ℕ → Bool

-- How the loop ends: the number of exchanges, and the value stored, if one succeeded.
pub record Outcome : Type 0 where
  pub exchanges : ℕ
  pub stored : Option ℤ

-- `current` at the head of the loop for the k-th time. The sum is at most the limit, an int.
unfoldable pub acquire_loop : Others → ℕ → ℕ → ℤ → Option Outcome
acquire_loop o zero k current = none
acquire_loop o (suc fuel) k current =
    let rest = acquire_loop o fuel (suc k) (o.live k) in
    if leb_ℤ (o.cap k) current
    then some (record { exchanges = k; stored = none })
    else (if eqb_ℤ (o.live k) current && not (o.spurious k)
        then some (record { exchanges = suc k; stored = some (add32 current (pos 1)) })
        else rest)

-- From the k-th exchange on, the others leave the counter at `n`, and no exchange fails by itself.
pub record IsQuiet (o : Others) (k : ℕ) (n : ℤ) : Type 0 where
  pub lives : (j : ℕ) → k ≤ j → o.live j ≡ n
  pub exact : (j : ℕ) → k ≤ j → o.spurious j ≡ false

-- What `current` holds at the head of the loop: what was loaded first, then what each exchange saw.
abbrev pub seen : Others → ℤ → ℕ → ℤ
seen o first zero = first
seen o first (suc k) = o.live k

-- An outcome that was right when the loop ended: after j exchanges it has read a limit that the counter
-- had reached when last seen, or at its j-th exchange it has moved the counter up from the value that
-- stood there, below the limit that it had just read.
pub data IsRight (o : Others) (first : ℤ) : Option Outcome → Type 0 where
  unfinished : IsRight o first none
  refused :
      (j : ℕ)
      → o.cap j ≤ℤ seen o first j
      → IsRight o first (some (record { exchanges = j; stored = none }))
  granted :
      (j : ℕ)
      → o.live j <ℤ o.cap j
      → IsRight o first
          (some (record { exchanges = suc j; stored = some (add32 (o.live j) (pos 1)) }))

won :
    (cap live current : ℤ) (b : Bool)
    → leb_ℤ cap current ≡ false
    → eqb_ℤ live current && not b ≡ true
    → (live ≡ current) × (live <ℤ cap)
won cap live current b f t = (ground arith, ground arith)

acquire_loop-IsRight :
    (o : Others) (first : ℤ) (fuel k : ℕ) (current : ℤ)
    → current ≡ seen o first k
    → IsRight o first (acquire_loop o fuel k current)
unfolding acquire_loop
acquire_loop-IsRight o first zero k current e = unfinished
acquire_loop-IsRight o first (suc fuel) k current e =
    let ih = acquire_loop-IsRight o first fuel (suc k) (o.live k) refl in
    if_elim {A = Option Outcome} (IsRight o first) (leb_ℤ (o.cap k) current)
      (λ t. refused k (seen_cap (o.cap k) current _ t e))
      (λ f.
        if_elim {A = Option Outcome} (IsRight o first)
          (eqb_ℤ (o.live k) current && not (o.spurious k))
          (λ t.
            let (same, below) = won (o.cap k) (o.live k) current (o.spurious k) f t in
            rw (← same) (granted k below))
          (λ n. ih))
  where
    seen_cap : (cap current s : ℤ) → leb_ℤ cap current ≡ true → current ≡ s → cap ≤ℤ s
    seen_cap cap current s t e = ground arith

abbrev pub ends : Option Outcome → Bool
ends none = false
ends (some x) = true

-- A round that sees the quiet counter ends.
ends_now :
    (o : Others) (fuel k : ℕ) (current : ℤ)
    → o.live k ≡ current
    → o.spurious k ≡ false
    → ends (acquire_loop o (suc fuel) k current) ≡ true
unfolding acquire_loop
ends_now o fuel k current e q =
    if_elim {A = Option Outcome} (λ r. ends r ≡ true) (leb_ℤ (o.cap k) current) (λ t. refl)
      (λ f.
        if_elim {A = Option Outcome} (λ r. ends r ≡ true)
          (eqb_ℤ (o.live k) current && not (o.spurious k)) (λ t. refl)
          (λ n. absurd (agree (o.live k) current (o.spurious k) e q n)))
  where
    agree : (a b : ℤ) (s : Bool) → a ≡ b → s ≡ false → eqb_ℤ a b && not s ≡ false → ⊥
    agree a b s e q n = ground arith

-- Otherwise it is the next round's turn.
ends_later :
    (o : Others) (fuel k : ℕ) (current : ℤ)
    → ends (acquire_loop o fuel (suc k) (o.live k)) ≡ true
    → ends (acquire_loop o (suc fuel) k current) ≡ true
unfolding acquire_loop
ends_later o fuel k current h =
    if_elim {A = Option Outcome} (λ r. ends r ≡ true) (leb_ℤ (o.cap k) current) (λ t. refl)
      (λ f.
        if_elim {A = Option Outcome} (λ r. ends r ≡ true)
          (eqb_ℤ (o.live k) current && not (o.spurious k)) (λ t. refl) (λ n. h))

acquire_loop-ends :
    (o : Others) (n : ℤ) (k m j : ℕ) (current : ℤ)
    → IsQuiet o k n
    → j + m ≡ k
    → ends (acquire_loop o (suc (suc m)) j current) ≡ true
acquire_loop-ends o n k zero j current q e = ends_later o 1 j current (
    ends_now o 0 (suc j) (o.live j)
      (q.lives (suc j) (omega (arith, e)) ∙ sym (q.lives j (omega (arith, e))))
      (q.exact (suc j) (omega (arith, e))))
acquire_loop-ends o n k (suc m) j current q e =
    ends_later o (suc (suc m)) j current
      (acquire_loop-ends o n k m (suc j) (o.live j) q (omega (arith, e)))

-- Whatever the other threads do, the loop ends at most two rounds after the last time that one of them
-- moves the counter and an exchange fails by itself, and it is right in what it does: it refuses only
-- where the counter has reached the limit, and it takes a slot, moving the counter up by one, only
-- from the value that stands there and below the limit it has just read.
pub acquire_loop-settles :
    (o : Others) (first n : ℤ) (k : ℕ)
    → IsQuiet o k n
    → let r = acquire_loop o (suc (suc k)) 0 first in (ends r ≡ true) × IsRight o first r
acquire_loop-settles o first n k q = (
  acquire_loop-ends o n k k 0 first q (omega arith),
  acquire_loop-IsRight o first (suc (suc k)) 0 first refl,
)
