-- ===== src/Stack/Immediate.antt =====
-- Requests of examples/quickstart.cc that leave their queue at once.
use limen.Base.{
  ℕ, ◌≡◌, ◌<◌, ◌^◌, refl, Bool, true, false, ℤ, pos, ◌+ℤ◌, List, [], ◌∷◌, Option, none, some,
  length, All, arith, true_and_false,
}
use limen.Double.{DoubleOps, IsCast}
use limen.Limit.Defs.{LimitOps}
use limen.Limiter.Guard.{SlotGuard}
use limen.Limiter.Defs.{LimiterState, do_try_acquire}
use limen.Limiter.Defs as LimiterDefs
use limen.Window.Defs.{WindowOps}
use limen.Codel.Time.{AbslTime}
use limen.Codel.Filter.{Codel, init, sojourn_of, ok_to_drop, decide, should_drop}
use limen.Stack.Defs.{stack_limit}
use limen.Stack.Quickstart.{Reading, Demo, Chain, finish, dequeue, request, requests, begin, main}
use limen.Stack.Main.{chain, ended, main-ended, ended-sum}

-- The request waited for less than a target.
abbrev pub IsShort : (a : AbslTime) → a.Duration → Reading a → Type 0
IsShort a target r = a.duration_lt (sojourn_of a r.dequeued r.enqueued) target ≡ true

module _ (a : AbslTime) (target : a.Duration) {L : Type 0} (limit : LimitOps L) where
  record IsCalm (s : Demo a L) : Type 0 where
    target_is : s.codel.target ≡ target
    dropping_is : s.codel.dropping ≡ false
    dropped_is : s.dropped ≡ pos 0

  -- The filter lets the request through, and stays out of the drop state.
  record Lets (answer : Codel a × Bool) : Type 0 where
    no : answer.1 ≡ false
    target_is : answer.0.target ≡ target
    dropping_is : answer.0.dropping ≡ false

  should_drop-Lets :
      (f : Codel a) (r : Reading a)
      → f.target ≡ target
      → f.dropping ≡ false
      → IsShort a target r
      → Lets (should_drop a f r.dequeued r.enqueued)
  unfolding should_drop decide ok_to_drop
  should_drop-Lets f r e n h =
      let short : a.duration_lt (sojourn_of a r.dequeued r.enqueued) f.target ≡ true = rw e h in
      rw (short, n) (record { no = refl; target_is = e; dropping_is = refl })

  finish-IsCalm :
      (s : Demo a L) (now : ℤ) (slot : SlotGuard) (answer : Codel a × Bool)
      → Lets answer
      → s.dropped ≡ pos 0
      → IsCalm (finish a limit s now slot answer)
  unfolding finish
  finish-IsCalm s now slot (codel, true) h e = absurd (true_and_false true refl h.no)
  finish-IsCalm s now slot (codel, false) h e = record {
    target_is = h.target_is;
    dropping_is = h.dropping_is;
    dropped_is = e;
  }

  dequeue-IsCalm :
      (s : Demo a L) (r : Reading a) (answer : LimiterState L × Option SlotGuard)
      → IsShort a target r
      → IsCalm s
      → IsCalm (dequeue a limit s r answer)
  unfolding dequeue
  dequeue-IsCalm s r (limiter, none) h c = record {
    target_is = c.target_is;
    dropping_is = c.dropping_is;
    dropped_is = c.dropped_is;
  }
  dequeue-IsCalm s r (limiter, some slot) h c =
      finish-IsCalm (record s { limiter = limiter }) _ slot _
        (should_drop-Lets s.codel r c.target_is c.dropping_is h) c.dropped_is

  requests-IsCalm :
      (s : Demo a L) (readings : List (Reading a))
      → All (IsShort a target) readings
      → IsCalm s
      → IsCalm (requests a limit s readings)
  unfolding requests request
  requests-IsCalm s [] h c = c
  requests-IsCalm s (r ∷ rest) h c =
      requests-IsCalm (request a limit s r) rest h.1 (dequeue-IsCalm s r _ h.0 c)

module _ (a : AbslTime) (milliseconds : ℕ → a.Duration) (d : DoubleOps) (laws : IsCast d)
    {V W : Type 0} (window : WindowOps V) (fresh : V) (world : W) where
  none_more : (x y n : ℤ) → x +ℤ y ≡ n → y ≡ pos 0 → x ≡ n
  unfolding ◌+ℤ◌
  none_more x y n e f = ground arith

  -- When each of the fewer than 2^31 requests of the example program waits for less than 5
  -- milliseconds between its admission and the filter, the filter drops none of them, and all are
  -- counted as admitted. The arithmetic of doubles is assumed to have ints in their order and a cast that
  -- truncates, and 5 and 100 milliseconds to be positive.
  pub main-admits :
      (readings : List (Reading a))
      → length readings < 2 ^ 31
      → a.duration_lt a.zero_duration (milliseconds 5) ≡ true
      → a.duration_lt a.zero_duration (milliseconds 100) ≡ true
      → All (IsShort a (milliseconds 5)) readings
      → (s : Demo a (Chain d V W)) × (main a milliseconds d window fresh world readings ≡ some s)
        × (s.dropped ≡ pos 0)
        × (s.admitted ≡ pos (length readings))
  unfolding init
  main-admits readings lt t i h =
      let calm =
        requests-IsCalm a (milliseconds 5) (stack_limit d window)
          (begin a milliseconds d window
            (LimiterDefs.init (chain a milliseconds d laws window fresh world))
            (init a (milliseconds 5) (milliseconds 100)))
          readings h (record { target_is = refl; dropping_is = refl; dropped_is = refl }) in
      (
        ended a milliseconds d laws window fresh world readings,
        main-ended a milliseconds d laws window fresh world readings t i,
        calm.dropped_is,
        none_more _ _ _ (ended-sum a milliseconds d laws window fresh world readings lt)
            calm.dropped_is,
      )
