-- ===== src/Codel/Episodes.antt =====
-- The counters of `CodelFilter`: `drop_count_`, and `count_` with `lastcount_`.
use limen.Base.{
  ℕ, ◌+◌, ◌≤◌, ◌<◌, ◌^◌, ◌-◌, ◌≡◌, Bool, true, if◌then◌else◌, List, [], ◌∷◌, arith, pos, int64,
  u32_add, u32_sub, add64-int64,
}
use limen.Codel.Time.{AbslTime}
use limen.Codel.Filter.{
  Codel, init, ok_to_drop, should_drop, sojourn_of, decide, scheduled_drop, entry_count, enter_drop,
}
use limen.Codel.History.{Call, after, verdict, drops}

module _ (a : AbslTime) (target interval : a.Duration) where
  open a use {Time, Duration}

  decide-drop_count :
      (f : Codel a) (ok : Bool) (now : Time) (n : ℕ)
      → f.drop_count ≡ int64 (pos n)
      → (decide a (f, ok) now).0.drop_count
        ≡ int64 (pos ((if (decide a (f, ok) now).1 then 1 else 0) + n))
  unfolding decide scheduled_drop enter_drop
  decide-drop_count f ok now n e = ground (arith, add64-int64 n)

  ok_to_drop-drop_count :
      (f : Codel a) (d : Duration) (now : Time) → (ok_to_drop a f d now).0.drop_count ≡ f.drop_count
  unfolding ok_to_drop
  ok_to_drop-drop_count f d now = ground arith

  -- After any history `DropCount` is the number of calls that were told to drop, as an int64_t.
  pub after-drop_count :
      (past : List (Call a))
      → (after a target interval past).drop_count ≡ int64 (pos (drops a target interval past))
  unfolding after init verdict should_drop int64
  after-drop_count [] = ground arith
  after-drop_count (c ∷ past) =
      let f = after a target interval past in
      let judged = ok_to_drop a f (sojourn_of a c.now c.enqueue_time) c.now in
      decide-drop_count judged.0 judged.1 c.now _ (
        ground (
          arith,
          ok_to_drop-drop_count f (sojourn_of a c.now c.enqueue_time) c.now,
          after-drop_count past,
        ))

  -- The episode counter never passes the number of drops, and its root is taken at 1 or more.
  pub record IsCounting (n : ℕ) (f : Codel a) : Type 0 where
    pub growth : f.lastcount ≤ f.count
    pub bounded : f.count ≤ n
    pub positive : f.dropping ≡ true → 1 ≤ f.count

  entry_count_bounds :
      (f : Codel a) (now : Time)
      → f.lastcount ≤ f.count
      → f.count < 2 ^ 32
      → (1 ≤ entry_count a f now) × (entry_count a f now ≤ f.count + 1)
  unfolding entry_count u32_sub
  entry_count_bounds f now g h = ground arith

  decide-IsCounting :
      (f : Codel a) (ok : Bool) (now : Time) (n : ℕ)
      → n < 2 ^ 32 - 1
      → IsCounting n f
      → IsCounting ((if (decide a (f, ok) now).1 then 1 else 0) + n) (decide a (f, ok) now).0
  unfolding decide scheduled_drop enter_drop u32_add
  decide-IsCounting f ok now n h k = ground (arith, entry_count_bounds f now k.growth (omega arith))

  ok_to_drop-IsCounting :
      (f : Codel a) (d : Duration) (now : Time) (n : ℕ)
      → IsCounting n f
      → IsCounting n (ok_to_drop a f d now).0
  unfolding ok_to_drop
  ok_to_drop-IsCounting f d now n k = ground arith

  -- As long as fewer than 2^32 - 1 calls are told to drop, `count_` does not wrap: it stays at or
  -- below the number of drops, `lastcount_` at or below it, and in the drop state it is at least 1, so
  -- `ControlLaw` does not divide by the root of 0.
  pub after-IsCounting :
      (past : List (Call a))
      → drops a target interval past < 2 ^ 32 - 1
      → IsCounting (drops a target interval past) (after a target interval past)
  unfolding after init verdict should_drop
  after-IsCounting [] h = ground arith
  after-IsCounting (c ∷ past) h =
      let f = after a target interval past in
      let sojourn = sojourn_of a c.now c.enqueue_time in
      let judged = ok_to_drop a f sojourn c.now in
      decide-IsCounting judged.0 judged.1 c.now _ (omega arith)
        (ok_to_drop-IsCounting f sojourn c.now _ (after-IsCounting past (omega arith)))
