-- ===== src/Codel/Schedule.antt =====
-- The times at which `CodelFilter` drops within an episode.
use native.Mathlib.Nat.{sub_self}
use limen.Base.{
  ℕ, zero, suc, ◌+◌, ◌-◌, ◌≤◌, ◌<◌, ◌^◌, ◌≡◌, refl, sym, ap, Bool, true, false, if_elim,
  true_and_false, List, [], ◌∷◌, Option, none, some, arith, u32_add,
}
use limen.Codel.Time.{AbslTime}
use limen.Codel.Filter.{
  Codel, init, ok_to_drop, should_drop, sojourn_of, decide, scheduled_drop, entry_count, enter_drop,
  control_law,
}
use limen.Codel.History.{Call, after, drops}
use limen.Codel.Episodes.{after-IsCounting}

module _ (a : AbslTime) (target interval : a.Duration) where
  open a use {
    Time, Duration, time_add, time_lt, time_eq, duration_lt, unix_epoch, duration_div, double_of,
    sqrt,
  }

  -- The n-th time of the schedule that starts at `start` with `count_` at c: each time is a
  -- `interval / sqrt(count)` after the one before, with a count that grows by one.
  abbrev pub schedule : ℕ → Time → ℕ → Time
  schedule c start zero = time_add start (duration_div interval (sqrt (double_of c)))
  schedule c start (suc n) =
      time_add (schedule c start n) (duration_div interval (sqrt (double_of (c + suc n))))

  -- When the episode began that the filter is in.
  abbrev pub continued : Bool → Option Time → Time → Option Time
  continued false began now = none
  continued true none now = some now
  continued true (some t) now = some t

  abbrev pub began : List (Call a) → Option Time
  began [] = none
  began (c ∷ past) = continued (after a target interval (c ∷ past)).dropping (began past) c.now

  abbrev Due : Option Time → Codel a → Type 0
  Due none f = f.dropping ≡ false
  Due (some start) f =
      (f.dropping ≡ true) × (f.drop_next ≡ schedule f.lastcount start (f.count - f.lastcount))

  record IsOnSchedule (start : Option Time) (f : Codel a) : Type 0 where
    same : f.interval ≡ interval
    growth : f.lastcount ≤ f.count
    due : Due start f

  -- The next time of the schedule, at the next drop.
  schedule-next :
      (c n : ℕ) (start : Time)
      → c ≤ n
      → time_add (schedule c start (n - c)) (duration_div interval (sqrt (double_of (suc n))))
        ≡ schedule c start (suc n - c)
  schedule-next c n start h =
      let one_on : suc n - c ≡ suc (n - c) = omega (arith, h) in
      let total : c + suc (n - c) ≡ suc n = omega (arith, h) in
      rw one_on (
        ap (λ x. time_add (schedule c start (n - c)) (duration_div interval (sqrt (double_of x))))
          (sym total))

  u32_add-one : (n : ℕ) → n < 2 ^ 32 - 1 → u32_add n 1 ≡ suc n
  unfolding u32_add
  u32_add-one n h = ground arith

  keep :
      (f : Codel a) (start now : Time) (d : Bool)
      → d ≡ true
      → IsOnSchedule (some start) f
      → IsOnSchedule (continued d (some start) now) f
  keep f start now d e h = rw e h

  idle_at :
      (f : Codel a) (now : Time) (d : Bool)
      → d ≡ false
      → IsOnSchedule none f
      → IsOnSchedule (continued d none now) f
  idle_at f now d e h = rw e h

  scheduled_drop-IsOnSchedule :
      (f : Codel a) (start now : Time)
      → f.count < 2 ^ 32 - 1
      → IsOnSchedule (some start) f
      → let r = (scheduled_drop a f now).0 in IsOnSchedule (continued r.dropping (some start) now) r
  unfolding scheduled_drop control_law
  scheduled_drop-IsOnSchedule f start now b h =
      let next = u32_add-one f.count b in
      if_elim {A = Codel a × Bool} (λ r. IsOnSchedule (continued r.0.dropping (some start) now) r.0)
        (time_lt now f.drop_next) (λ t. keep f start now f.dropping h.due.0 h)
        (λ n. keep _ start now f.dropping h.due.0 (record {
          same = h.same;
          growth = rw next (omega (arith, h.growth));
          due = (
            h.due.0,
            rw (next, h.same, h.due.1) (schedule-next f.lastcount f.count start h.growth),
          );
        }))

  enter_drop-IsOnSchedule :
      (f : Codel a) (now : Time)
      → f.interval ≡ interval
      → let r = (enter_drop a f now).0 in IsOnSchedule (continued r.dropping none now) r
  unfolding enter_drop control_law
  enter_drop-IsOnSchedule f now same = record {
    same = same;
    growth = omega arith;
    due = (refl, rw (sub_self (entry_count a f now), same) refl);
  }

  decide-IsOnSchedule :
      (f : Codel a) (ok : Bool) (now : Time) (start : Option Time)
      → f.count < 2 ^ 32 - 1
      → IsOnSchedule start f
      → let r = (decide a (f, ok) now).0 in IsOnSchedule (continued r.dropping start now) r
  unfolding decide
  decide-IsOnSchedule f ok now none b h =
      if_elim {A = Codel a × Bool} (λ r. IsOnSchedule (continued r.0.dropping none now) r.0)
        f.dropping (λ t. absurd (true_and_false f.dropping t h.due))
        (λ n.
          if_elim {A = Codel a × Bool} (λ r. IsOnSchedule (continued r.0.dropping none now) r.0) ok
            (λ t. enter_drop-IsOnSchedule f now h.same) (λ o. idle_at f now f.dropping h.due h))
  decide-IsOnSchedule f ok now (some start) b h =
      if_elim {A = Codel a × Bool} (λ r. IsOnSchedule (continued r.0.dropping (some start) now) r.0)
        f.dropping
        (λ t.
          if_elim {A = Codel a × Bool}
            (λ r. IsOnSchedule (continued r.0.dropping (some start) now) r.0) ok
            (λ y. scheduled_drop-IsOnSchedule f start now b h)
            (λ n. record { same = h.same; growth = h.growth; due = refl }))
        (λ n. absurd (true_and_false f.dropping h.due.0 n))

  restamp :
      (f : Codel a) (u : Time) (start : Option Time)
      → IsOnSchedule start f
      → IsOnSchedule start (record f { first_above_time = u })
  restamp f u none h = record { same = h.same; growth = h.growth; due = h.due }
  restamp f u (some start) h = record { same = h.same; growth = h.growth; due = h.due }

  ok_to_drop-IsOnSchedule :
      (f : Codel a) (d : Duration) (now : Time) (start : Option Time)
      → IsOnSchedule start f
      → IsOnSchedule start (ok_to_drop a f d now).0
  unfolding ok_to_drop
  ok_to_drop-IsOnSchedule f d now start h =
      if_elim {A = Codel a × Bool} (λ r. IsOnSchedule start r.0) (duration_lt d f.target)
        (λ t. restamp f unix_epoch start h)
        (λ n.
          if_elim {A = Codel a × Bool} (λ r. IsOnSchedule start r.0)
            (time_eq f.first_above_time unix_epoch) (λ t. restamp f _ start h) (λ m. h))

  ok_to_drop-count :
      (f : Codel a) (d : Duration) (now : Time) → (ok_to_drop a f d now).0.count ≡ f.count
  unfolding ok_to_drop
  ok_to_drop-count f d now = ground arith

  drops_grow :
      (c : Call a) (past : List (Call a))
      → drops a target interval (c ∷ past) < 2 ^ 32 - 1
      → drops a target interval past < 2 ^ 32 - 1
  drops_grow c past h = omega (arith, h)

  after-IsOnSchedule :
      (past : List (Call a))
      → drops a target interval past < 2 ^ 32 - 1
      → IsOnSchedule (began past) (after a target interval past)
  unfolding after init should_drop
  after-IsOnSchedule [] h = record { same = refl; growth = omega arith; due = refl }
  after-IsOnSchedule (c ∷ past) h =
      let fewer = drops_grow c past h in
      let f = after a target interval past in
      let sojourn = sojourn_of a c.now c.enqueue_time in
      let judged = ok_to_drop a f sojourn c.now in
      let counted = (after-IsCounting a target interval past fewer).bounded in
      decide-IsOnSchedule judged.0 judged.1 c.now (began past)
        (omega (arith, ok_to_drop-count f sojourn c.now, counted, fewer))
        (ok_to_drop-IsOnSchedule f sojourn c.now (began past) (after-IsOnSchedule past fewer))

  -- As long as fewer than 2^32 - 1 calls are told to drop, the time of the next drop within an episode
  -- follows from the time t of the call that began it and the count c that it began with, whatever
  -- calls came in between: after the n-th drop that the schedule brought it is t plus the sum of
  -- interval / sqrt(k) for k from c to c + n, and n is `count_` less `lastcount_`.
  pub after-drop_next :
      (past : List (Call a)) (start : Time)
      → drops a target interval past < 2 ^ 32 - 1
      → began past ≡ some start
      → let f = after a target interval past in
        (f.dropping ≡ true) × (f.drop_next ≡ schedule f.lastcount start (f.count - f.lastcount))
  after-drop_next past start h e = at (began past) e (after-IsOnSchedule past h)
    where
      at :
          (o : Option Time)
          → o ≡ some start
          → IsOnSchedule o (after a target interval past)
          → Due (some start) (after a target interval past)
      at o e k = (rw e at k).due
