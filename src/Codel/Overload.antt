-- ===== src/Codel/Overload.antt =====
-- The filter's drop state against the history of calls: the refinement of RFC 8289's predicate.
use limen.Base.{
  ◌≡◌, refl, Bool, false, not, ◌&&◌, ◌||◌, List, [], ◌∷◌, Option, none, some, arith, ◌≢◌,
  Bool-cases, inl, inr, All, if_elim,
}
use limen.Codel.Time.{AbslTime, IsTimeEq}
use limen.Codel.Filter.{
  Codel, init, ok_to_drop, should_drop, sojourn_of, decide, scheduled_drop, enter_drop,
}
use limen.Codel.History.{Call, after, verdict, above_since, is_overloaded, is_below}

module _ (a : AbslTime) (target interval : a.Duration) where
  open a use {Time, Duration, unix_epoch, time_add, time_eq, time_lt}

  ok_to_drop-dropping :
      (f : Codel a) (d : Duration) (now : Time) → (ok_to_drop a f d now).0.dropping ≡ f.dropping
  unfolding ok_to_drop
  ok_to_drop-dropping f d now = ground arith

  ok_to_drop-drop_next :
      (f : Codel a) (d : Duration) (now : Time) → (ok_to_drop a f d now).0.drop_next ≡ f.drop_next
  unfolding ok_to_drop
  ok_to_drop-drop_next f d now = ground arith

  -- What `first_above_time_` holds, given when the current run above the target began.
  abbrev pub FirstAbove : Option Time → Time → Type 0
  FirstAbove none u = u ≡ unix_epoch
  FirstAbove (some t) u = u ≡ time_add t interval

  -- `first_above_time_` reads as set when a run begins at this time.
  abbrev pub SetAt : Time → Type 0
  SetAt t = time_add t interval ≢ unix_epoch

  -- A run above the target that is under way began at such a time.
  abbrev Begun : Option Time → Type 0
  Begun none = Unit
  Begun (some t) = SetAt t

  Begun-later :
      (o : Option Time) (now : Time)
      → Begun o
      → SetAt now
      → Begun (elim o [ none ↦ some now | some t ↦ some t ])
  Begun-later none now b h = h
  Begun-later (some t) now b h = b

  above_since-Begun :
      (past : List (Call a))
      → All (λ c. SetAt c.now) past
      → Begun (above_since a target interval past)
  above_since-Begun [] set = tt
  above_since-Begun (c ∷ past) set =
      if_elim Begun (is_below a target interval c) (λ _. tt)
        λ _.
          Begun-later (above_since a target interval past) c.now (above_since-Begun past set.1)
            set.0

  -- `OkToDrop` on a state that tracks the history.
  abbrev Judged : Call a → List (Call a) → Codel a × Bool → Type 0
  Judged c past r =
      FirstAbove (above_since a target interval (c ∷ past)) r.0.first_above_time
      × (r.1 ≡ is_overloaded a target interval (c ∷ past))
      × (r.0.target ≡ target)
      × (r.0.interval ≡ interval)

  -- The state tracks the history, and it is in the drop state exactly under overload.
  pub record IsTracking (past : List (Call a)) (f : Codel a) : Type 0 where
    pub same_target : f.target ≡ target
    pub same_interval : f.interval ≡ interval
    pub first_above : FirstAbove (above_since a target interval past) f.first_above_time
    pub drop_state : f.dropping ≡ is_overloaded a target interval past

  module _ (laws : IsTimeEq a) where
    time_eq_set : (t u : Time) → SetAt t → u ≡ time_add t interval → time_eq u unix_epoch ≡ false
    time_eq_set t u set e = elim (Bool-cases (time_eq u unix_epoch)) [
      | inl hit ↦ absurd (set (rw (← e) (laws.eq_of_time_eq u unix_epoch hit)))
      | inr miss ↦ miss
    ]

    ok_to_drop-Judged :
        (c : Call a) (past : List (Call a)) (f : Codel a) (since : Option Time)
        → above_since a target interval past ≡ since
        → f.target ≡ target
        → f.interval ≡ interval
        → Begun since
        → FirstAbove since f.first_above_time
        → Judged c past (ok_to_drop a f (sojourn_of a c.now c.enqueue_time) c.now)
    unfolding ok_to_drop
    ok_to_drop-Judged c past f none e t i b h = ground (arith, laws.time_eq_refl unix_epoch)
    ok_to_drop-Judged c past f (some s) e t i b h =
        ground (arith, time_eq_set s f.first_above_time b h)

    decide-IsTracking :
        (c : Call a) (past : List (Call a)) (f : Codel a) (ok : Bool)
        → Judged c past (f, ok)
        → IsTracking (c ∷ past) (decide a (f, ok) c.now).0
    unfolding decide scheduled_drop enter_drop
    decide-IsTracking c past f ok j = ground arith

    should_drop-IsTracking :
        (c : Call a) (past : List (Call a)) (f : Codel a)
        → All (λ d. SetAt d.now) past
        → IsTracking past f
        → IsTracking (c ∷ past) (should_drop a f c.now c.enqueue_time).0
    unfolding should_drop
    should_drop-IsTracking c past f set k =
        let judged = ok_to_drop a f (sojourn_of a c.now c.enqueue_time) c.now in
        decide-IsTracking c past judged.0 judged.1 (
          ok_to_drop-Judged c past f _ refl k.same_target k.same_interval
            (above_since-Begun past set) k.first_above)

    pub after-IsTracking :
        (past : List (Call a))
        → All (λ c. SetAt c.now) past
        → IsTracking past (after a target interval past)
    unfolding after init
    after-IsTracking [] set = record {
      same_target = refl;
      same_interval = refl;
      first_above = refl;
      drop_state = refl;
    }
    after-IsTracking (c ∷ past) set =
        should_drop-IsTracking c past (after a target interval past) set.1
          (after-IsTracking past set.1)

    -- After any history the filter is in the drop state exactly when the calls since some earlier
    -- call have all waited for at least the target, up to and including the newest, which came an
    -- interval or more after that call. It is assumed that `==` of times is equality and that at no
    -- call of the history the clock read an interval before the epoch, which stands for "unset".
    pub after-dropping :
        (past : List (Call a))
        → All (λ c. SetAt c.now) past
        → (after a target interval past).dropping ≡ is_overloaded a target interval past
    after-dropping past set = (after-IsTracking past set).drop_state

    -- A call is told to drop exactly when there is overload and either there was none at the call
    -- before it or the scheduled time of the next drop has come. It is assumed that `==` of times is
    -- equality and that at none of the calls before it the clock read an interval before the epoch.
    pub verdict_lem :
        (c : Call a) (past : List (Call a))
        → All (λ d. SetAt d.now) past
        → verdict a target interval c past ≡ (
            is_overloaded a target interval (c ∷ past)
            && (not (is_overloaded a target interval past)
                || not (time_lt c.now (after a target interval past).drop_next)))
    unfolding verdict should_drop decide scheduled_drop enter_drop
    verdict_lem c past set =
        let f = after a target interval past in
        let k = after-IsTracking past set in
        ground (
          arith,
          ok_to_drop-Judged c past f _ refl k.same_target k.same_interval
              (above_since-Begun past set) k.first_above,
          k.drop_state,
          ok_to_drop-dropping f (sojourn_of a c.now c.enqueue_time) c.now,
          ok_to_drop-drop_next f (sojourn_of a c.now c.enqueue_time) c.now,
        )
