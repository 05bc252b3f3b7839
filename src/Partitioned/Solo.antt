-- ===== src/Partitioned/Solo.antt =====
-- A call of the partitioned limiter that no other thread comes between, as a run of steps.
use limen.Base.{
  ◌≡◌, refl, sym, ap, ◌∙◌, true, false, leb_ℤ, ltb_ℤ, eqb_ℤ, ℕ, ◌^◌, ℤ, pos, ◌+ℤ◌, ◌≤ℤ◌, ◌<ℤ◌,
  sub32, some, get_elem?, Bool-cases, inl, inr,
}
use limen.Limit.Defs.{get_limit, Update}
use limen.Limiter.Defs.{LimiterState}
use limen.Partitioned.Defs.{
  Partition, Pools, Routing, Wrapped, maybe_backoff_delay, with_pools, is_admitted, acquire_in,
}
use limen.Partitioned.Threads.{
  idle, resolved, rejected, Counters, Settings, count, find_idle, find_full, burst, load, read_cap,
  reject, cas_win, admit, no_delay, ask, exhausted, reserve, wake,
}
use limen.Partitioned.Viewed.{
  Run, done, first, taken, Views, Simulated, taken-Views, lt_from, le_from, below_from, above_from,
  zero_from, not_zero, slept, under_max,
}

module _ {S D : Type 0} (update : Update S) (r : Routing) (s : LimiterState (Wrapped S D))
    (c : Counters) (t : Settings) (i : ℕ) (part : Partition D) (v : Views r s c t)
    (e : get_elem? s.limit.1.world.partitions i ≡ some part) where
  abbrev pools : Pools D
  pools = s.limit.1.world

  -- Capacity is idle.
  lends :
      leb_ℤ (get_limit s.limit.1) s.inflight ≡ false
      → Simulated r c t i (acquire_in update r s i (some part))
  unfolding acquire_in is_admitted
  lends h = rw h (record {
    ended = taken c i;
    run = first count (
        first (find_idle (lt_from _ _ s.inflight (get_limit s.limit.1) v.inflight v.cap_now h))
          (first burst (first admit done)));
    views = taken-Views update r s c t i part e v;
  })

  -- The limiter is full, and the partition has room.
  enters :
      leb_ℤ (get_limit s.limit.1) s.inflight ≡ true
      → ltb_ℤ part.busy part.limit ≡ true
      → Simulated r c t i (acquire_in update r s i (some part))
  unfolding acquire_in is_admitted
  enters h k =
      let (b, l, z) = v.partitions i part e in
      rw (h, k)
        (record {
          ended = taken c i;
          run = first count (
              first
                (find_full (le_from _ _ s.inflight (get_limit s.limit.1) v.inflight v.cap_now h))
                (first load (
                  first read_cap (
                    first (cas_win (below_from _ _ part.busy part.limit b l k) refl)
                      (first admit done)))));
          views = taken-Views update r s c t i part e v;
        })

  -- The limiter and the partition are full: the call is rejected, after `MaybeBackoffDelay`.
  full_run :
      leb_ℤ (get_limit s.limit.1) s.inflight ≡ true
      → ltb_ℤ part.busy part.limit ≡ false
      → (c' : Counters) → Run t c (rejected i) c' idle
      → Run t c (resolved i) c' idle
  full_run h k c' rest =
      let (b, l, z) = v.partitions i part e in
      first count (
        first (find_full (le_from _ _ s.inflight (get_limit s.limit.1) v.inflight v.cap_now h)) (
          first load
            (first read_cap (first (reject (above_from _ _ part.busy part.limit b l k)) rest))))

  -- It views the same limiter, but for the delayed threads.
  delayed-Views :
      (p : Pools D) (n : ℤ)
      → p.partitions ≡ pools.partitions
      → n ≡ p.delayed_threads
      → Views r (with_pools update r s p) (record c { delayed_threads = n }) t
  unfolding with_pools get_limit
  delayed-Views p n same d = record {
    inflight = v.inflight;
    delayed = d;
    cap_now = v.cap_now;
    max_delayed = v.max_delayed;
    partitions = λ j other at. v.partitions j other (ap (λ xs. get_elem? xs j) (sym same) ∙ at);
  }

  -- The rejection, with the delay.
  record Delayed (p : Pools D) : Type 0 where
    n : ℤ
    run : Run t c (rejected i) (record c { delayed_threads = n }) idle
    same : p.partitions ≡ pools.partitions
    shown : n ≡ p.delayed_threads

  delays :
      pos 0 ≤ℤ pools.delayed_threads
      → r.max_delayed_threads <ℤ pos (2 ^ 31)
      → Delayed (maybe_backoff_delay r part pools)
  unfolding maybe_backoff_delay
  delays low high =
      let (b, l, z) = v.partitions i part e in
      elim (Bool-cases (eqb_ℤ part.reject_delay (pos 0))) [
        | inl none_set ↦ rw none_set (record {
          n = c.delayed_threads;
          run = first (no_delay (zero_from _ part.reject_delay z none_set)) done;
          same = refl;
          shown = v.delayed;
        })
        | inr set_to ↦ elim (Bool-cases (ltb_ℤ pools.delayed_threads r.max_delayed_threads)) [
          | inl room ↦
              rw (set_to, room)
                (record {
                  n = sub32 (c.delayed_threads +ℤ pos 1) (pos 1);
                  run = first (ask (not_zero _ part.reject_delay z set_to)) (
                      first
                        (reserve
                          (below_from _ _ pools.delayed_threads r.max_delayed_threads v.delayed
                            v.max_delayed room)
                          refl)
                        (first wake done));
                  same = refl;
                  shown =
                      slept c.delayed_threads pools.delayed_threads v.delayed low
                        (under_max _ r.max_delayed_threads room high);
                })
          | inr none_left ↦
              rw (set_to, none_left)
                (record {
                  n = c.delayed_threads;
                  run = first (ask (not_zero _ part.reject_delay z set_to)) (
                      first
                        (exhausted (
                          above_from _ _ pools.delayed_threads r.max_delayed_threads v.delayed
                            v.max_delayed none_left))
                        done);
                  same = refl;
                  shown = v.delayed;
                })
        ]
      ]

  rejects :
      leb_ℤ (get_limit s.limit.1) s.inflight ≡ true
      → ltb_ℤ part.busy part.limit ≡ false
      → pos 0 ≤ℤ pools.delayed_threads
      → r.max_delayed_threads <ℤ pos (2 ^ 31)
      → Simulated r c t i (acquire_in update r s i (some part))
  unfolding acquire_in is_admitted
  rejects h k low high =
      let d = delays low high in
      rw (h, k)
        (record {
          ended = record c { delayed_threads = d.n };
          run = full_run h k _ d.run;
          views = delayed-Views (maybe_backoff_delay r part pools) d.n d.same d.shown;
        })

  -- A call of `DoAcquire` for a partition that is there, in a state that the atomics show: a thread by
  -- itself can take the steps from the resolution on to where the sequential function ends, holding a
  -- slot of the partition or idle again after the delay, and the atomics then show its state. The
  -- count of delayed threads is not negative, and its bound is an int.
  pub acquire_in-Simulated :
      pos 0 ≤ℤ s.limit.1.world.delayed_threads
      → r.max_delayed_threads <ℤ pos (2 ^ 31)
      → Simulated r c t i (acquire_in update r s i (some part))
  acquire_in-Simulated low high = elim (Bool-cases (leb_ℤ (get_limit s.limit.1) s.inflight)) [
    | inl full ↦ elim (Bool-cases (ltb_ℤ part.busy part.limit)) [
      | inl room ↦ enters full room
      | inr none_left ↦ rejects full none_left low high
    ]
    | inr spare ↦ lends spare
  ]
