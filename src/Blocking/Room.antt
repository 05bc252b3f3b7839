-- ===== src/Blocking/Room.antt =====
-- A `SimpleLimiter` as the delegate of a blocking limiter: it admits a call exactly while fewer slots
-- are out than its limit.
use limen.Base.{
  ℕ, suc, ◌+◌, ◌<◌, ◌^◌, ◌≡◌, refl, true, ℤ, pos, leb_ℤ, none, String, arith, ◌<ℤ◌, add32-pos, ◌≤◌,
  length, ◌-◌,
}
use limen.Limit.Defs.{LimitOps}
use limen.Limiter.Guard.{try_acquire}
use limen.Limiter.Defs.{is_bypassed, admit, do_try_acquire, count_outcome, LimiterState}
use limen.Simple.Defs.{simple_acquire, simple_gate, simple_acquire_iff}
use limen.Blocking.Defs.{Blocking, unblock}
use limen.Blocking.Composed.{Ticking, ticking_limiter}
use limen.Blocking.Progress.{IsCounted, length-unblock}

module _ {L : Type 0} (limit : LimitOps L) where
  -- The limit is `cap`, a positive int, and `m` slots are out, so that `k` are free.
  pub record Room (k : ℕ) (t : Ticking L) : Type 0 where
    pub cap : ℕ
    pub m : ℕ
    pub limit_is : limit.get_limit t.state.limit ≡ pos cap
    pub inflight_is : t.state.inflight ≡ pos m
    pub all : m + k ≡ cap
    pub fits : cap < 2 ^ 31

  below : (c i : ℤ) (cap m k : ℕ) → c ≡ pos cap → i ≡ pos m → m + suc k ≡ cap → i <ℤ c
  below c i cap m k e f a = ground arith

  at_cap : (c i : ℤ) (cap m : ℕ) → c ≡ pos cap → i ≡ pos m → m + 0 ≡ cap → leb_ℤ c i ≡ true
  at_cap c i cap m e f a = ground arith

  simple_acquire-full :
      (s : LimiterState L) (context : String)
      → leb_ℤ (limit.get_limit s.limit) s.inflight ≡ true
      → simple_acquire limit s context ≡ (s, none)
  unfolding simple_acquire
  simple_acquire-full s context e = rw e refl

  -- A limiter without a bypass predicate admits exactly while a slot is free.
  pub simple-IsCounted : IsCounted (ticking_limiter limit (simple_gate limit) none) Room
  unfolding try_acquire do_try_acquire is_bypassed admit count_outcome
  simple-IsCounted = record {
    admits = λ k t context h.
        let e =
          (simple_acquire_iff limit t.state context).0
            (below _ _ h.cap h.m k h.limit_is h.inflight_is h.all) in
        rw e (
          refl,
          record {
            cap = h.cap;
            m = suc h.m;
            limit_is = h.limit_is;
            inflight_is = rw h.inflight_is (add32-pos h.m (omega (arith, h.all, h.fits)));
            all = omega (arith, h.all);
            fits = h.fits;
          },
        );
    rejects = λ t context h.
        rw
          (simple_acquire-full t.state context
            (at_cap _ _ h.cap h.m h.limit_is h.inflight_is h.all))
          (
            refl,
            record {
              cap = h.cap;
              m = h.m;
              limit_is = h.limit_is;
              inflight_is = h.inflight_is;
              all = h.all;
              fits = h.fits;
            },
          );
  }

  -- A blocking limiter around a `SimpleLimiter` without a bypass: with m slots out of a limit of cap, a
  -- positive int, `Unblock` serves min(cap - m, n) of the n waiters, so that n - (cap - m) are left in
  -- the queue, and room for (cap - m) - n slots is left: nobody waits on while there is room.
  pub length-unblock_simple :
      (b : Blocking (Ticking L)) (cap m : ℕ)
      → limit.get_limit b.delegate.state.limit ≡ pos cap
      → b.delegate.state.inflight ≡ pos m
      → m ≤ cap
      → cap < 2 ^ 31
      → let b' = unblock (ticking_limiter limit (simple_gate limit) none) b in
        (length b'.queue ≡ length b.queue - (cap - m))
        × Room ((cap - m) - length b.queue) b'.delegate
  length-unblock_simple b cap m e f le lt =
      length-unblock _ Room simple-IsCounted (cap - m) b (record {
        cap = cap;
        m = m;
        limit_is = e;
        inflight_is = f;
        all = omega (arith, le);
        fits = lt;
      })
