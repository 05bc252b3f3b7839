-- ===== src/Simple/Defs.antt =====
-- The gate of `SimpleLimiter`, and its Builder.
use limen.Base.{
  Bool, add32, ◌≡◌, if◌then◌else◌, pos, negsuc, ◌<ℤ◌, leb_ℤ, Option, none, some, String, arith, ◌↔◌,
  ap,
}
use limen.Limit.Defs.{LimitOps}
use limen.Limiter.Defs.{LimiterState, AcquireResult, Gate, init}

-- What the Builder's setters accumulate; the meter provider is not modelled. A predicate may be null.
pub record Builder (L : Type 0) : Type 0 where
  pub limit : Option L
  pub id : String
  pub bypass_predicate : Option (String → Bool)

-- The limiter that `Build` makes: the state, and the const members.
pub record Limiter (L : Type 0) : Type 0 where
  pub state : LimiterState L
  pub id : String
  pub bypass_predicate : Option (String → Bool)

-- `Build` refuses a builder without a limit.
pub data BuildResult (A : Type 0) : Type 0 where
  built : A → BuildResult A
  limit_required : BuildResult A

module _ {L : Type 0} where
  unfoldable pub default_builder : Builder L
  default_builder = record { limit = none; id = ""; bypass_predicate = none }

  -- The setters.
  unfoldable pub with_limit : L → Builder L → Builder L
  with_limit limit b = record b { limit = some limit }

  unfoldable pub with_id : String → Builder L → Builder L
  with_id id b = record b { id = id }

  unfoldable pub with_bypass_predicate : Option (String → Bool) → Builder L → Builder L
  with_bypass_predicate predicate b = record b { bypass_predicate = predicate }

  unfoldable pub build : Builder L → BuildResult (Limiter L)
  build b = elim b.limit [
    | none ↦ limit_required
    | some limit ↦
        built (record { state = init limit; id = b.id; bypass_predicate = b.bypass_predicate })
  ]

module _ {L : Type 0} (limit : LimitOps L) where
  -- `DoAcquire` when no other thread comes between its steps: the first compare-and-swap succeeds. The
  -- sum is at most the limit, an int, so it does not wrap.
  unfoldable pub simple_acquire : LimiterState L → String → LimiterState L × Option AcquireResult
  simple_acquire s context =
      let current = s.inflight in
      let cap = limit.get_limit s.limit in
      if leb_ℤ cap current then (s, none) else (
        record s { inflight = add32 current (pos 1) },
        some (record { inflight_post = add32 current (pos 1); partition_index = negsuc 0 }),
      )

  abbrev pub simple_gate : Gate L
  simple_gate = record {
    do_acquire = simple_acquire;
    on_release_partition = λ s partition_index. s;
  }

  -- A slot is granted exactly when fewer are in flight than the limit, and then one more is.
  pub simple_acquire_iff :
      (s : LimiterState L) (context : String)
      → (s.inflight <ℤ limit.get_limit s.limit) ↔ (
          simple_acquire s context ≡ (
            record s { inflight = add32 s.inflight (pos 1) },
            some (record { inflight_post = add32 s.inflight (pos 1); partition_index = negsuc 0 }),
          ))
  unfolding simple_acquire
  simple_acquire_iff s context = (λ h. ground arith, λ e. ground (arith, ap (λ x. x.1) e))
