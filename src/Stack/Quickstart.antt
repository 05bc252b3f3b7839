-- ===== src/Stack/Quickstart.antt =====
-- The program examples/quickstart.cc: the four components together, serving one request after another.
use limen.Base.{Bool, if◌then◌else◌, ℤ, pos, add32, List, [], ◌∷◌, Option, none, some, ℕ}
use limen.Double.{DoubleOps}
use limen.Limit.Defs.{LimitOps, AbstractLimit, starting_at}
use limen.Limiter.Guard.{CompletionStatus, SlotGuard, complete}
use limen.Limiter.Defs.{LimiterState, do_try_acquire, limiter_at}
use limen.Simple.Defs.{simple_gate, with_limit, with_id}
use limen.Simple.Defs as SimpleDefs
use limen.Gradient.Defs.{Gradient2, Builder}
use limen.Gradient.Defs as GradientDefs
use limen.Gradient.Setup.{with_initial_limit, with_min_limit, with_max_concurrency}
use limen.Window.Defs.{WindowOps}
use limen.Windowed.Defs.{Windowed}
use limen.Windowed.Config as WindowedConfig
use limen.Codel.Time.{AbslTime}
use limen.Codel.Filter.{Codel, should_drop}
use limen.Codel.Config.{with_target, with_interval}
use limen.Codel.Config as CodelConfig
use limen.Stack.Defs.{stack_limit}

-- What the clocks read in one round: at the admission, at `absl::Now()`, in the filter, and at the
-- completion.
pub record Reading (a : AbslTime) : Type 0 where
  pub acquired_ns : ℤ
  pub enqueued : a.Time
  pub dequeued : a.Time
  pub completed_ns : ℤ

-- The limiter, the filter and the three counters.
pub record Demo (a : AbslTime) (L : Type 0) : Type 0 where
  pub limiter : LimiterState L
  pub codel : Codel a
  pub admitted : ℤ
  pub rejected : ℤ
  pub dropped : ℤ

module _ (a : AbslTime) {L : Type 0} (limit : LimitOps L) where
  -- The completion of the slot, by the filter's verdict.
  unfoldable pub finish : Demo a L → ℤ → SlotGuard → Codel a × Bool → Demo a L
  finish s now_ns slot (codel, drop) =
      let done = λ (status : CompletionStatus).
        (complete (limiter_at limit (simple_gate limit) none now_ns) s.limiter slot status).0 in
      if drop
      then record s {
        limiter = done CompletionStatus.dropped;
        codel = codel;
        dropped = add32 s.dropped (pos 1);
      }
      else record s {
        limiter = done CompletionStatus.success;
        codel = codel;
        admitted = add32 s.admitted (pos 1);
      }

  -- One round of the loop, from the limiter's answer.
  unfoldable pub dequeue : Demo a L → Reading a → LimiterState L × Option SlotGuard → Demo a L
  dequeue s r (limiter, none) = record s { limiter = limiter; rejected = add32 s.rejected (pos 1) }
  dequeue s r (limiter, some slot) =
      finish (record s { limiter = limiter }) r.completed_ns slot
        (should_drop a s.codel r.dequeued r.enqueued)

  unfoldable pub request : Demo a L → Reading a → Demo a L
  request s r =
      dequeue s r (do_try_acquire limit (simple_gate limit) none r.acquired_ns s.limiter "demo")

  unfoldable pub requests : Demo a L → List (Reading a) → Demo a L
  requests s [] = s
  requests s (r ∷ rest) = requests (request s r) rest

-- What is next, unless the program has ended.
infixl 20 ◌>>=◌
abbrev pub ◌>>=◌ : {A B : Type 0} → Option A → (A → Option B) → Option B
none >>= f = none
(some x) >>= f = f x

unfoldable pub gradient2 : (d : DoubleOps) → Builder d.Double
gradient2 d =
    with_max_concurrency (pos 200)
      (with_min_limit (pos 10) (with_initial_limit (pos 20) (GradientDefs.default_builder d)))

abbrev pub Chain : DoubleOps → Type 0 → Type 0 → Type 0
Chain d V W = Windowed V (Gradient2 d.Double × AbstractLimit W)

module _ (d : DoubleOps) {V W : Type 0} where
  -- The limits, as the two Builders make them. `.value()` of a refusal ends the program: there is
  -- nothing then, here and below.
  unfoldable pub windowed : V → W → Option (Chain d V W)
  windowed fresh world =
      elim (WindowedConfig.build (WindowedConfig.default_builder fresh)
        (GradientDefs.build d (gradient2 d), starting_at (gradient2 d).initial_limit world)) [
          | WindowedConfig.built w ↦ some w
          | WindowedConfig.invalid_argument e ↦ none
        ]

  unfoldable pub front : Chain d V W → Option (LimiterState (Chain d V W))
  front chain =
      elim (SimpleDefs.build (with_id "demo" (with_limit chain SimpleDefs.default_builder))) [
        | SimpleDefs.built made ↦ some made.state
        | SimpleDefs.limit_required ↦ none
      ]

module _ (a : AbslTime) (milliseconds : ℕ → a.Duration) where
  -- The filter's Builder, with both durations and the name set. The clock is `absl::Now`, whose
  -- readings are given below.
  unfoldable pub codel_builder : CodelConfig.Builder a (Unit {0})
  codel_builder =
      CodelConfig.with_id a
        (with_interval a
          (with_target a (CodelConfig.default_builder a milliseconds) (milliseconds 5))
          (milliseconds 100))
        "demo"

  unfoldable pub filter : Option (Codel a)
  filter = elim (CodelConfig.build a tt codel_builder) [
    | CodelConfig.built made ↦ some made.state
    | CodelConfig.invalid_argument e ↦ none
  ]

  module _ (d : DoubleOps) {V W : Type 0} (window : WindowOps V) where
    abbrev pub begin : LimiterState (Chain d V W) → Codel a → Demo a (Chain d V W)
    begin limiter codel = record {
      limiter = limiter;
      codel = codel;
      admitted = pos 0;
      rejected = pos 0;
      dropped = pos 0;
    }

    -- `main`, with what the clocks read in each round.
    unfoldable pub main : V → W → List (Reading a) → Option (Demo a (Chain d V W))
    main fresh world readings = do
      chain ← windowed d fresh world
      limiter ← front d chain
      codel ← filter
      some (requests a (stack_limit d window) (begin limiter codel) readings)
