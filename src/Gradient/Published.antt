-- ===== src/Gradient/Published.antt =====
-- What a `Gradient2Limit` publishes: `Update` under `AbstractLimit::OnSample`.
use limen.Base.{◌≡◌, refl, inl, inr, List, [], ◌∷◌, ℤ, ◌≤ℤ◌, IsInt32, ap, ◌∙◌, le_cases, sym}
use limen.Double.{DoubleOps, IsCast}
use limen.Limit.Defs.{AbstractLimit, get_limit, on_sample}
use limen.Limit.Publish.{get_limit-set_limit_locked}
use limen.Limit.Tracing.{Sample}
use limen.Gradient.Defs.{Gradient2, Builder, build, update}
use limen.Gradient.Cap.{IsCapped, IsRange, update-Capped, Between-to_int}

-- A configuration with a non-empty range of ints, and an initial limit within it.
pub record IsSound {D : Type 0} (b : Builder D) : Type 0 where
  pub range : IsRange b.min_limit b.max_concurrency
  pub initial_int : IsInt32 b.initial_limit
  pub ge_min : b.min_limit ≤ℤ b.initial_limit
  pub le_max : b.initial_limit ≤ℤ b.max_concurrency

build-IsCapped :
    (d : DoubleOps) → IsCast d → (b : Builder d.Double) → IsSound b → IsCapped d (build d b)
unfolding build
build-IsCapped d laws b k = elim (le_cases b.min_limit b.initial_limit k.ge_min) [
  | inl e ↦ inl (ap d.of_int (sym e))
  | inr above ↦ elim (le_cases b.initial_limit b.max_concurrency k.le_max) [
    | inl e ↦ inr (inl (ap d.of_int e))
    | inr below ↦ inr (
        inr (
          laws.lt-of_int b.min_limit b.initial_limit k.range.lo_int k.initial_int ∙ above,
          laws.lt-of_int b.initial_limit b.max_concurrency k.initial_int k.range.hi_int ∙ below,
        ))
  ]
]

pub capped-to_int :
    (d : DoubleOps) (laws : IsCast d) (g : Gradient2 d.Double) (lo hi n : ℤ)
    → IsRange lo hi
    → g.min_limit ≡ lo
    → g.max_limit ≡ hi
    → IsCapped d g
    → n ≡ d.to_int g.estimated_limit
    → (lo ≤ℤ n) × (n ≤ℤ hi)
capped-to_int d laws g lo hi n r el eh k e =
    rw e (Between-to_int d laws lo hi _ r (rw (← el, ← eh) k))

module _ (d : DoubleOps) {W : Type 0} where
  open d use {Double, of_int, to_int, decimal, div, lt}

  -- `OnSample` of the limit.
  unfoldable pub gradient2_on_sample :
      Gradient2 Double × AbstractLimit W → Sample → Gradient2 Double × AbstractLimit W
  gradient2_on_sample g s = on_sample (update d) g s.start_time_ns s.rtt_ns s.inflight s.did_drop

  -- The limit after samples, newest first. `NotifyOnChange` has been called before the first.
  unfoldable pub after_samples :
      Builder Double → AbstractLimit W → List Sample → Gradient2 Double × AbstractLimit W
  after_samples b a [] = (build d b, a)
  after_samples b a (s ∷ past) = gradient2_on_sample (after_samples b a past) s

  -- The published limit is the cap truncated, and both are within the configured range.
  pub record IsPublished (b : Builder Double) (g : Gradient2 Double × AbstractLimit W)
      : Type 0 where
    pub kept_min : g.0.min_limit ≡ b.min_limit
    pub kept_max : g.0.max_limit ≡ b.max_concurrency
    pub capped : IsCapped d g.0
    pub published : get_limit g.1 ≡ to_int g.0.estimated_limit

  module _ (laws : IsCast d) where
    pub gradient2_on_sample-IsPublished :
        (b : Builder Double) (g : Gradient2 Double × AbstractLimit W) (s : Sample)
        → IsRange b.min_limit b.max_concurrency
        → IsPublished b g
        → IsPublished b (gradient2_on_sample g s)
    unfolding gradient2_on_sample on_sample
    gradient2_on_sample-IsPublished b g s r p =
        let range : IsRange g.0.min_limit g.0.max_limit = rw (p.kept_min, p.kept_max) r in
        let c =
          update-Capped d laws g.0 s.start_time_ns s.rtt_ns s.inflight s.did_drop range p.capped in
        record {
          kept_min = c.same_min ∙ p.kept_min;
          kept_max = c.same_max ∙ p.kept_max;
          capped = c.within;
          published = get_limit-set_limit_locked g.1 _ ∙ c.published;
        }

    pub after_samples-IsPublished :
        (b : Builder Double) (a : AbstractLimit W) (past : List Sample)
        → IsSound b
        → get_limit a ≡ b.initial_limit
        → IsPublished b (after_samples b a past)
    unfolding after_samples build
    after_samples-IsPublished b a [] k e = record {
      kept_min = refl;
      kept_max = refl;
      capped = build-IsCapped d laws b k;
      published = rw (e, laws.to_int-of_int b.initial_limit k.initial_int);
    }
    after_samples-IsPublished b a (s ∷ past) k e =
        gradient2_on_sample-IsPublished b _ s k.range (after_samples-IsPublished b a past k e)

    -- `GetLimit` of a limit built with a sound configuration lies in the configured range after any
    -- samples, for any tolerance, smoothing and queue-size function. It is assumed that ints are
    -- doubles in their order and that a cast to int truncates.
    pub get_limit-after_samples :
        (b : Builder Double) (a : AbstractLimit W) (past : List Sample)
        → IsSound b
        → get_limit a ≡ b.initial_limit
        → (b.min_limit ≤ℤ get_limit (after_samples b a past).1)
          × (get_limit (after_samples b a past).1 ≤ℤ b.max_concurrency)
    get_limit-after_samples b a past k e =
        let p = after_samples-IsPublished b a past k e in
        capped-to_int d laws (after_samples b a past).0 _ _ _ k.range p.kept_min p.kept_max p.capped
          p.published
