-- ===== src/Partitioned/Accepted.antt =====
-- What `Build` of the partitioned limiter accepts.
use limen.Base.{
  ◌≡◌, refl, sym, ap, ◌∙◌, Bool, true, false, ◌||◌, ℤ, pos, ltb_ℤ→ge, ◌≤ℤ◌, List, [], ◌∷◌, Option,
  none, some, String, All, map, arith, if_elim, not,
}
use limen.Double.{DoubleOps}
use limen.Partitioned.Names.{same_name, unknown}
use limen.Partitioned.Config.{
  PartitionSpec, PendingRejectDelay, Builder, BuildError, BuildResult, Config, is_empty_name,
  and_then, set_delay, set_delays, check_resolvers, unless, is_nil, check_specs, sum_from, validate,
  build,
}
use limen.Partitioned.Config.BuildResult.{built, refused}

-- A chain that builds something has both steps built.
and_then-built :
    {A B : Type 0} (x : BuildResult A) (f : A → BuildResult B) (b : B)
    → and_then x f ≡ built b
    → (a : A) × (x ≡ built a) × (f a ≡ built b)
unfolding and_then
and_then-built (built a) f b e = (a, refl, e)
and_then-built (refused r) f b e = cc

built-injective : {A : Type 0} {a b : A} → built a ≡ built b → a ≡ b
built-injective e = cc

unless-built :
    {A : Type 0} (c : Bool) (r : BuildError) (x : BuildResult A) (a : A)
    → unless c r x ≡ built a
    → (c ≡ false) × (x ≡ built a)
unless-built true r x a e = cc
unless-built false r x a e = (refl, e)

-- A required value was given.
given :
    {A B : Type 0} (r : BuildError) (o : Option A) (f : A → BuildResult B) (b : B)
    → elim o [ none ↦ refused r | some a ↦ f a ] ≡ built b
    → (a : A) × (o ≡ some a) × (f a ≡ built b)
given r none f b e = cc
given r (some a) f b e = (a, refl, e)

-- A spec that `Build` accepts.
pub record IsSpec (d : DoubleOps) (spec : PartitionSpec d.Double) : Type 0 where
  pub named : is_empty_name spec.name ≡ false
  pub unreserved : same_name spec.name unknown ≡ false
  pub percent_low : d.lt spec.percent (d.decimal 0 0) ≡ false
  pub percent_high : d.lt (d.decimal 1 0) spec.percent ≡ false

or_false : (a b : Bool) → (a || b) ≡ false → (a ≡ false) × (b ≡ false)
or_false a b e = ground arith

module _ (d : DoubleOps) where
  check_specs-built :
      (specs checked : List (PartitionSpec d.Double))
      → check_specs d specs ≡ built checked
      → (checked ≡ specs) × All (IsSpec d) specs
  unfolding check_specs
  check_specs-built [] checked e = (cc, tt)
  check_specs-built (spec ∷ rest) checked e =
      let (n, e1) = unless-built (is_empty_name spec.name) _ _ checked e in
      let (u, e2) = unless-built (same_name spec.name unknown) _ _ checked e1 in
      let (p, e3) = unless-built _ _ _ checked e2 in
      let (specs', e4, e5) = and_then-built (check_specs d rest) _ checked e3 in
      let (k, all) = check_specs-built rest specs' e4 in
      let (low, high) = or_false _ _ p in
      (cc, (record { named = n; unreserved = u; percent_low = low; percent_high = high }, all))

-- The part of a spec that a reject delay does not touch.
abbrev pub declared : {D : Type 0} → PartitionSpec D → String × D
declared spec = (spec.name, spec.percent)

-- A reject delay, if its name is found, leaves the declarations alone.
abbrev Declares : {D : Type 0} → List (PartitionSpec D) → Option (List (PartitionSpec D)) → Type 0
Declares specs none = Unit
Declares specs (some specs') = map declared specs' ≡ map declared specs

keep_going :
    {D : Type 0} (spec : PartitionSpec D) (rest : List (PartitionSpec D))
    (o : Option (List (PartitionSpec D)))
    → Declares rest o
    → Declares (spec ∷ rest) (elim o [ none ↦ none | some specs ↦ some (spec ∷ specs) ])
keep_going spec rest none h = tt
keep_going spec rest (some specs) h = ap (λ xs. declared spec ∷ xs) h

set_delay-Declares :
    {D : Type 0} (name : String) (delay : ℤ) (specs : List (PartitionSpec D))
    → Declares specs (set_delay name delay specs)
unfolding set_delay
set_delay-Declares name delay [] = tt
set_delay-Declares name delay (spec ∷ rest) =
    if_elim (Declares (spec ∷ rest)) (same_name spec.name name) (λ t. refl)
      (λ f. keep_going spec rest (set_delay name delay rest) (set_delay-Declares name delay rest))

set_delays-built :
    {D : Type 0} (pending : List PendingRejectDelay) (specs delayed : List (PartitionSpec D))
    → set_delays pending specs ≡ built delayed
    → map declared delayed ≡ map declared specs
unfolding set_delays
set_delays-built [] specs delayed e = ap (map declared) cc
set_delays-built {D} (p ∷ rest) specs delayed e =
    next (set_delay p.name p.delay specs) (λ specs'. set_delays-built rest specs' delayed)
      (set_delay-Declares p.name p.delay specs) e
  where
    next :
        (o : Option (List (PartitionSpec D)))
        → ((specs' : List (PartitionSpec D))
            → set_delays rest specs' ≡ built delayed
            → map declared delayed ≡ map declared specs')
        → Declares specs o
        → elim o [
          | none ↦ refused BuildError.undeclared_partition
          | some specs' ↦ set_delays rest specs'
        ]
          ≡ built delayed
        → map declared delayed ≡ map declared specs
    next none k h e = cc
    next (some specs') k h e = k specs' e ∙ h

check_resolvers-built :
    (resolvers : List (Option (String → Option String))) (set : List (String → Option String))
    → check_resolvers resolvers ≡ built set
    → resolvers ≡ map some set
unfolding check_resolvers
check_resolvers-built [] set e = ap (map some) (built-injective e)
check_resolvers-built (none ∷ rest) set e = cc
check_resolvers-built (some resolver ∷ rest) set e =
    let (set', e1, e2) = and_then-built (check_resolvers rest) _ set e in
    let k = check_resolvers-built rest set' e1 in
    ap (λ xs. some resolver ∷ xs) k ∙ ap (map some) (built-injective e2)

-- What the constructor may rely on.
pub record IsAccepted (d : DoubleOps) {L : Type 0} (b : Builder d.Double L) (c : Config d.Double L)
    : Type 0 where
  pub limited : b.limit ≡ some c.limit
  pub some_partition : is_nil b.partition_specs ≡ false
  pub some_resolver : is_nil b.partition_resolvers ≡ false
  pub max_delayed :
      (c.max_delayed_threads ≡ b.max_delayed_threads) × (pos 0 ≤ℤ b.max_delayed_threads)
  pub base_params :
      (c.id ≡ b.id)
      × (c.bypass_predicate ≡ b.bypass_predicate)
      × (c.has_meter_provider ≡ b.has_meter_provider)
  pub sleeps : c.sleeps_by_default ≡ not b.has_sleep_fn
  pub specs_valid : All (IsSpec d) b.partition_specs
  pub specs_kept : map declared c.specs ≡ map declared b.partition_specs
  pub total :
      d.lt (d.add (d.decimal 1 0) (d.decimal 1 9)) (sum_from d (d.decimal 0 0) b.partition_specs)
      ≡ false
  pub resolvers_set : b.partition_resolvers ≡ map some c.resolvers

validate-IsAccepted :
    (d : DoubleOps) {L : Type 0} (b : Builder d.Double L) (limit : L) (c : Config d.Double L)
    → b.limit ≡ some limit
    → validate d b limit ≡ built c
    → IsAccepted d b c
unfolding validate
validate-IsAccepted d b limit c l e =
    let (has_spec, e1) = unless-built _ _ _ c e in
    let (has_resolver, e2) = unless-built _ _ _ c e1 in
    let (max, e3) = unless-built _ _ _ c e2 in
    let (specs, checked, e4) = and_then-built (check_specs d b.partition_specs) _ c e3 in
    let (same, valid) = check_specs-built d b.partition_specs specs checked in
    let (sum, e5) = unless-built _ _ _ c e4 in
    let (delayed, d1, e6) = and_then-built (set_delays b.pending_reject_delays specs) _ c e5 in
    let (resolvers, r1, e7) = and_then-built (check_resolvers b.partition_resolvers) _ c e6 in
    let made = built-injective e7 in
    record {
      limited = l ∙ ap (λ x. some x.limit) made;
      some_partition = has_spec;
      some_resolver = has_resolver;
      max_delayed =
          (ap (λ x. x.max_delayed_threads) (sym made), ltb_ℤ→ge b.max_delayed_threads (pos 0) max);
      base_params = (
        ap (λ x. x.id) (sym made),
        ap (λ x. x.bypass_predicate) (sym made),
        ap (λ x. x.has_meter_provider) (sym made),
      );
      sleeps = ap (λ x. x.sleeps_by_default) (sym made);
      specs_valid = valid;
      specs_kept =
          ap (λ x. map declared x.specs) (sym made)
          ∙ set_delays-built b.pending_reject_delays specs delayed d1
          ∙ ap (map declared) same;
      total = rw (← same) sum;
      resolvers_set =
          check_resolvers-built b.partition_resolvers resolvers r1
          ∙ ap (λ x. map some x.resolvers) made;
    }

-- If `Build` returns a limiter, then a limit, a partition and a resolver were given and no resolver is
-- null; each partition has a name that is neither empty nor reserved and a percentage that is not
-- outside [0, 1], they do not add up to more than 1 + 1e-9, and the number of delayed threads is not
-- negative; and the limiter has just these partitions and resolvers, in the order given, the name and
-- the bypass predicate that were set, a meter provider if one was, and sleeps by the default function
-- unless another was injected.
pub build-IsAccepted :
    (d : DoubleOps) {L : Type 0} (b : Builder d.Double L) (c : Config d.Double L)
    → build d b ≡ built c
    → IsAccepted d b c
unfolding build
build-IsAccepted d b c e =
    let (limit, l, v) = given BuildError.limit_required b.limit (validate d b) c e in
    validate-IsAccepted d b limit c l v
