-- ===== src/Partitioned/Viewed.antt =====
-- The state of a partitioned limiter as its threads' atomics show it, and the steps of one thread alone.
use limen.Base.{
  ◌≡◌, ◌≢◌, refl, sym, ap, ◌∙◌, Bool, true, false, if◌then◌else◌, ◌==◌, leb_ℤ, ltb_ℤ, eqb_ℤ, ℕ,
  zero, suc, ◌^◌, ℤ, pos, ◌+ℤ◌, ◌≤ℤ◌, ◌<ℤ◌, add32, sub32, int32, List, [], ◌∷◌, Option, none, some,
  get_elem?, set, arith, ==→eq, ◌-ℤ◌, ◌-◌,
}
use limen.Limit.Defs.{get_limit, Update}
use limen.Limiter.Defs.{LimiterState, AcquireResult}
use limen.Partitioned.Defs.{Partition, Routing, Wrapped, enter, update_at, with_pools}
use limen.Partitioned.Threads.{Pc, idle, resolved, holding, Counters, Settings, set_busy, Move}

-- Steps of one thread, with nothing in between.
pub data Run (t : Settings) : Counters → Pc → Counters → Pc → Type 0 where
  done : {c : Counters} {p : Pc} → Run t c p c p
  first :
      {c c' c'' : Counters} {p p' p'' : Pc}
      → Move c t p c' p'
      → Run t c' p' c'' p''
      → Run t c p c'' p''

pub some-injective : {A : Type 0} {a b : A} → some a ≡ some b → a ≡ b
some-injective e = cc

get_elem?-set :
    {A : Type 0} (xs : List A) (i j : ℕ) (x y : A)
    → get_elem? xs i ≡ some x
    → get_elem? (set xs i y) j ≡ (if j == i then some y else get_elem? xs j)
get_elem?-set [] i j x y e = cc
get_elem?-set (z ∷ xs) zero zero x y e = refl
get_elem?-set (z ∷ xs) zero (suc j) x y e = ground arith
get_elem?-set (z ∷ xs) (suc i) zero x y e = ground arith
get_elem?-set (z ∷ xs) (suc i) (suc j) x y e = get_elem?-set xs i j x y e ∙ ground arith

-- Where the thread stands after the call, by its answer.
abbrev pub answered : ℕ → Option AcquireResult → Pc
answered i none = idle
answered i (some result) = holding i

abbrev pub taken : Counters → ℕ → Counters
taken c i = record (set_busy c i (add32 (c.busy i) (pos 1))) { inflight = add32 c.inflight (pos 1) }

pub lt_from : (x y a b : ℤ) → x ≡ a → y ≡ b → leb_ℤ b a ≡ false → x <ℤ y
lt_from x y a b e f h = ground arith

pub le_from : (x y a b : ℤ) → x ≡ a → y ≡ b → leb_ℤ b a ≡ true → y ≤ℤ x
le_from x y a b e f h = ground arith

pub below_from : (x y a b : ℤ) → x ≡ a → y ≡ b → ltb_ℤ a b ≡ true → x <ℤ y
below_from x y a b e f h = ground arith

pub above_from : (x y a b : ℤ) → x ≡ a → y ≡ b → ltb_ℤ a b ≡ false → y ≤ℤ x
above_from x y a b e f h = ground arith

pub zero_from : (x a : ℤ) → x ≡ a → eqb_ℤ a (pos 0) ≡ true → x ≡ pos 0
zero_from x a e h = ground arith

pub not_zero : (x a : ℤ) → x ≡ a → eqb_ℤ a (pos 0) ≡ false → x ≢ pos 0
not_zero x a e h k = ground arith

-- The count of delayed threads is back where it was.
pub slept :
    (x a : ℤ)
    → x ≡ a
    → pos 0 ≤ℤ a
    → a <ℤ pos (2 ^ 31 - 1)
    → sub32 (x +ℤ pos 1) (pos 1) ≡ sub32 (add32 a (pos 1)) (pos 1)
unfolding add32 sub32 int32 ◌+ℤ◌ ◌-ℤ◌
slept x a e h k = ground arith

pub under_max : (x y : ℤ) → ltb_ℤ x y ≡ true → y <ℤ pos (2 ^ 31) → x <ℤ pos (2 ^ 31 - 1)
under_max x y h k = ground arith

-- The atomics and the settings are those of the limiter.
pub record Views {S D : Type 0} (r : Routing) (s : LimiterState (Wrapped S D)) (c : Counters)
    (t : Settings) : Type 0 where
  pub inflight : c.inflight ≡ s.inflight
  pub delayed : c.delayed_threads ≡ s.limit.1.world.delayed_threads
  pub cap_now : t.cap_now ≡ get_limit s.limit.1
  pub max_delayed : t.max_delayed_threads ≡ r.max_delayed_threads
  pub partitions :
      (j : ℕ) (part : Partition D)
      → get_elem? s.limit.1.world.partitions j ≡ some part
      → (c.busy j ≡ part.busy) × (t.limit j ≡ part.limit) × (t.reject_delay j ≡ part.reject_delay)

-- The run, and where it ends.
pub record Simulated {S D : Type 0} (r : Routing) (c : Counters) (t : Settings) (i : ℕ)
    (answer : LimiterState (Wrapped S D) × Option AcquireResult) : Type 0 where
  pub ended : Counters
  pub run : Run t c (resolved i) ended (answered i answer.1)
  pub views : Views r answer.0 ended t

module _ {S D : Type 0} (update : Update S) (r : Routing) where
  entered_at :
      (parts : List (Partition D)) (c : Counters) (t : Settings) (i j : ℕ)
      (part other : Partition D) (b : Bool)
      → (j == i) ≡ b
      → (c.busy i ≡ part.busy) × (t.limit i ≡ part.limit) × (t.reject_delay i ≡ part.reject_delay)
      → ((k : ℕ) (p : Partition D)
          → get_elem? parts k ≡ some p
          → (c.busy k ≡ p.busy) × (t.limit k ≡ p.limit) × (t.reject_delay k ≡ p.reject_delay))
      → (if b then some (enter part) else get_elem? parts j) ≡ some other
      → ((if b then add32 (c.busy i) (pos 1) else c.busy j) ≡ other.busy)
        × (t.limit j ≡ other.limit)
        × (t.reject_delay j ≡ other.reject_delay)
  unfolding enter
  entered_at parts c t i j part other true e (f, g, k) all at =
      let same : enter part ≡ other = some-injective at in
      let ij = ==→eq j i e in
      (
        ap (λ x. add32 x (pos 1)) f ∙ ap (λ p. p.busy) same,
        ap t.limit ij ∙ g ∙ ap (λ p. p.limit) same,
        ap t.reject_delay ij ∙ k ∙ ap (λ p. p.reject_delay) same,
      )
  entered_at parts c t i j part other false e f all at = all j other at

  pub taken-Views :
      (s : LimiterState (Wrapped S D)) (c : Counters) (t : Settings) (i : ℕ) (part : Partition D)
      → get_elem? s.limit.1.world.partitions i ≡ some part
      → Views r s c t
      → Views r
          (record (with_pools update r s (update_at enter (some part) i s.limit.1.world)) {
            inflight = add32 s.inflight (pos 1);
          })
          (taken c i)
          t
  unfolding with_pools update_at get_limit
  taken-Views s c t i part e v = record {
    inflight = ap (λ x. add32 x (pos 1)) v.inflight;
    delayed = v.delayed;
    cap_now = v.cap_now;
    max_delayed = v.max_delayed;
    partitions = λ j other at.
        entered_at s.limit.1.world.partitions c t i j part other (j == i) refl
          (v.partitions i part e) v.partitions
          (sym (get_elem?-set s.limit.1.world.partitions i j part (enter part) e) ∙ at);
  }
