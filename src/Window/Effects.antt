-- ===== src/Window/Effects.antt =====
-- What a step of one thread in `PercentileSampleWindow::AddSample` does to the writes that are left.
use limen.Base.{
  ◌≡◌, refl, ap, if◌then◌else◌, List, ◌∷◌, ◌+◌, ◌≤◌, ℤ, ◌≤ℤ◌, ◌<ℤ◌, ltb_ℤ, sum_of, arith,
}
use limen.Window.Defs.{Entry, store_min, store_max}
use limen.Window.Percentile.{PercentileWindow}
use limen.Window.Claims.{
  Pc, claimed, at_min, at_max, Move, stores, skips, load_min, keep_min, lower_min, lose_min,
  load_max, keep_max, raise_max, lose_max, mark, pass,
}
use limen.Window.Accesses.{
  Access, stores_at, lowers_to, raises_to, drops, pending, all_pending, clash, claims, clash-claims,
  clash-shared,
}
use limen.Window.Pending.{apply}

-- What a thread has loaded bounds what is there now.
abbrev pub Seen : {D : Type 0} → PercentileWindow D → Pc → Type 0
Seen w (at_min e current) = w.min_rtt_ns ≤ℤ current
Seen w (at_max e current) = current ≤ℤ w.max_inflight
Seen w _ = Unit

kept_min : (m r c : ℤ) → c ≤ℤ r → m ≤ℤ c → store_min m r ≡ m
unfolding store_min
kept_min m r c h k = ground arith

new_min : (m r c : ℤ) → r <ℤ c → m ≡ c → store_min m r ≡ r
unfolding store_min
new_min m r c h e = ground arith

kept_max : (m r c : ℤ) → r ≤ℤ c → c ≤ℤ m → store_max m r ≡ m
unfolding store_max
kept_max m r c h k = ground arith

new_max : (m r c : ℤ) → c <ℤ r → m ≡ c → store_max m r ≡ r
unfolding store_max
new_max m r c h e = ground arith

lower : (m r c x : ℤ) → r <ℤ c → m ≡ c → m ≤ℤ x → r ≤ℤ x
lower m r c x h e k = ground arith

higher : (m r c x : ℤ) → c <ℤ r → m ≡ c → x ≤ℤ m → x ≤ℤ r
higher m r c x h e k = ground arith

le_refl : (x : ℤ) → x ≤ℤ x
le_refl x = ground arith

stored : (x y : List ℤ) (i m : ℤ) → i <ℤ m → (if ltb_ℤ i m then x else y) ≡ x
stored x y i m h = ground arith

not_stored : (x y : List ℤ) (i m : ℤ) → m ≤ℤ i → (if ltb_ℤ i m then x else y) ≡ y
not_stored x y i m h = ground arith

claims_self : (i : ℤ) (e : Entry) → claims i (claimed i e) ≡ 1
claims_self i e = ground arith

alone :
    (i v : ℤ) (e : Entry) (ps : List Pc)
    → ((j : ℤ) → claims j (claimed i e) + sum_of (claims j) ps ≤ 1)
    → sum_of (clash (stores_at i v)) (all_pending ps) ≡ 0
alone i v e ps h = omega (arith, clash-claims i v ps, claims_self i e, h i)

module _ {D : Type 0} where
  -- A move performs the next write, or none.
  pub data Effect (w : PercentileWindow D) (p : Pc) (w' : PercentileWindow D) (q : Pc)
      : Type 0 where
    none : pending p ≡ pending q → w ≡ w' → Effect w p w' q
    next :
        (c : Access)
        → pending p ≡ c ∷ pending q
        → apply c w ≡ w'
        → ((ps : List Pc)
            → ((i : ℤ) → claims i p + sum_of (claims i) ps ≤ 1)
            → sum_of (clash c) (all_pending ps) ≡ 0)
        → Effect w p w' q

  pub Move-Effect :
      (w : PercentileWindow D) (p : Pc) (w' : PercentileWindow D) (q : Pc)
      → Seen w p
      → Move w p w' q
      → Effect w p w' q
  Move-Effect w p w' q s (stores {i} {e} h) =
      next (stores_at i e.rtt_ns) refl (ap (λ z. record w { rtts = z }) (stored _ _ i _ h))
        (alone i e.rtt_ns e)
  Move-Effect w p w' q s (skips {i} {e} h) =
      next (stores_at i e.rtt_ns) refl (ap (λ z. record w { rtts = z }) (not_stored _ _ i _ h))
        (alone i e.rtt_ns e)
  Move-Effect w p w' q s load_min = none refl refl
  Move-Effect w p w' q s (keep_min {e} {current} h) =
      next (lowers_to e.rtt_ns) refl
        (ap (λ z. record w { min_rtt_ns = z }) (kept_min _ _ current h s))
        (λ ps k. clash-shared (lowers_to e.rtt_ns) tt (all_pending ps))
  Move-Effect w p w' q s (lower_min {e} {current} h m) =
      next (lowers_to e.rtt_ns) refl
        (ap (λ z. record w { min_rtt_ns = z }) (new_min _ _ current h m))
        (λ ps k. clash-shared (lowers_to e.rtt_ns) tt (all_pending ps))
  Move-Effect w p w' q s (lose_min h) = none refl refl
  Move-Effect w p w' q s load_max = none refl refl
  Move-Effect w p w' q s (keep_max {e} {current} h) =
      next (raises_to e.inflight) refl
        (ap (λ z. record w { max_inflight = z }) (kept_max _ _ current h s))
        (λ ps k. clash-shared (raises_to e.inflight) tt (all_pending ps))
  Move-Effect w p w' q s (raise_max {e} {current} h m) =
      next (raises_to e.inflight) refl
        (ap (λ z. record w { max_inflight = z }) (new_max _ _ current h m))
        (λ ps k. clash-shared (raises_to e.inflight) tt (all_pending ps))
  Move-Effect w p w' q s (lose_max h) = none refl refl
  Move-Effect w p w' q s (mark h) =
      next drops (rw h refl) refl (λ ps k. clash-shared drops tt (all_pending ps))
  Move-Effect w p w' q s (pass h) = none (rw h refl) refl

  -- The moving thread's next place, and what the others have loaded.
  pub record Moved (w : PercentileWindow D) (p : Pc) (w' : PercentileWindow D) (q : Pc)
      : Type 0 where
    pub own : Seen w' q
    pub others : (r : Pc) → Seen w r → Seen w' r
    pub fewer : (i : ℤ) → claims i q ≤ claims i p
    pub count : w'.sample_count ≡ w.sample_count

  -- A write of another kind leaves what was loaded in bounds.
  same_bounds :
      (w w' : PercentileWindow D)
      → w.min_rtt_ns ≡ w'.min_rtt_ns
      → w.max_inflight ≡ w'.max_inflight
      → (r : Pc) → Seen w r
      → Seen w' r
  same_bounds w w' e f (at_min x current) s = rw (← e) s
  same_bounds w w' e f (at_max x current) s = rw (← f) s
  same_bounds w w' e f _ s = s

  lowered :
      (w : PercentileWindow D) (v c : ℤ)
      → v <ℤ c
      → w.min_rtt_ns ≡ c
      → (r : Pc) → Seen w r
      → Seen (record w { min_rtt_ns = v }) r
  lowered w v c h e (at_min x current) s = lower _ v c current h e s
  lowered w v c h e (at_max x current) s = s
  lowered w v c h e _ s = s

  raised :
      (w : PercentileWindow D) (v c : ℤ)
      → c <ℤ v
      → w.max_inflight ≡ c
      → (r : Pc) → Seen w r
      → Seen (record w { max_inflight = v }) r
  raised w v c h e (at_min x current) s = s
  raised w v c h e (at_max x current) s = higher _ v c current h e s
  raised w v c h e _ s = s

  -- A move that writes nothing.
  looks :
      (w : PercentileWindow D) (p q : Pc)
      → Seen w q
      → ((i : ℤ) → claims i q ≤ claims i p)
      → Moved w p w q
  looks w p q s f = record { own = s; others = λ r k. k; fewer = f; count = refl }

  pub Move-Moved :
      (w : PercentileWindow D) (p : Pc) (w' : PercentileWindow D) (q : Pc)
      → Seen w p
      → Move w p w' q
      → Moved w p w' q
  Move-Moved w p w' q s (stores h) = record {
    own = tt;
    others = same_bounds w w' refl refl;
    fewer = λ i. omega arith;
    count = refl;
  }
  Move-Moved w p w' q s (skips h) = looks w p q tt (λ i. omega arith)
  Move-Moved w p w' q s load_min = looks w p q (le_refl w.min_rtt_ns) (λ i. omega arith)
  Move-Moved w p w' q s (keep_min h) = looks w p q tt (λ i. omega arith)
  Move-Moved w p w' q s (lower_min {e} {current} h m) = record {
    own = tt;
    others = lowered w e.rtt_ns current h m;
    fewer = λ i. omega arith;
    count = refl;
  }
  Move-Moved w p w' q s (lose_min h) = looks w p q (le_refl w.min_rtt_ns) (λ i. omega arith)
  Move-Moved w p w' q s load_max = looks w p q (le_refl w.max_inflight) (λ i. omega arith)
  Move-Moved w p w' q s (keep_max h) = looks w p q tt (λ i. omega arith)
  Move-Moved w p w' q s (raise_max {e} {current} h m) = record {
    own = tt;
    others = raised w e.inflight current h m;
    fewer = λ i. omega arith;
    count = refl;
  }
  Move-Moved w p w' q s (lose_max h) = looks w p q (le_refl w.max_inflight) (λ i. omega arith)
  Move-Moved w p w' q s (mark h) = record {
    own = tt;
    others = same_bounds w w' refl refl;
    fewer = λ i. omega arith;
    count = refl;
  }
  Move-Moved w p w' q s (pass h) = looks w p q tt (λ i. omega arith)
