-- ===== src/Blocking/Config.antt =====
-- The two Builders. Times are milliseconds.
use limen.Base.{
  true, false, if◌then◌else◌, ℤ, pos, leb_ℤ, ltb_ℤ, Option, none, some, String, ◌<ℤ◌, ◌≡◌, ◌≤ℤ◌,
  Bool, arith, ◌≢◌, ◌∙◌, false, ap, refl,
}

pub data BuildResult (A : Type 0) : Type 0 where
  built : A → BuildResult A
  delegate_required timeout_not_positive timeout_too_long : BuildResult A
  backlog_not_positive timeout_fn_null : BuildResult A

-- `kMaxTimeout`, one hour.
abbrev pub max_timeout : ℤ
max_timeout = pos 3600000

-- The members of `BlockingLimiter::Builder`.
pub record Fifo (L : Type 0) : Type 0 where
  pub delegate : Option L
  pub timeout : ℤ

module _ {L : Type 0} where
  unfoldable pub default_fifo : Fifo L
  default_fifo = record { delegate = none; timeout = max_timeout }

  unfoldable pub build_fifo : Fifo L → BuildResult (L × ℤ)
  build_fifo b = elim b.delegate [
    | none ↦ delegate_required
    | some delegate ↦
        if leb_ℤ b.timeout (pos 0)
        then timeout_not_positive
        else (if ltb_ℤ max_timeout b.timeout then timeout_too_long else built (delegate, b.timeout))
  ]

-- The checks of a fixed timeout.
unfoldable pub check_fixed : {A : Type 0} → Option ℤ → A → BuildResult A
check_fixed none a = built a
check_fixed (some timeout) a =
    if leb_ℤ timeout (pos 0)
    then timeout_not_positive
    else (if ltb_ℤ max_timeout timeout then timeout_too_long else built a)

-- The members of `LifoBlockingLimiter::Builder`. A timeout function may be null.
pub record Lifo (L : Type 0) : Type 0 where
  pub delegate : Option L
  pub backlog_size : ℤ
  pub timeout_fn : Option (String → ℤ)
  pub fixed_timeout : Option ℤ

module _ {L : Type 0} where
  unfoldable pub default_lifo : Lifo L
  default_lifo = record {
    delegate = none;
    backlog_size = pos 100;
    timeout_fn = some (λ context. pos 1000);
    fixed_timeout = some (pos 1000);
  }

  -- The two overloads of `BacklogTimeout`.
  unfoldable pub with_timeout : ℤ → Lifo L → Lifo L
  with_timeout timeout b = record b {
    timeout_fn = some (λ context. timeout);
    fixed_timeout = some timeout;
  }

  unfoldable pub with_timeout_fn : Option (String → ℤ) → Lifo L → Lifo L
  with_timeout_fn timeout_fn b = record b { timeout_fn = timeout_fn; fixed_timeout = none }

  unfoldable pub build_lifo : Lifo L → BuildResult (L × ℤ × (String → ℤ))
  build_lifo b = elim b.delegate [
    | none ↦ delegate_required
    | some delegate ↦
        if ltb_ℤ b.backlog_size (pos 1) then backlog_not_positive else elim b.timeout_fn [
          | none ↦ timeout_fn_null
          | some timeout_fn ↦ check_fixed b.fixed_timeout (delegate, b.backlog_size, timeout_fn)
        ]
  ]

-- A timeout that both Builders accept.
abbrev pub IsTimeout : ℤ → Type 0
IsTimeout timeout = (pos 0 <ℤ timeout) × (timeout ≤ℤ max_timeout)

-- A fixed timeout, if there is one.
abbrev pub IsFixed : Option ℤ → Type 0
IsFixed none = Unit
IsFixed (some timeout) = IsTimeout timeout

two_tests :
    {A : Type 0} (p q : Bool) (a c : A)
    → (if p then timeout_not_positive else (if q then timeout_too_long else built a)) ≡ built c
    → (p ≡ false) × (q ≡ false) × (a ≡ c)
two_tests true q a c e = cc
two_tests false true a c e = cc
two_tests false false a c e = (refl, refl, cc)

check_fixed-built :
    {A : Type 0} (o : Option ℤ) (a c : A) → check_fixed o a ≡ built c → (a ≡ c) × IsFixed o
unfolding check_fixed
check_fixed-built none a c e = (cc, tt)
check_fixed-built (some t) a c e =
    let (low, high, same) = two_tests (leb_ℤ t (pos 0)) (ltb_ℤ max_timeout t) a c e in
    (same, ground arith)

sized :
    {A : Type 0} (p : Bool) (r : BuildResult A) (c : A)
    → (if p then backlog_not_positive else r) ≡ built c
    → (p ≡ false) × (r ≡ built c)
sized true r c e = cc
sized false r c e = (refl, e)

-- A step whose value is required.
given :
    {A B : Type 0} (r : BuildResult B) (o : Option A) (f : A → BuildResult B) (b : B)
    → r ≢ built b
    → elim o [ none ↦ r | some a ↦ f a ] ≡ built b
    → (a : A) × (o ≡ some a) × (f a ≡ built b)
given r none f b n e = absurd (n e)
given r (some a) f b n e = (a, refl, e)

-- If the FIFO Builder returns a limiter, it has the delegate and the timeout that were set, and the
-- timeout is positive and at most an hour.
pub build_fifo-built :
    {L : Type 0} (b : Fifo L) (delegate : L) (timeout : ℤ)
    → build_fifo b ≡ built (delegate, timeout)
    → (b.delegate ≡ some delegate) × (b.timeout ≡ timeout) × IsTimeout timeout
unfolding build_fifo check_fixed
build_fifo-built b delegate timeout e =
    let (made, l, k) =
      given delegate_required b.delegate (λ x. check_fixed (some b.timeout) (x, b.timeout)) _
        (λ x. cc) e in
    let (same, range) =
      check_fixed-built (some b.timeout) (made, b.timeout) (delegate, timeout) k in
    (l ∙ ap some (ap (λ x. x.0) same), ap (λ x. x.1) same, rw (← ap (λ x. x.1) same) range)

-- If the LIFO Builder returns a limiter, it has the delegate, the backlog size and the timeout
-- function that were set, the size is positive, and a timeout that was set as a fixed one is positive
-- and at most an hour.
pub build_lifo-built :
    {L : Type 0} (b : Lifo L) (delegate : L) (backlog_size : ℤ) (timeout_fn : String → ℤ)
    → build_lifo b ≡ built (delegate, backlog_size, timeout_fn)
    → (b.delegate ≡ some delegate)
      × (b.backlog_size ≡ backlog_size)
      × (pos 1 ≤ℤ b.backlog_size)
      × (b.timeout_fn ≡ some timeout_fn)
      × IsFixed b.fixed_timeout
unfolding build_lifo
build_lifo-built b delegate backlog_size timeout_fn e =
    let (made, l, k) = given delegate_required b.delegate _ _ (λ x. cc) e in
    let (size, k2) = sized (ltb_ℤ b.backlog_size (pos 1)) _ _ k in
    let (fn, f, k3) = given timeout_fn_null b.timeout_fn _ _ (λ x. cc) k2 in
    let (same, range) = check_fixed-built b.fixed_timeout (made, b.backlog_size, fn) _ k3 in
    (
      l ∙ ap some (ap (λ x. x.0) same),
      ap (λ x. x.1) same,
      ground arith,
      f ∙ ap some (ap (λ x. x.2) same),
      range,
    )
