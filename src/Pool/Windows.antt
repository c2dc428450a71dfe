-- ===== src/Pool/Windows.antt =====
-- The cooldown arithmetic of grok2api/pool/account_pool.py: the free-usage window and the adaptive
-- cooldown.
use grokcli_2api.Base.{
  ℕ, zero, suc, ◌+◌, ◌-◌, ◌*◌, ◌/◌, ◌^◌, ◌≤◌, ◌<◌, ◌≡◌, refl, ap, ◌∙◌, Bool, true, Option, none,
  some, max, min, arith, leb, ==_iff, get_or, ◌==◌, Bool-cases, inl, inr,
}
use native.Mathlib.Nat.{
  pow-suc, zero-add, suc-add, le_refl, le_trans, le-div_iff_mul-le, div-mul-le_self,
}
use grokcli_2api.Pool.Cooldown.{
  CooldownPolicy, free_usage_base, free_usage_max, free_usage_cooldown_ttl, jitter, grown,
  cooldown_base, cooldown_seconds, hinted, compute_cooldown_seconds,
}

-- Half as much again, `k` times.
abbrev growth : ℕ → ℕ → ℕ
growth base k = base * 3 ^ k / 2 ^ k

pow_pos : (k : ℕ) → 0 < 2 ^ k
pow_pos zero = omega arith
pow_pos (suc k) = rw pow-suc (omega (arith, pow_pos k))

tripled : (x b p q : ℕ) → x * q ≤ b * p → x * (q * 2) ≤ b * (p * 3)
tripled x b p q h = omega arith

growth_step : (base k : ℕ) → growth base k ≤ growth base (suc k)
growth_step base k =
    rw (pow-suc 3 k, pow-suc 2 k)
      ((le-div_iff_mul-le (omega (arith, pow_pos k))).1
        (tripled (growth base k) base (3 ^ k) (2 ^ k) (div-mul-le_self (base * 3 ^ k) (2 ^ k))))

growth_mono : (base k d : ℕ) → growth base k ≤ growth base (d + k)
growth_mono base k zero = rw zero-add (le_refl (growth base k))
growth_mono base k (suc d) = rw suc-add (le_trans (growth_mono base k d) (growth_step base (d + k)))

growth_le : (base j k : ℕ) → j ≤ k → growth base j ≤ growth base k
growth_le base j k h = let e : k - j + j ≡ k = omega arith in rw e at (growth_mono base j (k - j))

growth_ge : (base k : ℕ) → base ≤ growth base k
growth_ge base k = le_trans (omega arith) (growth_le base 0 k (omega arith))

-- A free-usage window lies between a quarter of an hour and an hour, and does not shrink as the hits
-- stack up.
pub free_usage_window :
    (n more : ℕ)
    → (free_usage_base ≤ free_usage_cooldown_ttl n)
      × (free_usage_cooldown_ttl n ≤ free_usage_max)
      × (free_usage_cooldown_ttl n ≤ free_usage_cooldown_ttl (n + more))
unfolding free_usage_cooldown_ttl
free_usage_window n more = (
  omega (arith, growth_ge free_usage_base (max 1 n - 1)),
  omega arith,
  omega (arith, growth_le free_usage_base (max 1 n - 1) (max 1 (n + more) - 1) (omega arith)),
)

-- The growth on consecutive failures: never below the base, at most four times it, and never less for
-- a longer streak.
grown_bounds : (streak base : ℕ) → (base ≤ grown streak base) × (grown streak base ≤ 4 * base)
unfolding grown
grown_bounds streak base = elim (Bool-cases (leb 2 streak)) [
  | inl long ↦ rw long (omega (arith, growth_ge base (min (streak - 1) 6)), omega arith)
  | inr short ↦ rw short (le_refl base, omega arith)
]

-- The jitter stays within 15 % of its argument to either side.
jitter_bounds :
    (draw s : ℕ)
    → draw ≤ 2 * (s * 15 / 100)
    → (s * 85 ≤ jitter draw s * 100) × (jitter draw s * 100 ≤ s * 115)
unfolding jitter
jitter_bounds draw s h = elim (Bool-cases (s == 0)) [
  | inl z ↦ let e : s ≡ 0 = (==_iff s 0).0 z in rw z (omega arith, omega arith)
  | inr p ↦ rw p (omega arith, omega arith)
]

hinted_bounds :
    (pol : CooldownPolicy) (base : ℕ) (retry : Option ℕ)
    → (base ≤ hinted pol base retry) × (min (get_or retry 0) pol.ceiling ≤ hinted pol base retry)
unfolding hinted
hinted_bounds pol base none = (omega arith, omega arith)
hinted_bounds pol base (some r) = (omega arith, omega arith)

seconds_bounds :
    (pol : CooldownPolicy) (code : Option ℕ) (streak : ℕ) (retry : Option ℕ) (soft : Bool)
    → (min pol.ceiling (cooldown_base pol code soft) ≤ cooldown_seconds pol code streak retry soft)
      × (min (get_or retry 0) pol.ceiling ≤ cooldown_seconds pol code streak retry soft)
      × (cooldown_seconds pol code streak retry soft ≤ pol.ceiling)
unfolding cooldown_seconds
seconds_bounds pol code streak retry soft =
    omega (arith, hinted_bounds pol base retry, grown_bounds streak (hinted pol base retry))
  where
    base : ℕ
    base = cooldown_base pol code soft

grown_le : (streak more base : ℕ) → grown streak base ≤ grown (streak + more) base
unfolding grown
grown_le streak more base = elim (Bool-cases (leb 2 streak)) [
  | inl long ↦
      let further : leb 2 (streak + more) ≡ true = ground (arith, long) in
      rw (long, further)
        (omega
          (arith, growth_le base (min (streak - 1) 6) (min (streak + more - 1) 6) (omega arith)))
  | inr short ↦ rw short (omega (arith, grown_bounds (streak + more) base))
]

hinted_lem :
    (pol : CooldownPolicy) (base : ℕ) (retry : Option ℕ)
    → hinted pol base retry ≡ max base (min (get_or retry 0) pol.ceiling)
unfolding hinted
hinted_lem pol base none = omega arith
hinted_lem pol base (some r) = refl

-- Four times, from five failures on.
grown_four : (more base : ℕ) → grown (5 + more) base ≡ 4 * base
unfolding grown
grown_four more base =
    let long : leb 2 (5 + more) ≡ true = ground arith in
    rw long (omega (arith, growth_le base 4 (min (5 + more - 1) 6) (omega arith)))

full_jitter : (s : ℕ) → jitter (2 * (s * 15 / 100)) s ≡ s + s * 15 / 100
unfolding jitter
full_jitter s = elim (Bool-cases (s == 0)) [
  | inl z ↦ let e : s ≡ 0 = (==_iff s 0).0 z in rw z (omega arith)
  | inr p ↦ rw p (omega arith)
]

seconds_le :
    (pol : CooldownPolicy) (code : Option ℕ) (streak more : ℕ) (retry : Option ℕ) (soft : Bool)
    → cooldown_seconds pol code streak retry soft
      ≤ cooldown_seconds pol code (streak + more) retry soft
unfolding cooldown_seconds
seconds_le pol code streak more retry soft =
    omega (arith, grown_le streak more (hinted pol (cooldown_base pol code soft) retry))

seconds_four :
    (pol : CooldownPolicy) (code : Option ℕ) (more : ℕ) (retry : Option ℕ) (soft : Bool)
    → cooldown_seconds pol code (5 + more) retry soft
      ≡ min pol.ceiling (4 * max (cooldown_base pol code soft) (min (get_or retry 0) pol.ceiling))
unfolding cooldown_seconds
seconds_four pol code more retry soft =
    let base = cooldown_base pol code soft in
    ap (min pol.ceiling)
      (grown_four more (hinted pol base retry) ∙ ap (λ b. 4 * b) (hinted_lem pol base retry))

-- With a draw within the jitter's span the adaptive cooldown is at most the ceiling and 15 %, and at
-- least 85 % of the base of the status code and of the hint from upstream, each cut to the ceiling.
-- Before the jitter more failures never shorten it, and from five failures on it is four times the
-- larger of base and cut hint, cut to the ceiling. The jitter comes after the cut: its largest draw
-- adds 15 %, also to a cooldown that stands at the ceiling.
pub cooldown_bounds :
    (pol : CooldownPolicy) (code : Option ℕ) (streak more : ℕ) (retry : Option ℕ) (soft : Bool)
    (draw : ℕ)
    → draw ≤ 2 * (cooldown_seconds pol code streak retry soft * 15 / 100)
    → (compute_cooldown_seconds pol code streak retry soft draw * 100 ≤ pol.ceiling * 115)
      × (min pol.ceiling (cooldown_base pol code soft) * 85
          ≤ compute_cooldown_seconds pol code streak retry soft draw * 100)
      × (min (get_or retry 0) pol.ceiling * 85
          ≤ compute_cooldown_seconds pol code streak retry soft draw * 100)
      × (cooldown_seconds pol code streak retry soft
          ≤ cooldown_seconds pol code (streak + more) retry soft)
      × (cooldown_seconds pol code (5 + more) retry soft
          ≡ min pol.ceiling
              (4 * max (cooldown_base pol code soft) (min (get_or retry 0) pol.ceiling)))
      × (compute_cooldown_seconds pol code streak retry soft
            (2 * (cooldown_seconds pol code streak retry soft * 15 / 100))
          ≡ cooldown_seconds pol code streak retry soft
            + cooldown_seconds pol code streak retry soft * 15 / 100)
unfolding compute_cooldown_seconds
cooldown_bounds pol code streak more retry soft draw h =
    let sides = seconds_bounds pol code streak retry soft in
    let spread = jitter_bounds draw (cooldown_seconds pol code streak retry soft) h in
    (
      omega (arith, sides, spread),
      omega (arith, sides, spread),
      omega (arith, sides, spread),
      seconds_le pol code streak more retry soft,
      seconds_four pol code more retry soft,
      full_jitter (cooldown_seconds pol code streak retry soft),
    )
