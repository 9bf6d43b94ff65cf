-- ===== src/Orchestrator/BackoffLaws.antt =====
-- The delays between attempts stay in their window, wrap-around included, and double meanwhile.
use clusterrebootd.Prelude.{
  ℕ, zero, suc, ◌+◌, ◌-◌, ◌*◌, ◌^◌, ◌≤◌, ◌<◌, ◌≡◌, ap, arith, ltb, if◌then◌else◌,
}
use native.Mathlib.Nat.{pow-suc, mul_assoc, mul_comm}
use clusterrebootd.Orchestrator.Backoff.{
  multiplier, backoff_base, next_backoff_delay, next_error_backoff, next_error_delay,
}

-- `rand.Int63n(n)` lies below `n`.
abbrev pub IsRandom : (ℕ → ℕ) → Type 0
IsRandom random = (n : ℕ) → 0 < n → random n < n

backoff_base_bounds :
    (attempt min max : ℕ)
    → 0 < min
    → min ≤ max
    → (min ≤ backoff_base attempt min max) × (backoff_base attempt min max ≤ max)
unfolding backoff_base
backoff_base_bounds attempt min max h k = ground arith

jitter_bounds :
    (random : ℕ → ℕ) (low base : ℕ)
    → IsRandom random
    → low ≤ base
    → low + random (base - low + 1) ≤ base
jitter_bounds random low base r h = omega (arith, r (base - low + 1) (omega arith))

-- Whatever the attempt, also where the shift or the product has wrapped around, the delay lies
-- between the two bounds.
pub next_backoff_delay_bounds :
    (random : ℕ → ℕ) (attempt min max : ℕ)
    → IsRandom random
    → 0 < min
    → min ≤ max
    → (min ≤ next_backoff_delay random attempt min max)
      × (next_backoff_delay random attempt min max ≤ max)
unfolding next_backoff_delay
next_backoff_delay_bounds random attempt min max r h k = ground (
  arith,
  backoff_base_bounds attempt min max h k,
  jitter_bounds random min (backoff_base attempt min max) r,
)

pow_pos : (n : ℕ) → 0 < 2 ^ n
pow_pos zero = omega arith
pow_pos (suc n) = omega (arith, pow-suc 2 n, pow_pos n)

le-mul_right : (a b : ℕ) → 0 < a → b ≤ a * b
le-mul_right zero b h = elim h [ ]
le-mul_right (suc a) b h = grind arith

multiplier_lem : (attempt : ℕ) → 2 ^ attempt < 2 ^ 63 → multiplier attempt ≡ 2 ^ attempt
unfolding multiplier
multiplier_lem attempt h = ground (arith, pow_pos attempt)

-- Up to `cap`, and `cap` beyond it.
abbrev pub capped : ℕ → ℕ → ℕ
capped cap n = if ltb cap n then cap else n

base_doubles :
    (attempt min max : ℕ)
    → 0 < min
    → min ≤ max
    → min * 2 ^ attempt < 2 ^ 63
    → backoff_base attempt min max ≡ capped max (min * 2 ^ attempt)
unfolding backoff_base
base_doubles attempt min max h k fits =
    rw (multiplier_lem attempt (omega (arith, le-mul_right min (2 ^ attempt) h)))
      (ground (arith, le-mul_right (2 ^ attempt) min (pow_pos attempt), mul_comm min (2 ^ attempt)))

-- As long as the doubled minimum fits in 64 bits, the base of the delay is the minimum doubled once
-- for each earlier attempt, up to the maximum, and no delay is longer than that.
pub next_backoff_delay_doubles :
    (random : ℕ → ℕ) (attempt min max : ℕ)
    → IsRandom random
    → 0 < min
    → min ≤ max
    → min * 2 ^ attempt < 2 ^ 63
    → (backoff_base attempt min max ≡ capped max (min * 2 ^ attempt))
      × (next_backoff_delay random attempt min max ≤ capped max (min * 2 ^ attempt))
unfolding next_backoff_delay
next_backoff_delay_doubles random attempt min max r h k fits =
    let base : backoff_base attempt min max ≡ capped max (min * 2 ^ attempt) =
      base_doubles attempt min max h k fits in
    (
      base,
      ground (
        arith,
        base,
        backoff_base_bounds attempt min max h k,
        jitter_bounds random min (backoff_base attempt min max) r,
      ),
    )

-- `errorBackoff` after so many errors in a row.
abbrev pub after_errors : ℕ → ℕ → ℕ → ℕ
after_errors zero min max = 0
after_errors (suc n) min max = next_error_backoff (after_errors n min max) min max

next_error_backoff_first : (min max : ℕ) → 0 < min → min ≤ max → next_error_backoff 0 min max ≡ min
unfolding next_error_backoff
next_error_backoff_first min max h k = ground arith

next_error_backoff_doubles :
    (n min max : ℕ)
    → 0 < min
    → min ≤ max
    → max < 2 ^ 62
    → min ≤ n
    → next_error_backoff (capped max n) min max ≡ capped max (n * 2)
unfolding next_error_backoff
next_error_backoff_doubles n min max h k fits m = ground arith

-- After the first of a run of errors the backoff is the minimum, and each further error doubles it,
-- up to the maximum.
pub after_errors_lem :
    (n min max : ℕ)
    → 0 < min
    → min ≤ max
    → max < 2 ^ 62
    → after_errors (suc n) min max ≡ capped max (min * 2 ^ n)
after_errors_lem zero min max h k fits = ground (arith, next_error_backoff_first min max h k)
after_errors_lem (suc n) min max h k fits = rw (after_errors_lem n min max h k fits) (
    rw
      (next_error_backoff_doubles (min * 2 ^ n) min max h k fits
        (omega (arith, le-mul_right (2 ^ n) min (pow_pos n), mul_comm min (2 ^ n))))
      (ap (capped max) (rw (pow-suc 2 n) (mul_assoc min (2 ^ n) 2))))

-- A delay after an error lies between the minimum and the current backoff, which is at most the
-- maximum.
pub next_error_delay_bounds :
    (random : ℕ → ℕ) (backoff min max : ℕ)
    → IsRandom random
    → 0 < min
    → min ≤ max
    → let next = next_error_backoff backoff min max in
      (min ≤ next_error_delay random next min)
      × (next_error_delay random next min ≤ next)
      × (next ≤ max)
unfolding next_error_delay next_error_backoff
next_error_delay_bounds random backoff min max r h k =
    ground (arith, jitter_bounds random min (next_error_backoff backoff min max) r)
