-- ===== src/Orchestrator/Backoff.antt =====
-- `nextBackoffDelay` of pkg/orchestrator/runner.go and the error backoff of
-- pkg/orchestrator/loop.go, on 64-bit signed durations.
use clusterrebootd.Prelude.{
  ℕ, ◌+◌, ◌-◌, ◌*◌, ◌^◌, ltb, leb, ◌==◌, if◌then◌else◌, pos, pos_part, ltb_ℤ, leb_ℤ, to_int64,
}

-- `time.Duration(1 << attempt)`, and 1 where the shift has left the positive numbers.
unfoldable pub multiplier : ℕ → ℕ
multiplier attempt = let m = to_int64 (2 ^ attempt) in if leb_ℤ m (pos 0) then 1 else pos_part m

-- `base` within `min` and `max`; the product may have wrapped.
unfoldable pub backoff_base : ℕ → ℕ → ℕ → ℕ
backoff_base attempt min max =
    let base = to_int64 (min * multiplier attempt) in
    let raised = if ltb_ℤ base (pos min) then min else pos_part base in
    if ltb max raised then max else raised

-- The delay before the next attempt, for `0 < min ≤ max`; `random n` is `Int63n(n)`.
unfoldable pub next_backoff_delay : (ℕ → ℕ) → ℕ → ℕ → ℕ → ℕ
next_backoff_delay random attempt min max =
    let base = backoff_base attempt min max in
    if leb base min then min else min + random (base - min + 1)

-- `errorBackoff` after a further error; 0 means that there was none since the last success.
unfoldable pub next_error_backoff : ℕ → ℕ → ℕ → ℕ
next_error_backoff backoff min max =
    let doubled = to_int64 (backoff * 2) in
    let raised =
      if backoff == 0 then min else if ltb_ℤ doubled (pos min) then min else pos_part doubled in
    if ltb max raised then max else raised

-- The delay that `nextErrorDelay` returns at that backoff.
unfoldable pub next_error_delay : (ℕ → ℕ) → ℕ → ℕ → ℕ
next_error_delay random backoff min =
    if leb backoff min then backoff else min + random (backoff - min + 1)
