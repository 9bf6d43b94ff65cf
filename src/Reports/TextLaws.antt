-- ===== src/Reports/TextLaws.antt =====
-- The digits of a printed number (pkg/orchestrator/runner.go prints counts, exit codes and durations).
use clusterrebootd.Prelude.{
  ℕ, zero, suc, ◌+◌, ◌-◌, ◌*◌, ◌/◌, ◌%◌, ◌<◌, ◌≡◌, refl, [], ◌∷◌, ◌++◌, arith, ltb, ltb→lt, ◌≤◌,
  Bool-cases, inl, inr,
}
use clusterrebootd.Text.{Text}
use clusterrebootd.Reports.Texts.{digits_of, show_nat}

-- The number that digits after others stand for.
abbrev pub value_after : ℕ → Text → ℕ
value_after acc [] = acc
value_after acc (c ∷ cs) = value_after (10 * acc + (c - b'0')) cs

value_after-append :
    (acc : ℕ) (digits : Text) (c : ℕ)
    → value_after acc (digits ++ c ∷ []) ≡ 10 * value_after acc digits + (c - b'0')
value_after-append acc [] c = refl
value_after-append acc (d ∷ digits) c = value_after-append (10 * acc + (d - b'0')) digits c

-- With more fuel than the number, no digit is lost.
value_after-digits_of : (fuel n : ℕ) → n < fuel → value_after 0 (digits_of fuel n) ≡ n
unfolding digits_of
value_after-digits_of zero n h = omega (arith, h)
value_after-digits_of (suc fuel) n h = elim (Bool-cases (ltb n 10)) [
  | inl one ↦ rw one (let small : n < 10 = ltb→lt n 10 one in omega arith)
  | inr more ↦ rw more (
      let large : 10 ≤ n = ground (arith, more) in
      let last = value_after-append 0 (digits_of fuel (n / 10)) (n % 10 + b'0') in
      let rest = value_after-digits_of fuel (n / 10) (omega (arith, large, h)) in
      omega (arith, last, rest))
]

-- A number is printed with all its digits: they stand for it.
pub value_after-show_nat : (n : ℕ) → value_after 0 (show_nat n) ≡ n
value_after-show_nat n = value_after-digits_of (suc n) n (omega arith)
