-- ===== src/Text/Laws.antt =====
-- Equality of texts, and `strings.TrimSpace`.
use clusterrebootd.Prelude.{ℕ, ◌≡◌, refl, ◌↔◌, true, false, [], ◌∷◌, arith}
use clusterrebootd.Text.{Text, text_eq, is_space, trim_space, is_blank}

pub text_eq_iff : (s t : Text) → (text_eq s t ≡ true) ↔ (s ≡ t)
unfolding text_eq
text_eq_iff [] [] = ground arith
text_eq_iff [] (y ∷ t) = ground arith
text_eq_iff (x ∷ s) [] = ground arith
text_eq_iff (x ∷ s) (y ∷ t) = ground (arith, text_eq_iff s t)

pub text_eq_refl : (s : Text) → text_eq s s ≡ true
text_eq_refl s = (text_eq_iff s s).1 refl

-- A text that begins with another character than a space is not blank.
pub is_blank-cons : (c : ℕ) (s : Text) → is_space c ≡ false → is_blank (c ∷ s) ≡ false
unfolding trim_space
is_blank-cons c s h = ground arith

pub text_eq_sym : (s t : Text) → text_eq s t ≡ text_eq t s
unfolding text_eq
text_eq_sym [] [] = refl
text_eq_sym [] (y ∷ t) = refl
text_eq_sym (x ∷ s) [] = refl
text_eq_sym (x ∷ s) (y ∷ t) = ground (arith, text_eq_sym s t)
