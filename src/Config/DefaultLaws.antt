-- ===== src/Config/DefaultLaws.antt =====
-- What holds of a configuration with its defaults (pkg/config/config.go).
use clusterrebootd.Prelude.{
  ℕ, zero, suc, ◌≡◌, refl, false, List, [], ◌∷◌, ◌++◌, arith, Bool-cases, inl, inr, ℤ, pos, negsuc,
  All,
}
use clusterrebootd.Text.{Text, codes, is_blank, is_space, text_eq}
use clusterrebootd.Text.Laws.{is_blank-cons}
use clusterrebootd.Config.Types.{DetectorConfig, Config}
use clusterrebootd.Config.Defaults.{
  decimal, named_file, named_command, default_name, key_or, default_key, default_detector,
  default_detectors, int_or, list_or, apply_defaults,
}

named_file_not_blank : (path : Text) (index : ℕ) → is_blank (named_file path index) ≡ false
unfolding named_file is_space
named_file_not_blank [] index = is_blank-cons b'f' _ refl
named_file_not_blank (c ∷ path) index = is_blank-cons b'f' _ refl

named_command_not_blank : (cmd : List Text) (index : ℕ) → is_blank (named_command cmd index) ≡ false
unfolding named_command is_space
named_command_not_blank [] index = is_blank-cons b'c' _ refl
named_command_not_blank (word ∷ words) index = is_blank-cons b'c' _ refl

other_not_blank : (index : ℕ) → is_blank (codes "detector-" ++ decimal index) ≡ false
unfolding is_space
other_not_blank index = is_blank-cons b'd' _ refl

default_name_not_blank : (d : DetectorConfig) (index : ℕ) → is_blank (default_name d index) ≡ false
unfolding default_name
default_name_not_blank d index = elim (Bool-cases (text_eq d.kind (codes "file"))) [
  | inl file_ ↦ rw file_ (named_file_not_blank d.path index)
  | inr other_ ↦ elim (Bool-cases (text_eq d.kind (codes "command"))) [
    | inl command_ ↦ rw other_ (rw command_ (named_command_not_blank d.cmd index))
    | inr neither_ ↦ rw other_ (rw neither_ (other_not_blank index))
  ]
]

default_detector_not_blank :
    (index : ℕ) (d : DetectorConfig) → is_blank (default_detector index d).name ≡ false
unfolding default_detector
default_detector_not_blank index d = ground (arith, default_name_not_blank d index)

not_blank_kept :
    (index : ℕ) (d : DetectorConfig) → is_blank d.name ≡ false → default_detector index d ≡ d
unfolding default_detector
not_blank_kept index d h = rw h refl

pub default_detectors_not_blank :
    (index : ℕ) (ds : List DetectorConfig)
    → All (λ d. is_blank d.name ≡ false) (default_detectors index ds)
unfolding default_detectors
default_detectors_not_blank index [] = tt
default_detectors_not_blank index (d ∷ ds) =
    (default_detector_not_blank index d, default_detectors_not_blank (suc index) ds)

kept_lem :
    (index : ℕ) (ds : List DetectorConfig)
    → All (λ d. is_blank d.name ≡ false) ds
    → default_detectors index ds ≡ ds
unfolding default_detectors
kept_lem index [] h = refl
kept_lem index (d ∷ ds) h = rw (not_blank_kept index d h.0) (rw (kept_lem (suc index) ds h.1) refl)

int_or_idem : (i : ℤ) (n : ℕ) → int_or (int_or i n) n ≡ int_or i n
unfolding int_or
int_or_idem (pos zero) n = ground arith
int_or_idem (pos (suc m)) n = ground arith
int_or_idem (negsuc m) n = ground arith

list_or_idem : {A : Type 0} (xs ys : List A) → list_or (list_or xs ys) ys ≡ list_or xs ys
unfolding list_or
list_or_idem [] [] = refl
list_or_idem [] (y ∷ ys) = refl
list_or_idem (x ∷ xs) ys = refl

key_or_idem :
    (key default : Text)
    → is_blank default ≡ false
    → key_or (key_or key default) default ≡ key_or key default
unfolding key_or
key_or_idem key default h = ground (arith, h)

default_key_not_blank : is_blank default_key ≡ false
unfolding is_space
default_key_not_blank = is_blank-cons b'/' _ refl

-- Applying the defaults a second time changes nothing.
pub apply_defaults_idem : (c : Config) → apply_defaults (apply_defaults c) ≡ apply_defaults c
unfolding apply_defaults
apply_defaults_idem c = simp (
  int_or_idem,
  list_or_idem,
  key_or_idem c.lock_key default_key default_key_not_blank,
  kept_lem 0 (default_detectors 0 c.detectors) (default_detectors_not_blank 0 c.detectors),
)
