-- ===== src/Detector/ProbeLaws.antt =====
-- When a detector asks for a reboot, and when it fails (pkg/detector/detector.go).
use clusterrebootd.Prelude.{
  ◌≡◌, ◌≢◌, refl, subst, ◌↔◌, ◌⊎◌, true, false, Option, none, some, List, [], ◌∷◌, arith, any, ℤ,
  pos, negsuc,
}
use clusterrebootd.Text.{Text, is_blank}
use clusterrebootd.Orchestrator.Failure.{Failure}
use clusterrebootd.Orchestrator.Types.{DetectorResult}
use clusterrebootd.Detector.Probe.{
  Detector, file, command, CommandDetector, Host, Stat, Ran, eq_ℤ, asks_reboot, check_file, execute,
  evaluate_command, check,
}

abbrev pub Among : ℤ → List ℤ → Type 0
Among code [] = ⊥
Among code (c ∷ cs) = (code ≡ c) ⊎ Among code cs

-- The exit code is one of those that are listed, or not 0 where none is.
abbrev pub Asks : List ℤ → ℤ → Type 0
Asks [] code = code ≢ pos 0
Asks (c ∷ cs) code = Among code (c ∷ cs)

-- The command ended in time with this code.
abbrev pub EndedWith : Option Failure × Ran → ℤ → Type 0
EndedWith (none, Ran.success) code = code ≡ pos 0
EndedWith (none, Ran.exited c) code = code ≡ c
EndedWith (none, Ran.run_error e) code = ⊥
EndedWith (some e, ran) code = ⊥

-- The detector finds that a reboot is required: its file is there, or its command ends with a code
-- that says so.
abbrev pub Wants : Host → List DetectorResult → Detector → Type 0
Wants host history (file name path) =
    (host.check_error history ≡ none)
    × (is_blank path ≡ false)
    × (host.stat history path ≡ Stat.exists)
Wants host history (command d) =
    (code : ℤ) × EndedWith (host.run history d) code × Asks d.exit_codes code

-- The detector comes to a verdict: its file is there or is not, or its command ended in time.
abbrev pub Decides : Host → List DetectorResult → Detector → Type 0
Decides host history (file name path) =
    (host.check_error history ≡ none)
    × (is_blank path ≡ false)
    × ((host.stat history path ≡ Stat.exists) ⊎ (host.stat history path ≡ Stat.not_exist))
Decides host history (command d) = (code : ℤ) × EndedWith (host.run history d) code

eq_ℤ_iff : (a b : ℤ) → (eq_ℤ a b ≡ true) ↔ (a ≡ b)
eq_ℤ_iff (pos n) (pos m) = ground arith
eq_ℤ_iff (pos n) (negsuc m) = ground arith
eq_ℤ_iff (negsuc n) (pos m) = ground arith
eq_ℤ_iff (negsuc n) (negsuc m) = ground arith

any-Among : (code : ℤ) (cs : List ℤ) → (any (eq_ℤ code) cs ≡ true) ↔ Among code cs
any-Among code [] = ground arith
any-Among code (c ∷ cs) = ground (arith, eq_ℤ_iff code c, any-Among code cs)

asks_reboot-Asks : (cs : List ℤ) (code : ℤ) → (asks_reboot cs code ≡ true) ↔ Asks cs code
unfolding asks_reboot
asks_reboot-Asks [] code = ground (arith, eq_ℤ_iff code (pos 0))
asks_reboot-Asks (c ∷ cs) code = any-Among code (c ∷ cs)

exit-Asks :
    (cs : List ℤ) (c : ℤ) → (asks_reboot cs c ≡ true) ↔ ((code : ℤ) × (code ≡ c) × Asks cs code)
exit-Asks cs c = (
  (λ h. (c, refl, (asks_reboot-Asks cs c).0 h)),
  λ w. (asks_reboot-Asks cs c).1 (subst (Asks cs) w.1 w.2),
)

command-Wants :
    (host : Host) (history : List DetectorResult) (d : CommandDetector)
    (answer : Option Failure × Ran)
    → host.run history d ≡ answer
    → ((evaluate_command host history d).0 ≡ true)
      ↔ ((code : ℤ) × EndedWith answer code × Asks d.exit_codes code)
unfolding evaluate_command execute
command-Wants host history d (some e, ran) h = rw h (ground arith)
command-Wants host history d (none, Ran.success) h = rw h (exit-Asks d.exit_codes (pos 0))
command-Wants host history d (none, Ran.exited c) h = rw h (exit-Asks d.exit_codes c)
command-Wants host history d (none, Ran.run_error e) h = rw h (ground arith)

file-Wants :
    (host : Host) (history : List DetectorResult) (path : Text) (ended : Option Failure)
    (found : Stat)
    → host.check_error history ≡ ended
    → host.stat history path ≡ found
    → ((check_file host history path).0 ≡ true)
      ↔ ((ended ≡ none) × (is_blank path ≡ false) × (found ≡ Stat.exists))
unfolding check_file
file-Wants host history path (some e) found h k = rw h (ground arith)
file-Wants host history path none Stat.exists h k = rw (h, k) (ground arith)
file-Wants host history path none Stat.not_exist h k = rw (h, k) (ground arith)
file-Wants host history path none (Stat.stat_error e) h k = rw (h, k) (ground arith)

pub check-Wants :
    (host : Host) (history : List DetectorResult) (d : Detector)
    → ((check host history d).0 ≡ true) ↔ Wants host history d
unfolding check
check-Wants host history (file name path) =
    file-Wants host history path (host.check_error history) (host.stat history path) refl refl
check-Wants host history (command d) = command-Wants host history d (host.run history d) refl

command-Decides :
    (host : Host) (history : List DetectorResult) (d : CommandDetector)
    (answer : Option Failure × Ran)
    → host.run history d ≡ answer
    → ((evaluate_command host history d).1 ≡ none) ↔ ((code : ℤ) × EndedWith answer code)
unfolding evaluate_command execute
command-Decides host history d (some e, ran) h = rw h (ground arith)
command-Decides host history d (none, Ran.success) h = rw h ((λ _. (pos 0, refl)), λ _. refl)
command-Decides host history d (none, Ran.exited c) h = rw h ((λ _. (c, refl)), λ _. refl)
command-Decides host history d (none, Ran.run_error e) h = rw h (ground arith)

file-Decides :
    (host : Host) (history : List DetectorResult) (path : Text) (ended : Option Failure)
    (found : Stat)
    → host.check_error history ≡ ended
    → host.stat history path ≡ found
    → ((check_file host history path).1 ≡ none) ↔ (
        (ended ≡ none)
        × (is_blank path ≡ false)
        × ((found ≡ Stat.exists) ⊎ (found ≡ Stat.not_exist)))
unfolding check_file
file-Decides host history path (some e) found h k = rw h (ground arith)
file-Decides host history path none Stat.exists h k = rw (h, k) (ground arith)
file-Decides host history path none Stat.not_exist h k = rw (h, k) (ground arith)
file-Decides host history path none (Stat.stat_error e) h k = rw (h, k) (ground arith)

pub check-Decides :
    (host : Host) (history : List DetectorResult) (d : Detector)
    → ((check host history d).1 ≡ none) ↔ Decides host history d
unfolding check
check-Decides host history (file name path) =
    file-Decides host history path (host.check_error history) (host.stat history path) refl refl
check-Decides host history (command d) = command-Decides host history d (host.run history d) refl
