-- ===== src/Detector/Probe.antt =====
-- pkg/detector/detector.go: the two kinds of detectors. What `os.Stat` and a command answer is a
-- parameter, and may depend on the results of the detectors before.
use clusterrebootd.Prelude.{
  Bool, true, false, not, ◌&&◌, Option, none, some, List, [], ◌∷◌, if◌then◌else◌, is_nil, any, ℤ,
  pos, leb_ℤ, ltb_ℤ, Result, ok, err, ◌>>=◌,
}
use clusterrebootd.Text.{Text, codes, is_blank, text_eq}
use clusterrebootd.Config.Types.{DetectorConfig}
use clusterrebootd.Config.Derived.{seconds_duration}
use clusterrebootd.Orchestrator.Failure.{
  Failure, Context, wrap, deadline_exceeded, empty_path, no_detector_command, command_timed_out,
  unsupported_type,
}
use clusterrebootd.Orchestrator.Types.{Nanos, DetectorResult}

-- `commandDetector`
pub record CommandDetector : Type 0 where
  pub name : Text
  pub command : List Text
  pub exit_codes : List ℤ
  pub timeout : Nanos

pub data Detector : Type 0 where
  file : Text → Text → Detector
  command : CommandDetector → Detector

unfoldable pub detector_name : Detector → Text
detector_name (file name path) = name
detector_name (command d) = d.name

-- `newCommandDetector`; no timeout is 0.
unfoldable pub new_command_detector : DetectorConfig → Result Failure Detector
new_command_detector c =
    if is_nil c.cmd
    then err no_detector_command
    else ok (
        command (record {
          name = c.name;
          command = c.cmd;
          exit_codes = c.success_exit_codes;
          timeout = if ltb_ℤ (pos 0) c.timeout_sec then seconds_duration c.timeout_sec else pos 0;
        }))

-- `NewFromConfig`
unfoldable pub new_from_config : DetectorConfig → Result Failure Detector
new_from_config c =
    if text_eq c.kind (codes "file")
    then ok (file c.name c.path)
    else if text_eq c.kind (codes "command")
    then new_command_detector c
    else err (unsupported_type c.kind)

-- `NewAll`
unfoldable pub new_all : List DetectorConfig → Result Failure (List Detector)
new_all [] = ok []
new_all (c ∷ cs) = new_from_config c >>= λ d. new_all cs >>= λ ds. ok (d ∷ ds)

-- What `os.Stat` answers.
pub data Stat : Type 0 where
  exists not_exist : Stat
  stat_error : Failure → Stat

-- How `cmd.Run` ends: without an error, with an `ExitError`, or with another error.
pub data Ran : Type 0 where
  success : Ran
  exited : ℤ → Ran
  run_error : Failure → Ran

-- The answers of the system. The history is the results of the detectors so far, the last one first.
pub record Host : Type 0 where
  -- `ctx.Err()`
  pub context_error : List DetectorResult → Option Failure
  -- the same, inside a file detector
  pub check_error : List DetectorResult → Option Failure
  pub stat : List DetectorResult → Text → Stat
  -- the error of the context of the command, with its timeout, and the end of the command
  pub run : List DetectorResult → CommandDetector → Option Failure × Ran

-- `errors.Is(err, context.DeadlineExceeded)` of the error of a context, which wraps nothing.
abbrev pub is_deadline : Failure → Bool
is_deadline deadline_exceeded = true
is_deadline _ = false

-- A verdict and an error.
abbrev pub Verdict : Type 0
Verdict = Bool × Option Failure

abbrev stat_verdict : Stat → Verdict
stat_verdict exists = (true, none)
stat_verdict not_exist = (false, none)
stat_verdict (stat_error e) = (false, some (wrap Context.stat_path e))

abbrev file_verdict : Host → List DetectorResult → Text → Option Failure → Verdict
file_verdict host history path (some e) = (false, some e)
file_verdict host history path none =
    if is_blank path then (false, some empty_path) else stat_verdict (host.stat history path)

-- `FileDetector.Check`
unfoldable pub check_file : Host → List DetectorResult → Text → Verdict
check_file host history path = file_verdict host history path (host.check_error history)

abbrev exit_of : Ran → Result Failure ℤ
exit_of success = ok (pos 0)
exit_of (exited code) = ok code
exit_of (run_error e) = err (wrap Context.run_detector_command e)

abbrev executed : Option Failure × Ran → Result Failure ℤ
executed (some e, ran) = err (if is_deadline e then command_timed_out else e)
executed (none, ran) = exit_of ran

-- `execute`: the exit code.
unfoldable pub execute : Host → List DetectorResult → CommandDetector → Result Failure ℤ
execute host history d = executed (host.run history d)

abbrev pub eq_ℤ : ℤ → ℤ → Bool
eq_ℤ a b = leb_ℤ a b && leb_ℤ b a

-- Whether an exit code asks for a reboot.
unfoldable pub asks_reboot : List ℤ → ℤ → Bool
asks_reboot codes code = if is_nil codes then not (eq_ℤ code (pos 0)) else any (eq_ℤ code) codes

abbrev code_verdict : List ℤ → Result Failure ℤ → Verdict
code_verdict codes (ok code) = (asks_reboot codes code, none)
code_verdict codes (err e) = (false, some e)

-- `EvaluateCommand`, and `Check` of a command
unfoldable pub evaluate_command : Host → List DetectorResult → CommandDetector → Verdict
evaluate_command host history d = code_verdict d.exit_codes (execute host history d)

unfoldable pub check : Host → List DetectorResult → Detector → Verdict
check host history (file name path) = check_file host history path
check host history (command d) = evaluate_command host history d
