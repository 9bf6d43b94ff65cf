-- ===== src/Daemon/Script.antt =====
-- pkg/health/script.go: the health script. What the process does is a parameter.
use clusterrebootd.Prelude.{
  Bool, false, Option, none, some, List, [], ◌∷◌, ◌++◌, map, if◌then◌else◌, is_nil, ◌==◌, pos,
  Result, ok, err,
}
use clusterrebootd.Text.{Text, codes, trim_space}
use clusterrebootd.Orchestrator.Failure.{
  Failure, Context, wrap, empty_script_path, relative_script_path, script_timed_out,
}
use clusterrebootd.Orchestrator.Types.{Nanos, HealthResult}
use clusterrebootd.Detector.Probe.{Ran, is_deadline}

-- The variables of an environment.
abbrev pub Variables : Type 0
Variables = List (Text × Text)

-- `ScriptRunner`
pub record ScriptRunner : Type 0 where
  pub path : Text
  pub timeout : Nanos
  pub env : Variables

-- `filepath.IsAbs` on Unix.
abbrev pub is_absolute : Text → Bool
is_absolute [] = false
is_absolute (c ∷ cs) = c == b'/'

-- `NewScriptRunner`
unfoldable pub new_script_runner : Text → Nanos → Variables → Result Failure ScriptRunner
new_script_runner path timeout base_env =
    let cleaned = trim_space path in
    if is_nil cleaned
    then err empty_script_path
    else if is_absolute cleaned
    then ok (record { path = cleaned; timeout = timeout; env = base_env })
    else err relative_script_path

-- `formatEnv`; the order of a map is the order of its entries here.
unfoldable pub format_env : Variables → List Text
format_env = map (λ v. v.0 ++ (codes "=" ++ v.1))

-- What the system does with a command: its environment, and the error of the context and the end of
-- the process.
pub record System : Type 0 where
  pub environ : List Text
  pub run : Text → List Text → Nanos → Option Failure × Ran

abbrev exit_result : Ran → HealthResult × Option Failure
exit_result Ran.success = (record { exit_code = pos 0 }, none)
exit_result (Ran.exited code) = (record { exit_code = code }, none)
exit_result (Ran.run_error e) =
    (record { exit_code = pos 0 }, some (wrap Context.run_health_script e))

abbrev script_result : Option Failure × Ran → HealthResult × Option Failure
script_result (some e, ran) =
    (record { exit_code = pos 0 }, some (if is_deadline e then script_timed_out else e))
script_result (none, ran) = exit_result ran

-- `Run`
unfoldable pub run_script : System → ScriptRunner → Variables → HealthResult × Option Failure
unfolding format_env
run_script system r extra =
    script_result
      (system.run r.path (system.environ ++ (format_env r.env ++ format_env extra)) r.timeout)
