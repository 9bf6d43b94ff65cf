-- ===== src/Daemon/History.antt =====
-- Processes of several nodes beside each other (cmd/clusterrebootd/main.go): what they do, in the order
-- in which it happens.
use clusterrebootd.Prelude.{
  ℕ, ◌≡◌, ◌≢◌, Bool, true, false, Option, none, some, List, [], ◌∷◌, ◌++◌, not, ◌&&◌, ◌||◌,
  if◌then◌else◌, ◌==◌,
}
use clusterrebootd.Orchestrator.Types.{Call, Trace, Environment}
use clusterrebootd.Daemon.Setup.{World}
use clusterrebootd.Daemon.Commands.{RunFlags, StatusFlags, Prepared}
use clusterrebootd.Daemon.Programs.{command_run, command_status}

-- What happens in a cluster: a process makes a call, or its lease ends. Each run of a command is a
-- process of its own.
pub data ClusterEvent : Type 0 where
  made : ℕ → Call → ClusterEvent
  lapsed : ℕ → ClusterEvent

-- In the order in which they happened, the last one first.
abbrev pub History : Type 0
History = List ClusterEvent

-- The calls of one process.
abbrev pub calls_of : ℕ → History → Trace
calls_of i [] = []
calls_of i (made j c ∷ h) = let rest = calls_of i h in if j == i then c ∷ rest else rest
calls_of i (lapsed j ∷ h) = calls_of i h

abbrev pub is_gone : ℕ → History → Bool
is_gone i [] = false
is_gone i (made j c ∷ h) = is_gone i h
is_gone i (lapsed j ∷ h) = j == i || is_gone i h

abbrev pub acquires : Call → Bool
acquires (Call.lock_tried none) = true
acquires _ = false

abbrev pub releases : Call → Bool
releases (Call.released _) = true
releases _ = false

-- The process has acquired the lock, has not called its release since, and its lease has not ended.
abbrev pub holds : ℕ → History → Bool
holds i [] = false
holds i (made j c ∷ h) =
    let before = holds i h in if j == i then acquires c || (before && not (releases c)) else before
holds i (lapsed j ∷ h) = let before = holds i h in before && not (j == i)

-- What is relied on: the lock is given to a process only while no other holds it, and a process whose
-- lease has ended makes no more calls.
abbrev pub Exclusive : History → Type 0
Exclusive [] = Unit
Exclusive (made i c ∷ h) =
    (is_gone i h ≡ false) × (acquires c ≡ true → (j : ℕ) → j ≢ i → holds j h ≡ false) × Exclusive h
Exclusive (lapsed i ∷ h) = Exclusive h

-- The command of a process, with its flags.
pub data NodeCommand : Type 0 where
  running : Option RunFlags → NodeCommand
  looking : StatusFlags → NodeCommand

-- A process, by what lies outside of it and its command.
pub record Node : Type 0 where
  pub world : World
  pub connect : Prepared → Environment
  pub command : NodeCommand

abbrev pub trace_of : World → (Prepared → Environment) → NodeCommand → ℕ → Trace
trace_of w connect (running flags) fuel = (command_run w connect fuel flags).trace
trace_of w connect (looking flags) fuel = (command_status w connect (some flags)).trace

-- The calls of a process up to some moment.
abbrev pub IsRunOf : Node → Trace → Type 0
IsRunOf n t =
    (fuel : ℕ) × (later : Trace) × (trace_of n.world n.connect n.command fuel ≡ later ++ t)

abbrev pub runs_command : Call → Bool
runs_command (Call.executed _ _) = true
runs_command _ = false

-- Whenever a process runs a command, it holds the lock and no other does.
abbrev pub Alone : History → Type 0
Alone [] = Unit
Alone (made i c ∷ h) =
    (runs_command c ≡ true → (holds i h ≡ true) × ((j : ℕ) → j ≢ i → holds j h ≡ false)) × Alone h
Alone (lapsed i ∷ h) = Alone h
