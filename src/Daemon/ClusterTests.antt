-- ===== src/Daemon/ClusterTests.antt =====
-- Two nodes that reboot one after the other (cmd/clusterrebootd/main.go).
use mathlib.Core.List.{append-nil}
use clusterrebootd.Prelude.{ℕ, zero, suc, ◌∷◌, ◌++◌, ◌≢◌, sym, ◌∙◌, ==_iff}
use clusterrebootd.Orchestrator.Types.{Trace}
use clusterrebootd.Prelude.{◌≡◌, refl, false, some, [], ◌∷◌, arith}
use clusterrebootd.Orchestrator.Types.{Trace}
use clusterrebootd.Daemon.Programs.{command_run, command_status}
use clusterrebootd.Daemon.Exclusion.{runs-Alone}
use clusterrebootd.Daemon.History.{
  ClusterEvent, History, calls_of, is_gone, holds, Exclusive, NodeCommand, Node, IsRunOf, Alone,
}
use clusterrebootd.Daemon.Tests.{sample_world, connect, flags, status_flags}

-- Two processes that reboot their nodes, one after the other; the others look at the status.
abbrev sample_nodes : ℕ → Node
sample_nodes zero = record {
  world = sample_world;
  connect = connect;
  command = NodeCommand.running (some flags);
}
sample_nodes (suc zero) = record {
  world = sample_world;
  connect = connect;
  command = NodeCommand.running (some flags);
}
sample_nodes (suc (suc n)) = record {
  world = sample_world;
  connect = connect;
  command = NodeCommand.looking status_flags;
}

abbrev calls_by : ℕ → Trace → History → History
calls_by i [] h = h
calls_by i (c ∷ t) h = ClusterEvent.made i c ∷ calls_by i t h

abbrev ran : Trace
ran = (command_run sample_world connect 3 (some flags)).trace

-- The first process runs to its end and its lease ends, and then the second one runs.
abbrev first_gone : History
first_gone = ClusterEvent.lapsed 0 ∷ calls_by 0 ran []

abbrev sample_history : History
sample_history = calls_by 1 ran first_gone

own_calls : (i : ℕ) (t : Trace) (h : History) → calls_of i (calls_by i t h) ≡ t ++ calls_of i h
own_calls i [] h = refl
own_calls i (c ∷ t) h = ground (arith, ==_iff i i, own_calls i t h)

other_calls :
    (i j : ℕ) (t : Trace) (h : History) → i ≢ j → calls_of i (calls_by j t h) ≡ calls_of i h
other_calls i j [] h differ = refl
other_calls i j (c ∷ t) h differ = ground (arith, ==_iff j i, differ, other_calls i j t h differ)

still_here : (i j : ℕ) (t : Trace) (h : History) → is_gone i (calls_by j t h) ≡ is_gone i h
still_here i j [] h = refl
still_here i j (c ∷ t) h = still_here i j t h

still_free : (i j : ℕ) (t : Trace) (h : History) → i ≢ j → holds i (calls_by j t h) ≡ holds i h
still_free i j [] h differ = refl
still_free i j (c ∷ t) h differ = ground (arith, ==_iff j i, differ, still_free i j t h differ)

calls_by-Exclusive :
    (i : ℕ) (t : Trace) (h : History)
    → Exclusive h
    → is_gone i h ≡ false
    → ((j : ℕ) → j ≢ i → holds j h ≡ false)
    → Exclusive (calls_by i t h)
calls_by-Exclusive i [] h x here free = x
calls_by-Exclusive i (c ∷ t) h x here free = (
  still_here i i t h ∙ here,
  (λ _ j differ. still_free j i t h differ ∙ free j differ),
  calls_by-Exclusive i t h x here free,
)

gone-free : (j : ℕ) → holds j first_gone ≡ false
gone-free zero = ground arith
gone-free (suc n) = rw (still_free (suc n) 0 ran [] (λ e. omega (arith, e))) refl

sample-Exclusive : Exclusive sample_history
sample-Exclusive =
    calls_by-Exclusive 1 ran first_gone (calls_by-Exclusive 0 ran [] tt refl (λ j differ. refl))
      (still_here 1 0 ran []) (λ j differ. gone-free j)

sample-IsRunOf : (i : ℕ) → IsRunOf (sample_nodes i) (calls_of i sample_history)
sample-IsRunOf zero = (
  3,
  [],
  sym (
      other_calls 0 1 ran first_gone (λ e. omega (arith, e)) ∙ own_calls 0 ran [] ∙ append-nil ran),
)
sample-IsRunOf (suc zero) = (
  3,
  [],
  sym (
      own_calls 1 ran first_gone
      ∙ rw (other_calls 1 0 ran [] (λ e. omega (arith, e))) (append-nil ran)),
)
sample-IsRunOf (suc (suc n)) = (
  0,
  (command_status sample_world connect (some status_flags)).trace,
  sym (
      rw (other_calls (suc (suc n)) 1 ran first_gone (λ e. omega (arith, e)))
        (rw (other_calls (suc (suc n)) 0 ran [] (λ e. omega (arith, e))) (append-nil _))),
)

runs-Alone_example : Alone sample_history
runs-Alone_example = runs-Alone sample_nodes sample_history sample-Exclusive sample-IsRunOf
