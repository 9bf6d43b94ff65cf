-- ===== src/Orchestrator/Favourable.antt =====
-- Answers that nothing in a pass stands against (pkg/orchestrator/runner.go), and steps that go on.
use clusterrebootd.Prelude.{◌≡◌, true, false, Option, none, some, [], is_nil, ltb}
use clusterrebootd.Windows.Evaluator.{Evaluator, evaluate}
use clusterrebootd.Orchestrator.Types.{Trace, Environment, Runner, HealthEnv}
use clusterrebootd.Orchestrator.Flow.{State, Exit, M, continue, ◌>>=◌, ◌>>◌}
use clusterrebootd.Orchestrator.Policies.{policy_reasons}
use clusterrebootd.Orchestrator.Gates.{healthy_exit}

-- The windows allow every instant that the clock shows.
abbrev pub IsAllowing : Environment → Option Evaluator → Type 0
IsAllowing env none = Unit
IsAllowing env (some w) = (t : Trace) → (evaluate w (env.clock t)).allowed ≡ true

-- No answer stands against a reboot, and the lock is free.
pub record IsFavourable (env : Environment) (r : Runner) : Type 0 where
  pub kill : (t : Trace) → env.check_kill t ≡ (false, none)
  pub windows : IsAllowing env r.windows
  pub detectors : (t : Trace) → ((env.detect t).0 ≡ true) × ((env.detect t).2 ≡ none)
  pub cluster :
      (t : Trace)
      → ((env.cluster_status t).1 ≡ none)
        × (policy_reasons r.node_name r.policies (env.cluster_status t).0 ≡ [])
  pub alone : policy_reasons r.node_name r.policies [] ≡ []
  pub health :
      (t : Trace) (e : HealthEnv)
      → (healthy_exit (env.run_health t e).0 ≡ true) × ((env.run_health t e).1 ≡ none)
  pub reported : (t : Trace) → env.report_healthy t ≡ none
  pub cooldown :
      (t : Trace) → ((env.cooldown_status t).0.active ≡ false) × ((env.cooldown_status t).1 ≡ none)
  pub free : (t : Trace) → env.acquire t ≡ none
  pub locks : r.lock_enabled ≡ true
  pub tries : ltb 0 r.max_lock_tries ≡ true
  pub armed : r.dry_run ≡ false
  pub command : is_nil r.reboot_command ≡ false

-- The step goes on, with a value that has the property.
abbrev pub OnNext : {A : Type 0} → (A → Type 0) → Exit A → Type 0
OnNext P (Exit.next a) = P a
OnNext P Exit.stop = ⊥
OnNext P (Exit.fail e) = ⊥

abbrev pub Goes : {A : Type 0} → (A → Type 0) → M A → Type 0
Goes P m = (s : State) → OnNext P (m s).0

pub continue-Goes :
    {A B : Type 0} (P : A → Type 0) (Q : B → Type 0) (f : A → M B) (x : Exit A) (s : State)
    → OnNext P x
    → ((a : A) → P a → Goes Q (f a))
    → OnNext Q (continue f (x, s)).0
continue-Goes P Q f (Exit.next a) s h rest = rest a h s
continue-Goes P Q f Exit.stop s h rest = elim h [ ]
continue-Goes P Q f (Exit.fail e) s h rest = elim h [ ]

pub >>=-Goes :
    {A B : Type 0} (P : A → Type 0) (Q : B → Type 0) (m : M A) (f : A → M B)
    → Goes P m
    → ((a : A) → P a → Goes Q (f a))
    → Goes Q (m >>= f)
>>=-Goes P Q m f first rest s = continue-Goes P Q f (m s).0 (m s).1 (first s) rest

abbrev pub Any : {A : Type 0} → A → Type 0
Any a = Unit

-- Of steps without a value.
pub >>-Goes : (m k : M (Unit {0})) → Goes Any m → Goes Any k → Goes Any (m >> k)
>>-Goes m k first rest = >>=-Goes Any Any m (λ _. k) first (λ _ _. rest)
