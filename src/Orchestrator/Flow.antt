-- ===== src/Orchestrator/Flow.antt =====
-- The control flow of `RunOnce`: a step goes on with a value, returns the outcome, or returns it
-- with an error. The state is the trace of calls and the named result `out`.
use clusterrebootd.Prelude.{◌≡◌, refl, ap, subst, Bool, true, false, Option, none, some, ◌∷◌}
use clusterrebootd.Orchestrator.Failure.{Failure, Context, wrap}
use clusterrebootd.Orchestrator.Types.{Outcome, Call, Trace, Status, Message}

pub record State : Type 0 where
  pub trace : Trace
  pub out : Outcome

pub data Exit (A : Type 0) : Type 0 where
  next : A → Exit A
  stop : Exit A
  fail : Failure → Exit A

abbrev pub M : Type 0 → Type 0
M A = State → Exit A × State

abbrev pub pure : {A : Type 0} → A → M A
pure a s = (next a, s)

abbrev pub continue : {A B : Type 0} → (A → M B) → Exit A × State → Exit B × State
continue f (next a, s) = f a s
continue f (stop, s) = (stop, s)
continue f (fail e, s) = (fail e, s)

infixl 5 ◌>>=◌ ◌>>◌
abbrev pub ◌>>=◌ : {A B : Type 0} → M A → (A → M B) → M B
◌>>=◌ m f s = continue f (m s)

abbrev pub ◌>>◌ : {A B : Type 0} → M A → M B → M B
m >> k = m >>= λ _. k

-- A call is made, with its answer.
abbrev pub log : Call → M (Unit {0})
log c s = (next tt, record s { trace = c ∷ s.trace })

-- What is asked of the environment depends on the trace.
abbrev pub ask : {A : Type 0} → (Trace → A) → M A
ask f s = (next (f s.trace), s)

abbrev pub modify : (Outcome → Outcome) → M (Unit {0})
modify f s = (next tt, record s { out = f s.out })

-- `if err != nil { return out, fmt.Errorf("...: %w", err) }`
abbrev pub raise : Context → Option Failure → M (Unit {0})
raise c none s = (next tt, s)
raise c (some e) s = (fail (wrap c e), s)

-- `return out, err`
abbrev pub throw : {A : Type 0} → Failure → M A
throw e s = (fail e, s)

-- `if err != nil { return out, err }`
abbrev pub raise_raw : Option Failure → M (Unit {0})
raise_raw none s = (next tt, s)
raise_raw (some e) s = (fail e, s)

-- `out.Status = ...; out.Message = ...; return out, nil`
abbrev pub finish : {A : Type 0} → Status → Message → M A
finish status message s =
    (stop, record s { out = record s.out { status = some status; message = message } })

abbrev pub finish_if : Bool → Status → Message → M (Unit {0})
finish_if true status message = finish status message
finish_if false _ _ = pure tt

-- The step keeps a property of the state, however it ends.
abbrev pub Keeps : {A : Type 0} → (State → Type 0) → M A → Type 0
Keeps P m = (s : State) → P s → P (m s).1

pub >>=-Keeps :
    {A B : Type 0} (P : State → Type 0) (m : M A) (f : A → M B)
    → Keeps P m
    → ((a : A) → Keeps P (f a))
    → Keeps P (m >>= f)
>>=-Keeps P m f hm hf s p = go (m s) (hm s p)
  where
    go : (r : Exit _ × State) → P r.1 → P (continue f r).1
    go (next a, t) q = hf a t q
    go (stop, t) q = q
    go (fail e, t) q = q

-- To show a statement of a bind, show it of each way in which its first step may end.
pub >>=-cases :
    {A B : Type 0} (Q : Exit B × State → Type 0) (m : M A) (f : A → M B) (s : State)
    → ((a : A) (t : State) → m s ≡ (next a, t) → Q (f a t))
    → ((t : State) → m s ≡ (stop, t) → Q (stop, t))
    → ((e : Failure) (t : State) → m s ≡ (fail e, t) → Q (fail e, t))
    → Q ((m >>= f) s)
>>=-cases Q m f s goes_on stops fails = go (m s) refl
  where
    go : (r : Exit _ × State) → m s ≡ r → Q (continue f r)
    go (next a, t) e = goes_on a t e
    go (stop, t) e = stops t e
    go (fail x, t) e = fails x t e

-- What a step that keeps a property leaves, by how it ended.
pub Keeps-at :
    {A : Type 0} (P : State → Type 0) (m : M A) {x : Exit A} {s t : State}
    → Keeps P m
    → P s
    → m s ≡ (x, t)
    → P t
Keeps-at P m {s = s} h p e = subst P (ap (λ r. r.1) e) (h s p)
