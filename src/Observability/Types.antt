-- ===== src/Observability/Types.antt =====
-- pkg/observability/event.go and metric.go: events and metrics.
use clusterrebootd.Prelude.{ℕ, zero, suc, ◌/◌, ◌^◌, Bool, List, ℤ, pos, negsuc}
use clusterrebootd.Text.{Text, codes}
use clusterrebootd.Orchestrator.Types.{Nanos}
use Prim.Native.String.{String}

pub data Level : Type 0 where
  info warn error : Level

pub data MetricType : Type 0 where
  counter histogram : MetricType

-- The `float64` values that the program measures: an integer, or `Seconds()` of a duration.
pub data Measure : Type 0 where
  whole : ℤ → Measure
  seconds : Nanos → Measure

abbrev pub Labels : Type 0
Labels = List (Text × Text)

pub record Metric : Type 0 where
  pub name : Text
  pub kind : MetricType
  pub value : Measure
  pub labels : Labels
  pub description : Text
  pub unit : Text

pub data Scalar : Type 0 where
  text : Text → Scalar
  number : ℤ → Scalar
  flag : Bool → Scalar
  -- an instant, printed as RFC 3339 in UTC
  instant : Nanos → Scalar

abbrev pub Entry : Type 0
Entry = List (Text × Scalar)

-- A value of a field.
pub data Value : Type 0 where
  scalar : Scalar → Value
  entries : List Entry → Value

abbrev pub Fields : Type 0
Fields = List (Text × Value)

-- Without the time stamp and the text, which the runner leaves empty.
pub record Event : Type 0 where
  pub level : Level
  pub node : Text
  pub component : Text
  pub event : Text
  pub fields : Fields

-- What a reporter is handed.
pub data Recorded : Type 0 where
  metric : Metric → Recorded
  event : Event → Recorded

abbrev negate : ℕ → ℤ
negate zero = pos 0
negate (suc n) = negsuc n

abbrev quotient_down : ℤ → ℕ → ℤ
quotient_down (pos n) d = pos (n / d)
quotient_down (negsuc n) d = negate (suc n / d)

-- `Duration.Milliseconds`, rounded towards zero.
unfoldable pub milliseconds : Nanos → ℤ
milliseconds d = quotient_down d (10 ^ 6)

abbrev pub in_labels : String → Text → Text × Text
in_labels name value = (codes name, value)

abbrev pub text_field : String → Text → Text × Value
text_field name value = (codes name, scalar (text value))

abbrev pub number_field : String → ℤ → Text × Value
number_field name value = (codes name, scalar (number value))

abbrev pub flag_field : String → Bool → Text × Value
flag_field name value = (codes name, scalar (flag value))

abbrev pub instant_field : String → Nanos → Text × Value
instant_field name value = (codes name, scalar (instant value))
