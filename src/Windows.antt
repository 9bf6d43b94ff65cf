-- ===== src/Windows.antt =====
-- pkg/windows: maintenance windows. `Days` reads a day specification, `TimeOfDay` a time,
-- `Interval` cuts a window into intervals of the week, `Parse` reads a whole expression, and
-- `Evaluator` decides an instant against the deny and allow lists. The other modules hold laws.
pub mod Error
pub mod Days
pub mod DayLaws
pub mod TimeOfDay
pub mod TimeLaws
pub mod Interval
pub mod IntervalLaws
pub mod Parse
pub mod Reading
pub mod ParseLaws
pub mod RoundTrip
pub mod Evaluator
pub mod EvaluatorLaws
mod Tests
