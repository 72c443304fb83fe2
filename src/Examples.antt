-- ===== src/Examples.antt =====
-- Concrete runs: the tests of the definitions, and each theorem at an input that meets its
-- hypotheses.
pub mod StoreRuns
pub mod ServiceRuns
mod FileRuns
pub mod MqttRuns
mod ApiRuns
mod RuleRuns
mod WordRuns
