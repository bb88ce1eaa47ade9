-- ===== src/Examples.antt =====
-- Concrete inputs for the theorems of the components, with tests.
pub mod Token
pub mod Cluster
pub mod World
mod EventRuns
mod RaceRuns
pub mod Concurrency
pub mod Counting
mod MetricRuns
mod ServerRuns
mod FairRuns
mod AnswerRuns
mod ProbeRuns
pub mod NetworkRuns
pub mod PipelineRuns
mod TrialRuns
mod LogRuns
pub mod OtherRuns
mod MainRuns
mod StartRuns
mod TimeRuns
