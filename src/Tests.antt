-- ===== src/Tests.antt =====
-- Runs at concrete inputs: a small Redis in memory, services with fixed answers, and the cases that
-- show each theorem's hypotheses to hold together.
pub mod Store
pub mod Values
pub mod ToxicityRuns
pub mod Services
pub mod BreakerRuns
pub mod LimitRuns
pub mod CacheRuns
pub mod RepeatRuns
pub mod ServiceRuns
pub mod AuditRuns
pub mod BackgroundRuns
pub mod WorkerRuns
pub mod ClientRuns
pub mod EvalRuns
pub mod LoggingRuns
pub mod RequestRuns
pub mod RouteRuns
pub mod FrontRuns
pub mod ReplyRuns
pub mod PiiRuns
pub mod ErasedRuns
pub mod PromptRuns
pub mod JailbreakRuns
