-- ===== src/Agent.antt =====
-- The node agent, statix/src: attribution, aggregation, sampling and output.
pub mod Attribution
pub mod Aggregator
pub mod Sampler
pub mod Output
pub mod Pipeline
pub mod Loop
mod Examples
mod FileExamples
mod PodExamples
mod LoopExamples
