-- ===== src/Tests.antt =====
-- Runs of the code on concrete inputs.
pub mod Samples
mod Store
mod Queues
mod Worker
mod Spans
mod Remote
mod Otlp
mod ClientConfig
mod Llm
mod Tracing
mod Pricing
pub mod Config
mod Evaluation
mod Adapters
mod Collector
