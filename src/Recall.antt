-- ===== src/Recall.antt =====
-- Recall traces and usage feedback: `src/recall/`.
pub mod Types
pub mod Traces
pub mod Usage
pub mod Retention
pub mod Reconstruct
mod Examples
