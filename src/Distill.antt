-- ===== src/Distill.antt =====
-- The distillation pass, `src/distill/core.ts` and `src/distill/watermark.ts`.
pub mod Decision
pub mod Chunks
pub mod Watermark
pub mod Plan
pub mod Store
pub mod Commit
pub mod Scenes
mod Examples
