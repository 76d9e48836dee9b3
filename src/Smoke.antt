-- ===== src/Smoke.antt =====
-- lab8/smoke.c: the agent, the three listeners and the three smokers.
pub mod Defs
pub mod System
pub mod Invariant
pub mod Listen
pub mod Count
pub mod Calm
pub mod Reach
pub mod Live
pub mod Progress
pub mod Stuck
