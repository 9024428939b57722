-- ===== src/Hydra.antt =====
-- The package hydra: the agent's inputs, its queue, its outputs and its monitor.
pub mod Queue
pub mod Strconv
pub mod Format
pub mod Records
pub mod Tail
pub mod OutForward
pub mod Monitor
pub mod Config
pub mod InTail
pub mod Watcher
pub mod InForward
pub mod Context
