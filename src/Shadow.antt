-- ===== src/Shadow.antt =====
-- The shadow runtime (src/execution/shadow_runtime.py), which observes decisions and submits no order.
pub mod Record
pub mod Journal
pub mod Decision
pub mod Runtime
pub mod Session
mod Tests
