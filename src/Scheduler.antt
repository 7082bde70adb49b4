-- ===== src/Scheduler.antt =====
-- internal/scheduler: actions, the pipeline of one valve, the scheduler over all valves.
pub mod Action
pub mod World
pub mod Shared
pub mod Wait
pub mod Execute
pub mod Keeps
pub mod Ending
pub mod Safety
pub mod Slot
pub mod Confirmation
pub mod Queue
pub mod Commands
pub mod Cancellation
pub mod Draining
pub mod Ping
pub mod Retries
pub mod Reachable
pub mod Valves
