-- ===== src/Tasks.antt =====
-- resotocore/core/task/task_description.py: task descriptions, and running tasks as state machines.
pub mod Messages
pub mod Description
pub mod Machine
pub mod Running
pub mod Ops
pub mod Progress
pub mod Perform
pub mod Pending
pub mod Overdue
pub mod Starting
pub mod Routing
mod Examples
pub mod Life
