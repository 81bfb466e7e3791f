-- ===== src/Subscriptions.antt =====
-- resotocore/core/task/subscribers.py and resotocore/core/task/model.py: who has subscribed to which
-- messages.
pub mod Data
pub mod Store
pub mod Handler
pub mod Changes
pub mod Index
pub mod Cleaner
pub mod Examples
