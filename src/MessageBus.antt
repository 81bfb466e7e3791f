-- ===== src/MessageBus.antt =====
-- resotocore/core/message_bus.py: the message bus, from emitters to the queues of listeners.
pub mod Ops
pub mod Delivery
pub mod Leaving
pub mod Examples
