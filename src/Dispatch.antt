-- ===== src/Dispatch.antt =====
-- chat/dispatch: client messages up to the queue, and events of the queue down to the clients.
pub mod Pending
pub mod WsToMq
pub mod MqToWs
