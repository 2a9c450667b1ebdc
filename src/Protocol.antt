-- ===== src/Protocol.antt =====
-- chat/protocol: the frames that clients send, and those that are sent to them.
pub mod Frames
pub mod Send
