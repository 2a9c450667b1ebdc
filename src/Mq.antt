-- ===== src/Mq.antt =====
-- chat/mq: the messages that go through the broker, and the threads that send and receive them.
pub mod Envelope
pub mod Publisher
pub mod Consumer
pub mod PublisherThread
pub mod Rabbit
pub mod AmqpClient
