-- ===== src/Lib.antt =====
-- flz_chat: the chat gateway under chat/, a WebSocket server between clients and a message broker.
--
-- A client connects with a token (chat/auth) and is entered in the table of connections
-- (chat/session). Its frames (chat/protocol) go to the business service through the publisher's
-- queue (chat/dispatch/ws_to_mq, chat/mq/publisher). Events of the business service come back as
-- envelopes (chat/mq/envelope), once each by a cache of ids (chat/util/lru_idempotency), and go down
-- to the connections (chat/dispatch/mq_to_ws). The settings are read at load (chat/config).
--
-- Files:
--   Common and its children: Boolean tests, lists, signed integers, maps and outcomes.
--   Util/Lru: chat/util/lru_idempotency.cc. `try_mark` is TryMark, `sweep` is Sweep; `none` is the
--     use of an iterator whose node is gone. Util/Lru/Invariant is about the list and its index,
--     Window and Timely about the abstract view as a window of ids, Depth and Duplicates about
--     repeated ids.
--   Util/Base64Url: chat/util/base64url.cc, over flz's base64; RoundTrip is about both ways,
--     Padding about the loop that pads a text.
--   Util/Uuid: chat/util/uuid.cc. `v4` is V4 of the bytes that OpenSSL gives; Form is about its text.
--   Util/Time: chat/util/time_util.cc. `iso8601_from_ms` is Iso8601FromMs, over `gmtime`; Calendar is
--     about `gmtime`, Digits, Reading and RoundTrip about the text.
--   Session/Conn, Session/RateLimit: chat/session/online_conn.h, `consume_token` is ConsumeToken.
--   Session/Registry: chat/session/session_registry.cc, each operation under its name. Evict, Ends,
--     Newest and Limits are about the eviction of `add`, Reads and Updates about the others, Timeouts
--     about the heartbeat check, Admission about what the connections in the table have in common.
--   Auth/Jwt: chat/auth/jwt.cc. Split, Numbers (ParseUInt64 with strtoull) and Verify, with
--     Sound and Complete about the tokens that are accepted.
--   Json: jsoncpp and JsonUtil as parameters, their documented laws, and an instance for examples.
--   Metrics: chat/metrics/metrics.cc, the counters and the histogram; Metrics/Render has the page of
--     RenderPrometheus. Counters and Histogram are about what they hold after any calls.
--   Config: chat/config/chat_config.cc, `load` is Load and `resolve_env` is ResolveEnv.
--   World: the singletons of the process as one record, the trace of what leaves the process, the
--     jobs handed to an IOManager, and the monad of a handler: state with exceptions, where an
--     exception keeps the state as it was when it was thrown.
--   Protocol: chat/protocol.cc. Frames is the JSON side, Send the session side.
--   Mq/Envelope, Mq/Publisher: chat/mq/envelope.cc and the queue side of chat/mq/publisher.cc.
--   Mq/Rabbit: the calls of librabbitmq and their answers, which are a parameter.
--   Mq/AmqpClient: chat/mq/amqp_client.cc. `connect` and `close` are Connect and Close; the child
--     Declare has the topology with chat/mq/topology.cc, Messages has Publish, Consume, Ack and
--     Nack. Handles has a monitor of the calls, Sound and Connecting are about it; Views and Quiet
--     are about what the calls say to the broker, Willing about a broker that takes everything.
--   Mq/PublisherThread: the thread side of chat/mq/publisher.cc. `round` is a round of its Run,
--     `start` and `stop` are Start and Stop. Lifecycle is about its connection, Order, Lossless and
--     Unconnected about what it sends.
--   Mq/Consumer: chat/mq/consumer.cc. `round` is a round of Run, `on_delivery` what it does with a
--     message, `start` and `stop` are Start and Stop. Deliveries, Handled and Redelivery are
--     about the broker's side, Rounds and Lifecycle about the connection.
--   Dispatch: chat/dispatch/ws_to_mq.cc (WsToMq, with Tracked about its queue, Accepted about a frame
--     that it takes and Carried about the fields of the message for it, and Pending) and
--     chat/dispatch/mq_to_ws.cc (MqToWs, with Receivers, Sending, Recall and Members about who is
--     pushed to, by the sets of ids of IdSet, and Scheduled about what each connection gets, by the
--     jobs of Frames).
--   Servlet: chat/chat_servlet.cc. `on_connect` and `on_close` are onConnect and onClose,
--     Servlet/Messages has `handle`, Servlet/Jobs what they schedule; Access and Closing are
--     about who is let in and out.
--   MyModule: chat/my_module.cc. `on_timer` is the timer; MyModule/Startup has `on_load`,
--     `on_server_ready` and `on_unload`, Timer and Ready are about them.
--   Invariant: the state of the process between two handlers; WsToMq, Pushes, MqToWs, Connections,
--     Messages and Consumer are about the handlers, Background about the jobs, the timer and the
--     publisher thread, by World/Keeps.
--   Delivery: a message of a client through dispatch/ws_to_mq and mq/publisher to the broker.
--     Downward is about the way back, through mq/consumer, dispatch/mq_to_ws and the jobs of Jobs.
--   System: the whole process as a relation between its states, each step a handler, a job, the timer
--     or a round of a thread, in any order. Its state has the singletons, the threads, the sessions
--     that flz serves and all connections that were ever opened; LetIn and Sound are about every state
--     that can be reached. Of flz it takes that `handle` and `onClose` are only called for a connection whose
--     `onConnect` answered 0, with the request that it left.
--   Tests: concrete inputs.
--
-- Numbers: uint64_t and size_t are natural numbers with their wrap-around where the code adds to a
-- counter; int64_t and int32_t are integers, whose overflow is undefined in C++ and is not modelled.
-- Maps are association lists, so an iteration meets the entries in the order of the list; those of
-- the metrics are kept in the order of their keys, as std::map does.
--
-- Fuel: `evict` runs on as many rounds as there are devices, and each round erases one.
-- `add_padding` runs three rounds, since at most three '=' bring a length to a multiple of four.
-- `year_from` runs on 400 years, and a cycle of the calendar has no more; a number is written in at most
-- twenty digits, as many as 2^64 has. Every other loop is structural.
--
-- Not modelled: the framework flz, jsoncpp, OpenSSL, librabbitmq and the clock, which are
-- parameters; the locks, since each operation is one step; and the sleeps of the threads, of which
-- only the time is kept. A handler takes the id and the times that it writes as parameters, and
-- Util/Uuid and Util/Time say what texts they are.
pub mod Common
pub mod Util
pub mod Session
pub mod Json
pub mod Metrics
pub mod Config
pub mod Auth
pub mod World
pub mod Protocol
pub mod Dispatch
pub mod Mq
pub mod Servlet
pub mod MyModule
pub mod Invariant
pub mod Delivery
pub mod System
mod Tests
