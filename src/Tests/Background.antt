-- ===== src/Tests/Background.antt =====
-- The publisher thread (chat/mq/publisher) and the timer (chat/my_module.cc) at concrete states.
use flz_chat.Common.{
  ◌≡◌, refl, true, false, List, [], ◌∷◌, ◌++◌, none, some, pos, ◌-ℤ◌, ◌*ℤ◌, ◌≤ℤ◌, lookup, nat_eq,
  string_eq, arith,
}
use flz_chat.Json.Values.{Json, null}
use flz_chat.World.{World, Env, Task}
use flz_chat.Session.Registry.{get}
use flz_chat.Dispatch.Pending.{PendingSend}
use flz_chat.Mq.Rabbit.{Rabbit, Method}
use flz_chat.Mq.AmqpClient
use flz_chat.Mq.AmqpClient.Views.{published}
use flz_chat.Mq.AmqpClient.Willing.{IsWilling}
use flz_chat.Mq.PublisherThread.{PublisherThread, Stamp, attempt, round}
use flz_chat.Mq.PublisherThread.Order.{IsSelection, messages, run, run-published-IsSelection}
use flz_chat.Mq.PublisherThread.Lossless.{run-published}
use flz_chat.Mq.PublisherThread.Unconnected.{round_unconnected}
use flz_chat.Mq.Consumer.{min_ℤ}
use flz_chat.Tests.Consumer.{rabbit}
use flz_chat.MyModule.{on_timer}
use flz_chat.MyModule.Timer.{IsClosed, on_timer-IsClosed}
use flz_chat.Tests.Handlers.{service, world, world-IsConsistent, phone}

abbrev pub process : Env Json
process = record (service.env) { now_ms = pos 100000 }

abbrev waiting : PendingSend
waiting = record {
  sender_user_id = 7;
  sender_device_id = "phone";
  created_ms = pos 6000;
  has_seq = false;
  seq = pos 0;
}

abbrev first : Task Json
first = record { routing_key = "business.msg.ack"; payload = null; priority = 0 }

abbrev second : Task Json
second = record { routing_key = "business.user.offline"; payload = null; priority = 5 }

abbrev pub busy : World Json
busy = record world { queue = first ∷ second ∷ []; pending = ("m1", waiting) ∷ [] }

abbrev pub one_left : World Json
one_left = record busy { queue = second ∷ [] }

abbrev pub thread : PublisherThread Json
thread = record { running = true; client = AmqpClient.new; world = busy }

abbrev stamps : List Stamp
stamps =
    record { uuid = "e-1"; iso_now = "2024-01-01T08:00:00+08:00" }
    ∷ record { uuid = "e-2"; iso_now = "2024-01-01T08:00:01+08:00" }
    ∷ []

pub willing : IsWilling rabbit
willing = record {
  new_connection = λ ks. (1, refl);
  socket_new = λ ks. (2, refl);
  socket_open = λ ks host port. refl;
  login = λ ks l. refl;
  rpc_reply = λ ks. refl;
  status = λ ks m. refl;
}

run-published_example :
    let p' = (run process rabbit stamps (thread, pos 1000)).0 in
    (p'.world.queue ≡ [])
    × (published p'.client.calls
        ≡ published thread.client.calls ++ messages process stamps thread.world.queue)
run-published_example = run-published process rabbit willing stamps thread (pos 1000) refl

-- No socket can be made.
abbrev unreachable : Rabbit
unreachable = record rabbit { socket_new = λ ks. none }

run-published-IsSelection_example :
    let p' = (run process unreachable stamps (thread, pos 1000)).0 in
    (p'.world.queue ≡ [])
    × (l : List Method) × IsSelection l (messages process stamps thread.world.queue)
    × (published p'.client.calls ≡ published thread.client.calls ++ l)
run-published-IsSelection_example =
    run-published-IsSelection process unreachable stamps thread (pos 1000) refl

abbrev pub stamp : Stamp
stamp = record { uuid = "e-1"; iso_now = "2024-01-01T08:00:00+08:00" }

is_down : AmqpClient.is_returned (attempt process unreachable thread.client).0 ≡ false
unfolding attempt AmqpClient.continue
is_down = refl

round_unconnected_example :
    let (p', wait) = round process unreachable stamp (thread, pos 1000) in
    (published p'.client.calls ≡ published thread.client.calls)
    × (p'.world.queue ≡ second ∷ [])
    × (wait ≡ min_ℤ process.config.rabbitmq.reconnect_max_backoff_ms (pos 1000 *ℤ pos 2))
round_unconnected_example =
    round_unconnected process unreachable stamp first (second ∷ []) thread (pos 1000) refl refl
      is_down

in_table : get 7 "phone" busy.registry ≡ some phone
unfolding get lookup
in_table = refl

overdue : pos 5000 ≤ℤ pos 100000 -ℤ pos 75 *ℤ pos 1000
unfolding ◌-ℤ◌ ◌*ℤ◌
overdue = omega arith

on_timer-IsClosed_example : IsClosed process phone (on_timer process busy).1
on_timer-IsClosed_example =
    on_timer-IsClosed process phone busy world-IsConsistent.registry in_table overdue
