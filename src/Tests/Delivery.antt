-- ===== src/Tests/Delivery.antt =====
-- A frame of a client that goes to the broker.
use flz_chat.Common.{refl, some, true, [], ◌∷◌, ◌++◌, pos, arith, size, to_int32, to_u64, string_eq}
use flz_chat.Json.Values.{values, values_laws, null}
use flz_chat.Json.Laws.{fits}
use flz_chat.Json.Read.{get_string, get_int64}
use flz_chat.Dispatch.WsToMq.{handle_msg_send}
use flz_chat.Dispatch.WsToMq.Accepted.{IsAcceptable}
use flz_chat.Mq.AmqpClient.Views.{published}
use flz_chat.Mq.PublisherThread.{Stamp}
use flz_chat.Mq.PublisherThread.Order.{messages, run}
use flz_chat.Delivery.{IsPublished, handle_msg_send-IsPublished}
use flz_chat.Tests.Frames.{not_empty}
use flz_chat.Tests.Handlers.{send_data}
use flz_chat.Tests.Consumer.{rabbit}
use flz_chat.Tests.Background.{process, one_left, thread, stamp, willing}

abbrev last : Stamp
last = record { uuid = "e-3"; iso_now = "2024-01-01T08:00:02+08:00" }

send_data-IsAcceptable : IsAcceptable process send_data "m1" (pos 4) "hello" "" null
unfolding get_string get_int64 fits values size to_int32
send_data-IsAcceptable = record {
  client_msg_id = refl;
  conversation = refl;
  text = refl;
  time = refl;
  media_meta = refl;
  named = not_empty _ refl;
  positive = omega arith;
  fitting = refl;
  filled = not_empty _ refl;
  short = omega arith;
}

handle_msg_send-IsPublished_example :
    let w' = (handle_msg_send process 7 "phone" (some 1) true (pos 3) send_data one_left).1 in
    let p = (run process rabbit (stamp ∷ last ∷ []) (record thread { world = w' }, pos 1000)).0 in
    IsPublished process 7 "phone" true
      (pos 3)
      "m1"
      (pos 4)
      "hello"
      ""
      null
      last
      (published thread.client.calls ++ messages process (stamp ∷ []) one_left.queue)
      one_left
      (published p.client.calls)
      w'
      p.world
unfolding to_u64
handle_msg_send-IsPublished_example =
    handle_msg_send-IsPublished process rabbit willing (values_laws _ _) 7 "phone" (some 1) true
      (pos 3) send_data "m1" (pos 4) "hello" "" null one_left thread (stamp ∷ []) last (pos 1000)
      refl send_data-IsAcceptable (omega arith) refl
