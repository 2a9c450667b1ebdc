-- ===== src/Mq/AmqpClient/Handles.antt =====
-- The handles of librabbitmq in chat/mq/amqp_client: a monitor of the calls, and the two states of
-- the client between its methods.
use flz_chat.Common.{
  ℕ, ℤ, String, ◌≡◌, refl, ◌⊎◌, Bool, true, false, not, ◌&&◌, Option, none, some, List, [], ◌∷◌,
  ◌==◌, nat_eq, beq_refl, Outcome, returned, failed, thrown, if◌then◌else◌,
}
use flz_chat.Mq.Rabbit.{
  is_normal, Method, Call, new_connection, socket_new, socket_open, login, send, get_rpc_reply,
  maybe_release_buffers, consume_message, destroy_envelope, connection_close, destroy_connection,
  Rabbit,
}
use flz_chat.Mq.AmqpClient.{AmqpClient, Action, continue, record_call, check_rpc_reply, rpc}

-- A connection that was made and not destroyed.
pub record Live : Type 0 where
  pub conn : ℕ
  pub socket : Option ℕ
  pub logged_in : Bool

abbrev is_some : Option ℕ → Bool
is_some none = false
is_some (some h) = true

abbrev is_handle : Option ℕ → ℕ → Bool
is_handle none k = false
is_handle (some h) k = h == k

abbrev same_handle : Option ℕ → Option ℕ → Bool
same_handle p none = false
same_handle p (some k) = is_handle p k

-- A call on the connection that is there, by whether it may be made: one socket to a connection, a
-- login once, methods only after it, and a login that is closed before the connection is destroyed.
unfoldable pub follow_live : Live → Call → Option (Option Live)
follow_live l (new_connection r) = none
follow_live l (socket_new c r) =
    if is_handle c l.conn && not (is_some l.socket)
    then some (some (record l { socket = r }))
    else none
follow_live l (socket_open s host port) =
    if same_handle s l.socket && not l.logged_in then some (some l) else none
follow_live l (login c as_user r) =
    if is_handle c l.conn && is_some l.socket && not l.logged_in
    then some (some (record l { logged_in = is_normal r }))
    else none
follow_live l (send c ch m) = if is_handle c l.conn && l.logged_in then some (some l) else none
follow_live l (get_rpc_reply c) = if is_handle c l.conn then some (some l) else none
follow_live l (maybe_release_buffers c) = if is_handle c l.conn then some (some l) else none
follow_live l (consume_message c s us) =
    if is_handle c l.conn && l.logged_in then some (some l) else none
follow_live l destroy_envelope = some (some l)
follow_live l (connection_close c) =
    if is_handle c l.conn && l.logged_in then some (some (record l { logged_in = false })) else none
follow_live l (destroy_connection c) =
    if is_handle c l.conn && not l.logged_in then some none else none

-- A call where no connection is there: only a new one can be made.
abbrev pub follow_none : Call → Option (Option Live)
follow_none (new_connection none) = some none
follow_none (new_connection (some h)) =
    some (some (record { conn = h; socket = none; logged_in = false }))
follow_none k = none

unfoldable pub follow : Option (Option Live) → Call → Option (Option Live)
unfolding follow_live
follow none k = none
follow (some none) k = follow_none k
follow (some (some l)) k = follow_live l k

-- The connection that is there after calls, the latest first; `none` if one of them used a handle
-- that is not in use, or lost one.
unfoldable pub live : List Call → Option (Option Live)
unfolding follow
live [] = some none
live (k ∷ ks) = follow (live ks) k

-- A client with a connection and a login, which the calls leave there.
pub record IsOpen (c : AmqpClient) : Type 0 where
  pub handle : ℕ
  pub conn : c.conn ≡ some handle
  pub connected : c.connected ≡ true
  pub traced :
      live c.calls ≡ some (some (record { conn = handle; socket = c.socket; logged_in = true }))

-- A client without a connection, whose calls leave none.
pub record IsClosed (c : AmqpClient) : Type 0 where
  pub conn : c.conn ≡ none
  pub connected : c.connected ≡ false
  pub traced : live c.calls ≡ some none

abbrev pub IsSound : AmqpClient → Type 0
IsSound c = IsOpen c ⊎ IsClosed c

-- An action leaves an open client open.
abbrev pub KeepsOpen : {A : Type 0} → Action A → Type 0
KeepsOpen m = (c : AmqpClient) → IsOpen c → IsOpen (m c).1

pub KeepsOpen-bind :
    {A B : Type 0} (m : Action A) (f : A → Action B)
    → KeepsOpen m
    → ((a : A) → KeepsOpen (f a))
    → KeepsOpen (λ c. continue (m c).0 f (m c).1)
unfolding continue
KeepsOpen-bind m f k l c o = go (m c).0 (m c).1 (k c o)
  where
    go : (r : Outcome _) (c' : AmqpClient) → IsOpen c' → IsOpen (continue r f c').1
    go (returned a) c' o' = l a c' o'
    go (failed err) c' o' = o'
    go thrown c' o' = o'

pub call-IsOpen :
    (k : Call) (c : AmqpClient) (o : IsOpen c)
    → follow_live (record { conn = o.handle; socket = c.socket; logged_in = true }) k
      ≡ some (some (record { conn = o.handle; socket = c.socket; logged_in = true }))
    → IsOpen (record_call k c)
unfolding live follow
call-IsOpen k c o e = record {
  handle = o.handle;
  conn = o.conn;
  connected = o.connected;
  traced = rw (o.traced, follow) e;
}

pub send-IsOpen :
    (m : Method) (c : AmqpClient) → IsOpen c → IsOpen (record_call (send c.conn c.channel_id m) c)
unfolding follow_live
send-IsOpen m c o = call-IsOpen _ c o (rw (o.conn, beq_refl o.handle) refl)

pub get_rpc_reply-IsOpen :
    (c : AmqpClient) → IsOpen c → IsOpen (record_call (get_rpc_reply c.conn) c)
unfolding follow_live
get_rpc_reply-IsOpen c o = call-IsOpen _ c o (rw (o.conn, beq_refl o.handle) refl)

pub maybe_release_buffers-IsOpen :
    (c : AmqpClient) → IsOpen c → IsOpen (record_call (maybe_release_buffers c.conn) c)
unfolding follow_live
maybe_release_buffers-IsOpen c o = call-IsOpen _ c o (rw (o.conn, beq_refl o.handle) refl)

pub consume_message-IsOpen :
    (s us : ℤ) (c : AmqpClient) → IsOpen c → IsOpen (record_call (consume_message c.conn s us) c)
unfolding follow_live
consume_message-IsOpen s us c o = call-IsOpen _ c o (rw (o.conn, beq_refl o.handle) refl)

pub destroy_envelope-IsOpen : (c : AmqpClient) → IsOpen c → IsOpen (record_call destroy_envelope c)
unfolding follow_live
destroy_envelope-IsOpen c o = call-IsOpen destroy_envelope c o refl

module _ (R : Rabbit) where
  pub rpc-KeepsOpen : (m : Method) (op : String) → KeepsOpen (rpc R m op)
  unfolding rpc check_rpc_reply
  rpc-KeepsOpen m op c o = get_rpc_reply-IsOpen _ (send-IsOpen m c o)
