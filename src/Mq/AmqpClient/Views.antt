-- ===== src/Mq/AmqpClient/Views.antt =====
-- What the calls of chat/mq/amqp_client say to the broker, and the actions that say nothing.
use flz_chat.Common.{ℕ, ◌≡◌, refl, Bool, true, false, List, [], ◌∷◌, ◌++◌}
use mathlib.Core.List.{append-nil}
use flz_chat.Mq.Rabbit.{Method, channel_open, basic_publish, basic_ack, basic_nack, Call, send}
use flz_chat.Mq.AmqpClient.{AmqpClient, Action}

-- A call of `Ack(tag)`, or of `Nack(tag, requeue)`.
pub data Settlement : Type 0 where
  acked : ℕ → Settlement
  nacked : ℕ → Bool → Settlement

-- The messages that a method publishes, and the deliveries that it answers.
abbrev pub published_by : Method → List Method
published_by (basic_publish exchange key mandatory immediate props body) =
    basic_publish exchange key mandatory immediate props body ∷ []
published_by m = []

abbrev pub settled_by : Method → List Settlement
settled_by (basic_ack tag multiple) = acked tag ∷ []
settled_by (basic_nack tag multiple requeue) = nacked tag requeue ∷ []
settled_by m = []

-- In the order in which they were sent.
unfoldable pub published : List Call → List Method
published [] = []
published (send conn channel m ∷ ks) = published ks ++ published_by m
published (k ∷ ks) = published ks

unfoldable pub settlements : List Call → List Settlement
settlements [] = []
settlements (send conn channel m ∷ ks) = settlements ks ++ settled_by m
settlements (k ∷ ks) = settlements ks

-- A call that neither publishes nor answers a delivery.
abbrev pub is_quiet_method : Method → Bool
is_quiet_method (basic_publish exchange key mandatory immediate props body) = false
is_quiet_method (basic_ack tag multiple) = false
is_quiet_method (basic_nack tag multiple requeue) = false
is_quiet_method m = true

abbrev pub is_quiet : Call → Bool
is_quiet (send conn channel m) = is_quiet_method m
is_quiet k = true

-- A property of the calls that quiet calls keep.
abbrev pub IsUnmoved : (List Call → Type 0) → Type 0
IsUnmoved P = (k : Call) (ks : List Call) → is_quiet k ≡ true → P ks → P (k ∷ ks)

abbrev pub KeepsCalls : {A : Type 0} → (List Call → Type 0) → Action A → Type 0
KeepsCalls P m = (c : AmqpClient) → P c.calls → P (m c).1.calls

quiet-says_nothing :
    (m : Method) → is_quiet_method m ≡ true → (published_by m ≡ []) × (settled_by m ≡ [])
quiet-says_nothing (basic_publish exchange key mandatory immediate props body) e = absurd (cc)
quiet-says_nothing (basic_ack tag multiple) e = absurd (cc)
quiet-says_nothing (basic_nack tag multiple requeue) e = absurd (cc)
quiet-says_nothing channel_open e = (refl, refl)
quiet-says_nothing m e = (refl, refl)

pub published_unmoved : (l : List Method) → IsUnmoved (λ ks. published ks ≡ l)
unfolding published
published_unmoved l (send conn channel m) ks e h =
    rw ((quiet-says_nothing m e).0, append-nil (published ks)) h
published_unmoved l k ks e h = h

pub settlements_unmoved : (l : List Settlement) → IsUnmoved (λ ks. settlements ks ≡ l)
unfolding settlements
settlements_unmoved l (send conn channel m) ks e h =
    rw ((quiet-says_nothing m e).1, append-nil (settlements ks)) h
settlements_unmoved l k ks e h = h
