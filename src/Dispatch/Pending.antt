-- ===== src/Dispatch/Pending.antt =====
-- The table of chat/dispatch/ws_to_mq: sends that wait for their answer from the business service.
pub mod Laws
use flz_chat.Common.{
  ℕ, Bool, List, [], ◌∷◌, Option, none, some, String, ℤ, pos, ◌-ℤ◌, ◌*ℤ◌, leb_ℤ, lookup, insert,
  erase, string_eq, if◌then◌else◌,
}

pub record PendingSend : Type 0 where
  pub sender_user_id : ℕ
  pub sender_device_id : String
  pub created_ms : ℤ
  pub has_seq : Bool
  pub seq : ℤ

abbrev pub PendingMap : Type 0
PendingMap = List (String × PendingSend)

unfoldable pub take_pending : String → PendingMap → Option PendingSend × PendingMap
take_pending client_msg_id m = elim (lookup client_msg_id m) [
  | none ↦ (none, m)
  | some out ↦ (some out, erase client_msg_id m)
]

-- The loop of `SweepPending`.
pub sweep_from : ℤ → PendingMap → PendingMap
sweep_from deadline [] = []
sweep_from deadline ((id, p) ∷ m) =
    if leb_ℤ p.created_ms deadline then sweep_from deadline m else (id, p) ∷ sweep_from deadline m

unfoldable pub sweep_pending : ℤ → ℤ → PendingMap → PendingMap
unfolding sweep_from
sweep_pending ttl_seconds now_ms = sweep_from (now_ms -ℤ ttl_seconds *ℤ pos 1000)
