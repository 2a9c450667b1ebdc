-- ===== src/MyModule.antt =====
-- The timer of chat/my_module.cc, which runs every ten seconds.
pub mod Timer
pub mod Startup
pub mod Ready
use flz_chat.Common.{ℕ, ℤ, pos, ◌-ℤ◌, ◌*ℤ◌, Option, none, some, List, [], ◌∷◌}
use flz_chat.World.{
  World, Env, M, closed, Job, close, pure, modify, continue, for_each, ◌>>=◌, ◌>>◌,
}
use flz_chat.Session.Conn.{OnlineConn}
use flz_chat.Session.Registry.{collect_timeouted}
use flz_chat.Dispatch.Pending.{sweep_pending}
use flz_chat.Dispatch.MqToWs.{schedule}
use flz_chat.Servlet.Jobs.{note}

module _ {V : Type 0} (E : Env V) where
  -- On the connection's IOManager, whether it has a session or not; else at once.
  unfoldable pub close_timeouted : OnlineConn → M V (Unit {0})
  unfolding schedule note
  close_timeouted conn = elim conn.io_manager [
    | some iom ↦ schedule E iom (close conn)
    | none ↦ elim conn.session [ some s ↦ note E (closed s) | none ↦ pure tt ]
  ]

  -- The connections that were last active `heartbeat_timeout_seconds` ago or earlier.
  unfoldable pub timeouted : World V → List OnlineConn
  unfolding collect_timeouted
  timeouted w =
      collect_timeouted (E.now_ms -ℤ E.config.chat.heartbeat_timeout_seconds *ℤ pos 1000) w.registry

  unfoldable pub close_all : M V (Unit {0})
  unfolding timeouted close_timeouted
  close_all w = for_each (timeouted w) close_timeouted w

  -- `SweepPending(now)`
  unfoldable pub sweep : M V (Unit {0})
  unfolding sweep_pending
  sweep = modify λ w. record w {
    pending = sweep_pending E.config.chat.pending_send_ttl_seconds E.now_ms w.pending;
  }

  unfoldable pub on_timer : M V (Unit {0})
  unfolding close_all sweep
  on_timer = do close_all; sweep
