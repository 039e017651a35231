-- ===== src/System/Roster/Handle.antt =====
-- Every change of the roster is announced: the handler of crates/boa-server/src/session.rs on one side,
-- `State::apply` of crates/boa-client/src/state.rs on the other.
use boa_voice.Prelude.{ℕ, refl, Option, none, some, ◌+◌, ◌<◌, ◌^◌, length}
use boa_voice.Proto.Control.{ClientMsg}
use boa_voice.Server.Hub
use boa_voice.Server.Hub.{
  State, Member, Joined, Conn, member_state, new_member, with_flags, start_sharing, stop_sharing,
  stop_watching, start_watching, share_of, with_addr,
}
use boa_voice.Server.Hub.Inv.{Inv}
use boa_voice.Server.Hub.Outbox.{
  broadcast-Inv, broadcast_except-Inv, send_to_conn-Inv, send_to_user-Inv,
}
use boa_voice.Server.Hub.Steps.{watch-Inv, unwatch-Inv}
use boa_voice.Server.Session.Keeps.{leave-Inv, flags-Inv, starts-Inv, stops-Inv, entered-Inv}
use boa_voice.Server.Session.{Flow, Db, World, Env, handle}
use boa_voice.Server.Session.Induct.{Closed, Lands, handle-Lands}
use boa_voice.Client.State
use boa_voice.Client.State.{with_screen}
use boa_voice.System.Roster.{
  broadcast-Quiet, broadcast_except-Quiet, send_to_conn-Quiet, send_to_user-Quiet,
}
use boa_voice.System.Roster.Mirrors.{
  tells_voice-Quiet, stopped-Mirrors, flags-Mirrors, started-Mirrors, watch-Mirrors,
  unwatch-Mirrors, Mirrors, quiet_step,
}
use boa_voice.System.Roster.Moves.{joined-Mirrors, left-Mirrors}

-- The hub's invariant, and the roster of one connection.
abbrev Synced : ℕ → ℕ → State.State → State → Type 0
Synced i now c s = Inv s × Mirrors i now c s

module _ (i now : ℕ) (c : State.State) where
  Synced-Closed : Closed (Synced i now c)
  unfolding Hub.send_to_conn Hub.send_to_user Hub.broadcast Hub.broadcast_except
  Synced-Closed = record {
    to_conn = λ s conn msg q p. (
      send_to_conn-Inv s conn msg p.0,
      quiet_step s (Hub.send_to_conn s conn msg) p.1 refl
          (send_to_conn-Quiet s p.1.roster conn msg (tells_voice-Quiet msg q) p.1.hears),
    );
    to_user = λ s user msg q p. (
      send_to_user-Inv s user msg p.0,
      quiet_step s (Hub.send_to_user s user msg).1 p.1 refl
          (send_to_user-Quiet s p.1.roster user msg (tells_voice-Quiet msg q) p.1.hears),
    );
    to_all = λ s msg q p. (
      broadcast-Inv s msg p.0,
      quiet_step s (Hub.broadcast s msg) p.1 refl
          (broadcast-Quiet s p.1.roster msg (tells_voice-Quiet msg q) p.1.hears),
    );
    to_others = λ s conn msg q p. (
      broadcast_except-Inv s conn msg p.0,
      quiet_step s (Hub.broadcast_except s conn msg) p.1 refl
          (broadcast_except-Quiet s p.1.roster conn msg (tells_voice-Quiet msg q) p.1.hears),
    );
    leaves = λ s user p. (leave-Inv s user p.0, left-Mirrors s user p.1);
    flags = λ s user muted deafened p.
        (flags-Inv s user muted deafened p.0, flags-Mirrors s user muted deafened p.1);
    starts =
        λ s user request p. (starts-Inv s user request p.0, started-Mirrors s user request p.1);
    stops = λ s user p. (stops-Inv s user p.0, stopped-Mirrors s user p.1);
    watches =
        λ s viewer target p. (watch-Inv s viewer target p.0, watch-Mirrors s viewer target p.1);
    unwatches =
        λ s viewer target p. (unwatch-Inv s viewer target p.0, unwatch-Mirrors s viewer target p.1);
    enters = λ s user channel at fresh room p.
        let (j, t, e, v, told) = joined-Mirrors s user channel at fresh room p.0 p.1 in
        (
          j,
          t,
          e,
          λ conn msg q. (entered-Inv t user j.previous conn msg j.state v, told conn msg q),
        );
  }

  -- Where the handler came to its end, the client behind connection `i` mirrors the hub.
  abbrev pub Mirrored : {D : Type 0} → Option (Flow × World D) → Type 0
  Mirrored none = ⊥
  Mirrored (some (flow, w)) = Mirrors i now c w.hub

  -- Whatever a client sends, every client with an open connection has the hub's roster once it has
  -- applied what is queued for it, if it would have had it before.
  pub handle-Mirrors :
      {D : Type 0} (db : Db D) (env : Env) (w : World D) (msg : ClientMsg)
      → Inv w.hub
      → length w.hub.by_ssrc + 2 < 2 ^ 32
      → Mirrors i now c w.hub
      → Mirrored (handle db env w msg)
  handle-Mirrors db env w msg v room k =
      mirrored (handle db env w msg)
        (handle-Lands (Synced i now c) Synced-Closed db env w (v, k) room msg)
    where
      mirrored : {D : Type 0} (r : Option (Flow × World D)) → Lands (Synced i now c) r → Mirrored r
      mirrored none p = p
      mirrored (some (flow, w)) p = p.1
