-- ===== src/Server/Session/Keeps.antt =====
-- No message of a client breaks the hub or leaves a handler without an end,
-- crates/boa-server/src/session.rs.
use boa_voice.Prelude.{
  ℕ, ◌+◌, ◌^◌, ◌<◌, inl, inr, Bool, true, false, Option, none, some, if◌then◌else◌, length,
  Bool-cases,
}
use boa_voice.Proto.Model.{Ident, User, VoiceState}
use boa_voice.Proto.Control.{ClientMsg, ServerMsg, ScreenRequest}
use boa_voice.Server.Hub
use boa_voice.Server.Hub.{State}
use boa_voice.Server.Hub.Inv.{Inv}
use boa_voice.Server.Hub.Steps.{
  set_voice_flags-Inv, start_screen-Inv, stop_screen-Inv, watch-Inv, unwatch-Inv,
}
use boa_voice.Server.Hub.Leave.{remove_member-Inv}
use boa_voice.Server.Hub.Join.{join_voice-Joins}
use boa_voice.Server.Hub.Outbox.{
  broadcast-Inv, broadcast_except-Inv, send_to_conn-Inv, send_to_user-Inv, disconnect-Inv,
}
use boa_voice.Server.Session.Induct.{Closed, Lands, announced, left_first, handle-Lands}
use boa_voice.Server.Session.{Db, World, Env, Flow, handle, leave, teardown}

pub leave-Inv : (hub : State) (user : Ident) → Inv hub → Inv (leave hub user)
unfolding leave
leave-Inv hub user v =
    let v₁ = stop_screen-Inv hub user v in
    let v₂ = remove_member-Inv (Hub.stop_screen hub user).1 user v₁ in
    told (Hub.stop_screen hub user).0 (Hub.leave_voice (Hub.stop_screen hub user).1 user).0 v₂
  where
    told :
        (stopped left : Option Ident)
        → Inv (Hub.leave_voice (Hub.stop_screen hub user).1 user).1
        → Inv (elim left [
          | none ↦ (Hub.leave_voice (Hub.stop_screen hub user).1 user).1
          | some channel ↦
              Hub.broadcast
                (if Hub.is_some stopped
                  then Hub.broadcast
                      (Hub.leave_voice (Hub.stop_screen hub user).1 user).1
                      (ServerMsg.screen_stop user)
                  else (Hub.leave_voice (Hub.stop_screen hub user).1 user).1)
                (ServerMsg.voice_leave user channel)
        ])
    told stopped none v = v
    told none (some channel) v = broadcast-Inv _ _ v
    told (some c) (some channel) v = broadcast-Inv _ _ (broadcast-Inv _ _ v)

announced-Inv :
    {A : Type 0} (r : Option A × State) (msg : A → ServerMsg) → Inv r.1 → Inv (announced r msg)
announced-Inv (none, s) msg v = v
announced-Inv (some a, s) msg v = broadcast-Inv s (msg a) v

pub flags-Inv :
    (s : State) (user : Ident) (muted deafened : Bool)
    → Inv s
    → Inv (announced (Hub.set_voice_flags s user muted deafened) ServerMsg.voice_state)
flags-Inv s user muted deafened v = announced-Inv _ _ (set_voice_flags-Inv s user muted deafened v)

pub starts-Inv :
    (s : State) (user : Ident) (request : ScreenRequest)
    → Inv s
    → Inv (announced (Hub.start_screen s user request) (ServerMsg.screen_start user))
starts-Inv s user request v = announced-Inv _ _ (start_screen-Inv s user request v)

pub stops-Inv :
    (s : State) (user : Ident)
    → Inv s
    → Inv (announced (Hub.stop_screen s user) (λ channel. ServerMsg.screen_stop user))
stops-Inv s user v = announced-Inv _ _ (stop_screen-Inv s user v)

left_first-Inv :
    (s : State) (user : Ident) (previous : Option Ident) → Inv s → Inv (left_first s user previous)
left_first-Inv s user none v = v
left_first-Inv s user (some p) v = broadcast-Inv s _ v

pub entered-Inv :
    (t : State) (user : Ident) (previous : Option Ident) (conn : ℕ) (msg : ServerMsg)
    (state : VoiceState)
    → Inv t
    → Inv (
        Hub.broadcast
          (Hub.send_to_conn (left_first t user previous) conn msg)
          (ServerMsg.voice_state state))
entered-Inv t user previous conn msg state v =
    broadcast-Inv _ _ (send_to_conn-Inv _ conn msg (left_first-Inv t user previous v))

Inv-Closed : Closed Inv
Inv-Closed = record {
  to_conn = λ s conn msg q. send_to_conn-Inv s conn msg;
  to_user = λ s user msg q. send_to_user-Inv s user msg;
  to_all = λ s msg q. broadcast-Inv s msg;
  to_others = λ s conn msg q. broadcast_except-Inv s conn msg;
  leaves = leave-Inv;
  flags = flags-Inv;
  starts = starts-Inv;
  stops = stops-Inv;
  watches = watch-Inv;
  unwatches = unwatch-Inv;
  enters = λ s user channel now fresh room v.
      let (j, t, e, joins) = join_voice-Joins s user channel now fresh v room in
      (j, t, e, λ conn msg q. entered-Inv t user j.previous conn msg j.state joins.valid);
}

-- The handler came to its end, and the hub's invariant holds.
abbrev pub Keeps : {D : Type 0} → Option (Flow × World D) → Type 0
Keeps none = ⊥
Keeps (some (flow, w)) = Inv w.hub

-- Every message a client can send is handled to the end, and leaves the hub's invariant in
-- force, while three stream ids are unused.
pub handle-Keeps :
    {D : Type 0} (db : Db D) (env : Env) (w : World D)
    → Inv w.hub
    → length w.hub.by_ssrc + 2 < 2 ^ 32
    → (msg : ClientMsg) → Keeps (handle db env w msg)
handle-Keeps db env w v room msg =
    kept (handle db env w msg) (handle-Lands Inv Inv-Closed db env w v room msg)
  where
    kept : {D : Type 0} (r : Option (Flow × World D)) → Lands Inv r → Keeps r
    kept none v = v
    kept (some (flow, w)) v = v

-- Closing a connection keeps the hub's invariant.
pub teardown-Inv : (hub : State) (conn : ℕ) (user : User) → Inv hub → Inv (teardown hub conn user)
unfolding teardown
teardown-Inv hub conn user v = elim (Bool-cases (Hub.disconnect hub conn).0) [
  | inr more ↦ rw more gone
  | inl last ↦ rw last (
      broadcast-Inv _ _
        (left (Hub.is_some (Hub.voice_channel_of (Hub.disconnect hub conn).1 user.id))))
]
  where
    gone : Inv (Hub.disconnect hub conn).1
    gone = disconnect-Inv hub conn v

    left :
        (b : Bool)
        → Inv (if b then leave (Hub.disconnect hub conn).1 user.id else (Hub.disconnect hub conn).1)
    left true = leave-Inv (Hub.disconnect hub conn).1 user.id gone
    left false = gone
