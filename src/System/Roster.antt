-- ===== src/System/Roster.antt =====
-- The roster of a client next to the hub's: crates/boa-client/src/state.rs and
-- crates/boa-server/src/hub.rs, joined by a connection's queue.
pub mod Changes
pub mod Mirrors
pub mod Moves
pub mod Handle
pub mod Ready
pub mod Open
pub mod Run
use boa_voice.Prelude.{
  ℕ, ◌≡◌, refl, Bool, true, false, Option, none, some, List, [], ◌∷◌, ◌++◌, ◌==◌, if◌then◌else◌,
  arith, sym, ap, ◌∙◌, subst, ◌&&◌, not,
}
use boa_voice.Prelude.Map.{Map, get, insert, remove, modify, map_values, get-map_values}
use boa_voice.Prelude.Lists.{any}
use boa_voice.Prelude.Sorting.{sort_by}
use boa_voice.Proto.Model.{Ident, VoiceState}
use boa_voice.Proto.Control.{ServerMsg}
use boa_voice.Server.Hub
use boa_voice.Server.Hub.{Member, Conn, Sender, deliver, deliver_to, member_state}
use boa_voice.Server.Hub.Inv.{apply as on_some}
use boa_voice.Server.Hub.Outbox.{get-broadcast, get-broadcast_except, get-send_to_conn}
use boa_voice.Client.State
use boa_voice.Client.State.{Instant, apply, index_voice, in_channel, with_screen, sidebar_order}

-- The client's state once it has applied these messages, in order.
unfoldable pub hear : Instant → State.State → List ServerMsg → State.State
hear now c [] = c
hear now c (msg ∷ rest) = hear now (apply c msg now) rest

pub hear-append :
    (now : Instant) (c : State.State) (msgs : List ServerMsg) (msg : ServerMsg)
    → hear now c (msgs ++ (msg ∷ [])) ≡ apply (hear now c msgs) msg now
unfolding hear
hear-append now c [] msg = refl
hear-append now c (m ∷ rest) msg = hear-append now (apply c m now) rest msg

-- What a message does to the roster alone.
unfoldable pub voice_step : Map VoiceState → ServerMsg → Map VoiceState
voice_step v (ServerMsg.ready user server users channels voice_states) = index_voice voice_states
voice_step v (ServerMsg.voice_state state) = insert state.user state v
voice_step v (ServerMsg.voice_leave user channel) =
    if in_channel (get user v) channel then remove user v else v
voice_step v (ServerMsg.screen_start user share) = modify user (with_screen (some share)) v
voice_step v (ServerMsg.screen_stop user) = modify user (with_screen none) v
voice_step v _ = v

apply-voice :
    (c : State.State) (msg : ServerMsg) (now : Instant)
    → (apply c msg now).voice ≡ voice_step c.voice msg
unfolding apply voice_step
apply-voice c (ServerMsg.channel_create channel) now =
    created (any (λ k. k.id == channel.id) c.channels)
  where
    created :
        (known : Bool)
        → (if known
            then c
            else record c { channels = sort_by sidebar_order (c.channels ++ (channel ∷ [])) }).voice
          ≡ c.voice
    created true = refl
    created false = refl
apply-voice c _ now = refl

-- A client's roster says of everybody what the hub's members do.
abbrev pub Agrees : Map Member → Map VoiceState → Type 0
Agrees members v = (u : Ident) → get u v ≡ on_some (member_state u) (get u members)

-- Connection `i` is open, and the client `c` has this roster once it has applied what is queued.
pub record Hears (i : ℕ) (now : Instant) (c : State.State) (conns : Map Conn) (v : Map VoiceState)
    : Type 0 where
  pub conn : Conn
  pub held : get i conns ≡ some conn
  pub open_yet : conn.tx.alive ≡ true
  pub heard : (hear now c conn.tx.queue).voice ≡ v

-- A message that says nothing of the roster.
abbrev pub Quiet : ServerMsg → Type 0
Quiet msg = (v : Map VoiceState) → voice_step v msg ≡ v

module _ {i : ℕ} {now : Instant} {c : State.State} where
  pub Hears-deliver :
      (conns conns' : Map Conn) (v : Map VoiceState) (msg : ServerMsg)
      → (h : Hears i now c conns v) → get i conns' ≡ some (deliver msg h.conn)
      → Hears i now c conns' (voice_step v msg)
  Hears-deliver conns conns' v msg h e = record {
    conn = deliver msg h.conn;
    held = e;
    open_yet = ground (arith, h.open_yet);
    heard =
        ap (λ q. (hear now c q).voice) (sent h.conn.tx h.open_yet)
        ∙ (ap (λ (s : State.State). s.voice) (hear-append now c h.conn.tx.queue msg)
            ∙ (apply-voice (hear now c h.conn.tx.queue) msg now
                ∙ ap (λ w. voice_step w msg) h.heard));
  }
    where
      sent : (tx : Sender) → tx.alive ≡ true → (Hub.send msg tx).queue ≡ tx.queue ++ (msg ∷ [])
      sent tx e = ground arith

  pub Hears-same :
      (conns conns' : Map Conn) (v : Map VoiceState)
      → Hears i now c conns v
      → get i conns' ≡ get i conns
      → Hears i now c conns' v
  Hears-same conns conns' v h e = record {
    conn = h.conn;
    held = e ∙ h.held;
    open_yet = h.open_yet;
    heard = h.heard;
  }

  pub broadcast-Hears :
      (s : Hub.State) (v : Map VoiceState) (msg : ServerMsg)
      → Hears i now c s.conns v
      → Hears i now c (Hub.broadcast s msg).conns (voice_step v msg)
  broadcast-Hears s v msg h =
      Hears-deliver s.conns (Hub.broadcast s msg).conns v msg h
        (get-broadcast s msg i ∙ ap (on_some (deliver msg)) h.held)

  -- A quiet message may reach the connection or not.
  Hears-Quiet :
      (b : Bool) (conns conns' : Map Conn) (v : Map VoiceState) (msg : ServerMsg)
      → Quiet msg
      → Hears i now c conns v
      → get i conns' ≡ (if b then on_some (deliver msg) (get i conns) else get i conns)
      → Hears i now c conns' v
  Hears-Quiet true conns conns' v msg q h e =
      subst (Hears i now c conns') (q v)
        (Hears-deliver conns conns' v msg h (e ∙ ap (on_some (deliver msg)) h.held))
  Hears-Quiet false conns conns' v msg q h e = Hears-same conns conns' v h e

  pub broadcast-Quiet :
      (s : Hub.State) (v : Map VoiceState) (msg : ServerMsg)
      → Quiet msg
      → Hears i now c s.conns v
      → Hears i now c (Hub.broadcast s msg).conns v
  broadcast-Quiet s v msg q h =
      Hears-Quiet true s.conns (Hub.broadcast s msg).conns v msg q h (get-broadcast s msg i)

  pub broadcast_except-Quiet :
      (s : Hub.State) (v : Map VoiceState) (except : ℕ) (msg : ServerMsg)
      → Quiet msg
      → Hears i now c s.conns v
      → Hears i now c (Hub.broadcast_except s except msg).conns v
  broadcast_except-Quiet s v except msg q h =
      Hears-Quiet (not (i == except)) s.conns (Hub.broadcast_except s except msg).conns v msg q h
        (ground (arith, get-broadcast_except s except msg i))

  pub send_to_conn-Quiet :
      (s : Hub.State) (v : Map VoiceState) (conn : ℕ) (msg : ServerMsg)
      → Quiet msg
      → Hears i now c s.conns v
      → Hears i now c (Hub.send_to_conn s conn msg).conns v
  send_to_conn-Quiet s v conn msg q h =
      Hears-Quiet (conn == i) s.conns (Hub.send_to_conn s conn msg).conns v msg q h
        (get-send_to_conn s conn msg i)

  pub send_to_user-Quiet :
      (s : Hub.State) (v : Map VoiceState) (user : Ident) (msg : ServerMsg)
      → Quiet msg
      → Hears i now c s.conns v
      → Hears i now c (Hub.send_to_user s user msg).1.conns v
  unfolding Hub.send_to_user
  send_to_user-Quiet s v user msg q h =
      Hears-Quiet (h.conn.user == user) s.conns (map_values (deliver_to user msg) s.conns) v msg q h
        (rw h.held (to_user h.conn h.held))
    where
      to_user :
          (k : Conn)
          → get i s.conns ≡ some k
          → get i (map_values (deliver_to user msg) s.conns)
            ≡ (if k.user == user then some (deliver msg k) else some k)
      to_user k e = ground (arith, get-map_values i (deliver_to user msg) s.conns)
