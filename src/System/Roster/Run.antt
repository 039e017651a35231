-- ===== src/System/Roster/Run.antt =====
-- A connection from its `ready` on, through whatever the server does for anybody:
-- crates/boa-server/src/session.rs.
use boa_voice.Prelude.{
  ℕ, ◌≡◌, refl, true, none, some, List, inl, inr, ◌≢◌, subst, Option, ◌++◌, ◌⊎◌, ◌+◌, ◌<◌, ◌^◌,
  length,
}
use boa_voice.Prelude.Map.{get}
use boa_voice.Proto.Model.{Ident, User, Channel}
use boa_voice.Proto.Control.{ClientMsg, ErrorCode, bad_request, error_msg}
use boa_voice.Server.Hub
use boa_voice.Server.Hub.{State, Conn, Sender}
use boa_voice.Server.Hub.Inv.{Inv}
use boa_voice.Server.Hub.Outbox.{send_to_conn-Inv}
use boa_voice.Server.Hub.Steps.{bind_media_address-Inv}
use boa_voice.Prelude.Text.{Text, text}
use boa_voice.Server.Session.Serve.{
  Frame, text_message, binary_message, close_message, ping_or_pong, socket_error, open_session,
  take_frame,
}
use boa_voice.Server.Session.{refused, Db, World, Env, Flow, handle, teardown}
use boa_voice.Server.Session.Keeps.{Keeps, handle-Keeps, teardown-Inv}
use boa_voice.System.Roster.Open.{
  teardown-Mirrors, opened-Inv, other_opened-Mirrors, opened-Mirrors,
}
use boa_voice.Client.State
use boa_voice.Client.State.{index_voice}
use boa_voice.System.Roster.{send_to_conn-Quiet, voice_step}
use boa_voice.System.Roster.Mirrors.{Mirrors, bound-Mirrors, quiet_step}
use boa_voice.System.Roster.Handle.{Mirrored, handle-Mirrors}

-- What the server does for connections, other than ending connection `i`: a frame that a session takes,
-- a connection that opens, the binding of a media address, and the end of another connection.
pub data Turn (D : Type 0) (db : Db D) (i : ℕ) : State → State → Type 0 where
  taken :
      (env : Env) (parse : Text → ClientMsg ⊎ Text) (w w' : World D) (frame : Frame) (flow : Flow)
      → length w.hub.by_ssrc + 2 < 2 ^ 32
      → take_frame db env parse w frame ≡ some (flow, w')
      → Turn D db i w.hub w'.hub
  opened :
      (env : Env) (s : State) (d : D) (user : User) (tx : Sender)
      → get s.next_conn s.conns ≡ none
      → Turn D db i s (open_session db env s d user tx).hub
  bound :
      (s : State) (user : Ident) (addr at : ℕ)
      → Turn D db i s (Hub.bind_media_address s user addr at).1
  torn_down : (s : State) (conn : ℕ) (user : User) → conn ≢ i → Turn D db i s (teardown s conn user)

pub data Turns (D : Type 0) (db : Db D) (i : ℕ) : State → State → Type 0 where
  still : (s : State) → Turns D db i s s
  and_then : {s t u : State} → Turns D db i s t → Turn D db i t u → Turns D db i s u

module _ {D : Type 0} (db : Db D) (i now : ℕ) (c : State.State) where
  -- A client with an open connection has the hub's roster once it has applied its queue, if the hub is sound.
  abbrev Follows : State → Type 0
  Follows s = Inv s × Mirrors i now c s

  abbrev FollowsAfter : Option (Flow × World D) → Type 0
  FollowsAfter none = ⊥
  FollowsAfter (some (flow, w)) = Follows w.hub

  both : (o : Option (Flow × World D)) → Keeps o → Mirrored i now c o → FollowsAfter o
  both none v k = v
  both (some (flow, w)) v k = (v, k)

  handled-Follows :
      (env : Env) (w : World D) (msg : ClientMsg)
      → length w.hub.by_ssrc + 2 < 2 ^ 32
      → Follows w.hub
      → FollowsAfter (handle db env w msg)
  handled-Follows env w msg room (v, k) =
      both (handle db env w msg) (handle-Keeps db env w v room msg)
        (handle-Mirrors i now c db env w msg v room k)

  answered-Follows :
      (w : World D) (code : ErrorCode) (message : Text)
      → Follows w.hub
      → FollowsAfter (refused w code message)
  unfolding voice_step Hub.send_to_conn
  answered-Follows w code message (v, k) = (
    send_to_conn-Inv w.hub w.conn (error_msg code message) v,
    quiet_step w.hub (Hub.send_to_conn w.hub w.conn (error_msg code message)) k refl
        (send_to_conn-Quiet w.hub k.roster w.conn (error_msg code message) (λ r. refl) k.hears),
  )

  taken-Follows :
      (env : Env) (parse : Text → ClientMsg ⊎ Text) (w : World D) (frame : Frame)
      → length w.hub.by_ssrc + 2 < 2 ^ 32
      → Follows w.hub
      → FollowsAfter (take_frame db env parse w frame)
  unfolding take_frame
  taken-Follows env parse w (text_message t) room f = read (parse t)
    where
      read :
          (r : ClientMsg ⊎ Text)
          → FollowsAfter (elim r [
            | inl msg ↦ handle db env w msg
            | inr err ↦ refused w bad_request (text "could not read that frame: " ++ err)
          ])
      read (inl msg) = handled-Follows env w msg room f
      read (inr err) = answered-Follows w bad_request (text "could not read that frame: " ++ err) f
  taken-Follows env parse w binary_message room f =
      answered-Follows w bad_request (text "the control plane is text only") f
  taken-Follows env parse w close_message room f = f
  taken-Follows env parse w ping_or_pong room f = f
  taken-Follows env parse w socket_error room f = f

  Turn-Mirrors :
      (s t : State) → Turn D db i s t → Inv s → Mirrors i now c s → Inv t × Mirrors i now c t
  Turn-Mirrors _ _ (taken env parse w w' frame flow room e) v k =
      subst FollowsAfter e (taken-Follows env parse w frame room (v, k))
  Turn-Mirrors _ _ (opened env s d user tx free) v k =
      (opened-Inv db env s d user tx v, other_opened-Mirrors db env s d user tx free k)
  Turn-Mirrors _ _ (bound s user addr at) v k =
      (bind_media_address-Inv s user addr at v, bound-Mirrors s user addr at k)
  Turn-Mirrors _ _ (torn_down s conn user ne) v k =
      (teardown-Inv s conn user v, teardown-Mirrors s conn user ne k)

  Turns-Mirrors :
      (s t : State) → Turns D db i s t → Inv s → Mirrors i now c s → Inv t × Mirrors i now c t
  Turns-Mirrors _ _ (still s) v k = (v, k)
  Turns-Mirrors _ _ (and_then before last) v k =
      let (v', k') = Turns-Mirrors _ _ before v k in Turn-Mirrors _ _ last v' k'

-- In a sound hub, with a database that answers, a client whose connection opens has the hub's roster once it
-- has applied its queue, whatever it believed before and whatever turns the server takes afterwards, while
-- its connection is open.
pub roster_follows :
    {D : Type 0}
    → (db : Db D) (now : ℕ) (c : State.State) (env : Env) (s : State) (d : D) (user : User)
      (tx : Sender) (users : List User) (channels : List Channel) (t : State)
    → Inv s
    → tx.alive ≡ true
    → db.users d ≡ some users
    → db.channels d ≡ some channels
    → Turns D db s.next_conn (open_session db env s d user tx).hub t
    → Mirrors s.next_conn now c t
roster_follows db now c env s d user tx users channels t v alive eu ec turns =
    (Turns-Mirrors db s.next_conn now c _ t turns (opened-Inv db env s d user tx v)
      (opened-Mirrors db env s d user tx users channels v alive eu ec)).1
