-- ===== src/Server/Session/Serve.antt =====
-- `run` of crates/boa-server/src/session.rs before its teardown: what a connection gets when it opens, and
-- one turn of the loop over its frames.
use boa_voice.Prelude.{true, Option, some, [], ◌++◌, if◌then◌else◌, ◌⊎◌, inl, inr}
use boa_voice.Prelude.Text.{Text, text}
use boa_voice.Proto.Model.{User}
use boa_voice.Proto.Control.{ClientMsg, ServerMsg, bad_request}
use boa_voice.Server.Hub
use boa_voice.Server.Hub.{State, Sender}
use boa_voice.Server.Session.{
  Db, World, Env, Flow, break, send_ready, handle, broadcast_except, refused, carry_on,
}

-- A frame of the socket, or its error.
pub data Frame : Type 0 where
  text_message : Text → Frame
  binary_message close_message ping_or_pong socket_error : Frame

module _ {D : Type 0} (db : Db D) (env : Env) where
  -- The session of a connection that the hub has just taken.
  abbrev pub new_session : State → D → User → Sender → World D
  new_session hub d user tx = record {
    hub = (Hub.connect hub user.id tx).1;
    db = d;
    conn = (Hub.connect hub user.id tx).0.0;
    user = user;
    last_typing = [];
  }

  -- `run` from the account that `identify` found to the first frame.
  unfoldable pub open_session : State → D → User → Sender → World D
  unfolding send_ready
  open_session hub d user tx =
      let w = send_ready db env (new_session hub d user tx) in
      if (Hub.connect hub user.id tx).0.1
      then broadcast_except w (ServerMsg.presence user.id true)
      else w

  module _ (parse : Text → ClientMsg ⊎ Text) where
    -- One turn of `while let Some(frame) = stream.next().await`.
    unfoldable pub take_frame : World D → Frame → Option (Flow × World D)
    unfolding handle
    take_frame w (text_message t) = elim (parse t) [
      | inl msg ↦ handle db env w msg
      | inr err ↦ refused w bad_request (text "could not read that frame: " ++ err)
    ]
    take_frame w binary_message = refused w bad_request (text "the control plane is text only")
    take_frame w close_message = some (break, w)
    take_frame w ping_or_pong = carry_on w
    take_frame w socket_error = some (break, w)
