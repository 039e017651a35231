-- ===== src/Proto/Control.antt =====
-- crates/boa-proto/src/control.rs: the messages of the control plane.
use boa_voice.Prelude.{ℕ, Bool, true, false, Option, List}
use boa_voice.Prelude.Text.{Text}
use boa_voice.Proto.Model.{
  Ident, User, ChannelKind, Channel, Attachment, Message, ScreenShare, VoiceState, ServerInfo,
  FileOffer,
}

pub record ScreenRequest : Type 0 where
  pub width : ℕ
  pub height : ℕ
  pub fps : ℕ
  pub kbps : ℕ
  pub with_audio : Bool

-- Client to server.
pub data ClientMsg : Type 0 where
  identify : (token : Text) (protocol_version : ℕ) (agent : Text) → ClientMsg
  history : (channel : Ident) (before : Option Ident) (limit : ℕ) → ClientMsg
  send_message : (channel : Ident) (content nonce : Text) (attachments : List Ident) → ClientMsg
  edit_message : (id : Ident) (content : Text) → ClientMsg
  delete_message : (id : Ident) → ClientMsg
  typing : (channel : Ident) → ClientMsg
  create_channel : (name : Text) (kind : ChannelKind) → ClientMsg
  set_display_name : (name : Text) → ClientMsg
  join_voice : (channel : Ident) → ClientMsg
  leave_voice : ClientMsg
  update_voice_state : (muted deafened : Bool) → ClientMsg
  speaking : (speaks : Bool) → ClientMsg
  start_screen : ScreenRequest → ClientMsg
  stop_screen : ClientMsg
  watch_screen : (user : Ident) → ClientMsg
  unwatch_screen : (user : Ident) → ClientMsg
  screen_report : (user : Ident) (received lost : ℕ) (want_keyframe : Bool) → ClientMsg
  offer_file : (to : Ident) (offer : FileOffer) → ClientMsg
  cancel_file_offer : (to : Ident) (code : Text) → ClientMsg
  ping : (nonce : ℕ) → ClientMsg

pub data ErrorCode : Type 0 where
  unauthorised version_mismatch not_found forbidden bad_request rate_limited internal : ErrorCode

-- Server to client.
pub data ServerMsg : Type 0 where
  ready :
      (user : User) (server : ServerInfo) (users : List User) (channels : List Channel)
      (voice_states : List VoiceState)
      → ServerMsg
  message_create : Message → ServerMsg
  message_update : Message → ServerMsg
  message_delete : (channel id : Ident) → ServerMsg
  history : (channel : Ident) (messages : List Message) (complete : Bool) → ServerMsg
  typing : (channel user : Ident) → ServerMsg
  presence : (user : Ident) (online : Bool) → ServerMsg
  user_update : User → ServerMsg
  channel_create : Channel → ServerMsg
  voice_ready : (channel : Ident) (ssrc : ℕ) (key : Text) (media_port : ℕ) → ServerMsg
  voice_state : VoiceState → ServerMsg
  voice_leave : (user channel : Ident) → ServerMsg
  speaking : (user : Ident) (speaks : Bool) → ServerMsg
  screen_start : (user : Ident) (share : ScreenShare) → ServerMsg
  screen_stop : (user : Ident) → ServerMsg
  screen_report : (from : Ident) (received lost : ℕ) (want_keyframe : Bool) → ServerMsg
  file_offer : (from : Ident) (offer : FileOffer) → ServerMsg
  file_offer_cancelled : (from : Ident) (code : Text) → ServerMsg
  attachment_ready : Attachment → ServerMsg
  error : (code : ErrorCode) (message : Text) (fatal : Bool) → ServerMsg
  pong : (nonce : ℕ) → ServerMsg

-- `ServerMsg::error`
abbrev pub error_msg : ErrorCode → Text → ServerMsg
error_msg code message = ServerMsg.error code message false

-- `ServerMsg::fatal`
abbrev pub fatal_msg : ErrorCode → Text → ServerMsg
fatal_msg code message = ServerMsg.error code message true
