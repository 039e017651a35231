-- ===== src/Proto/Model.antt =====
-- crates/boa-proto/src/model.rs: the data that both sides of the control plane exchange.
-- `Id` (a `u64` in a newtype, here `Ident`) and `Millis` are numbers; a number's width is stated where it matters.
use boa_voice.Prelude.{ℕ, Bool, ◌||◌, leb, Option, List, if◌then◌else◌}
use boa_voice.Prelude.Text.{Text, text, text_eq, is_empty, trim}
use boa_voice.Prelude.Int.{ℤ}

abbrev pub Ident : Type 0
Ident = ℕ

abbrev pub Millis : Type 0
Millis = ℕ

pub record User : Type 0 where
  pub id : Ident
  pub name : Text
  pub display_name : Text
  pub online : Bool

-- `User::label`
unfoldable pub user_label : User → Text
user_label u = if is_empty (trim u.display_name) then u.name else u.display_name

pub data ChannelKind : Type 0 where
  text_kind : ChannelKind
  voice_kind : ChannelKind

pub record Channel : Type 0 where
  pub id : Ident
  pub name : Text
  pub kind : ChannelKind
  pub position : ℤ
  pub topic : Text

pub record Attachment : Type 0 where
  pub id : Ident
  pub name : Text
  pub size : ℕ
  pub content_type : Text
  pub width : ℕ
  pub height : ℕ
  pub sha256 : Text
  pub expires_at : Millis

-- `Attachment::is_image`
unfoldable pub is_image : Attachment → Bool
is_image a =
    text_eq a.content_type (text "image/png")
    || text_eq a.content_type (text "image/jpeg")
    || text_eq a.content_type (text "image/gif")
    || text_eq a.content_type (text "image/webp")
    || text_eq a.content_type (text "image/bmp")

-- `Attachment::expired_at`
unfoldable pub expired_at : Attachment → Millis → Bool
expired_at a now = leb a.expires_at now

pub record Message : Type 0 where
  pub id : Ident
  pub channel : Ident
  pub author : Ident
  pub content : Text
  pub created_at : Millis
  pub edited_at : Option Millis
  pub attachments : List Attachment
  pub nonce : Option Text

pub record ScreenShare : Type 0 where
  pub ssrc : ℕ
  pub width : ℕ
  pub height : ℕ
  pub fps : ℕ
  pub kbps : ℕ
  pub with_audio : Bool

pub record VoiceState : Type 0 where
  pub user : Ident
  pub channel : Ident
  pub muted : Bool
  pub deafened : Bool
  pub ssrc : ℕ
  pub screen : Option ScreenShare

-- `VoiceState::silent`
unfoldable pub silent : VoiceState → Bool
silent v = v.muted || v.deafened

pub record ServerInfo : Type 0 where
  pub name : Text
  pub media_port : ℕ
  pub protocol_version : ℕ
  pub attachment_ttl_secs : ℕ
  pub max_upload_bytes : ℕ
  pub wormhole_rendezvous : Option Text
  pub wormhole_transit : Option Text

pub record FileOffer : Type 0 where
  pub code : Text
  pub name : Text
  pub size : ℕ
  pub channel : Ident
