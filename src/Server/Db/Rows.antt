-- ===== src/Server/Db/Rows.antt =====
-- The schema and the rows of crates/boa-server/src/db.rs.
use boa_voice.Prelude.{
  ℕ, ◌+◌, ◌*◌, ◌^◌, ◌%◌, ◌-◌, Bool, true, false, ◌&&◌, Option, none, some, List, [], ◌==◌, ltb, leb,
  if◌then◌else◌, map,
}
use boa_voice.Prelude.Int.{ℤ, pos, negsuc}
use boa_voice.Prelude.Lists.{filter}
use boa_voice.Prelude.Sorting.{sort_by}
use boa_voice.Prelude.Text.{Text, text, text_eq}
use boa_voice.Proto.Model.{
  Ident, Millis, User, ChannelKind, text_kind, voice_kind, Message, Attachment,
}

abbrev pub history_max : ℕ
history_max = 200

-- `ATTACHMENT_TTL_SECS`
abbrev pub attachment_ttl_secs : ℕ
attachment_ttl_secs = 3 * (24 * (60 * 60))

pub record UserRow : Type 0 where
  pub id : Ident
  pub name : Text
  pub display_name : Text
  pub password_hash : Text
  pub created_at : Millis

pub record TokenRow : Type 0 where
  pub token : Text
  pub user_id : Ident
  pub created_at : Millis
  pub agent : Text

pub record ChannelRow : Type 0 where
  pub id : Ident
  pub name : Text
  pub kind : Text
  pub position : ℕ
  pub topic : Text
  pub created_at : Millis

pub record MessageRow : Type 0 where
  pub id : Ident
  pub channel_id : Ident
  pub author_id : Ident
  pub content : Text
  pub created_at : Millis
  pub edited_at : Option Millis
  pub nonce : Option Text

pub record AttachmentRow : Type 0 where
  pub id : Ident
  pub message_id : Option Ident
  pub uploader_id : Ident
  pub name : Text
  pub size : ℕ
  pub content_type : Text
  pub width : ℕ
  pub height : ℕ
  pub sha256 : Text
  pub created_at : Millis
  pub expires_at : Millis
  pub blob_deleted : Bool

-- `SCHEMA_V1`
pub record Tables : Type 0 where
  pub users : List UserRow
  pub tokens : List TokenRow
  pub channels : List ChannelRow
  pub messages : List MessageRow
  pub attachments : List AttachmentRow

-- Every table empty, as `migrate` leaves a new file.
abbrev pub new_tables : Tables
new_tables = record { users = []; tokens = []; channels = []; messages = []; attachments = [] }

-- `UPDATE … WHERE`
abbrev pub update {ℓ} : {A : Type ℓ} → (A → Bool) → (A → A) → List A → List A
update p f rows = map (λ r. if p r then f r else r) rows

abbrev pub lower : ℕ → ℕ
lower c = if leb 65 c && leb c 90 then c + 32 else c

-- `COLLATE NOCASE` folds the letters of ASCII.
abbrev pub eq_nocase : Text → Text → Bool
eq_nocase a b = text_eq (map lower a) (map lower b)

abbrev pub is_value : Option ℕ → ℕ → Bool
is_value none n = false
is_value (some m) n = m == n

abbrev pub is_nonce : Option Text → Text → Bool
is_nonce none n = false
is_nonce (some m) n = text_eq m n

abbrev pub is_null : Option ℕ → Bool
is_null none = true
is_null (some m) = false

-- `row_to_user`
abbrev pub row_to_user : UserRow → User
row_to_user r = record { id = r.id; name = r.name; display_name = r.display_name; online = false }

-- `row_to_message`
abbrev pub row_to_message : MessageRow → Message
row_to_message r = record {
  id = r.id;
  channel = r.channel_id;
  author = r.author_id;
  content = r.content;
  created_at = r.created_at;
  edited_at = r.edited_at;
  attachments = [];
  nonce = none;
}

abbrev pub row_to_attachment : AttachmentRow → Attachment
row_to_attachment r = record {
  id = r.id;
  name = r.name;
  size = r.size;
  content_type = r.content_type;
  width = r.width;
  height = r.height;
  sha256 = r.sha256;
  expires_at = r.expires_at;
}

-- `attachments_for`
unfoldable pub attachments_for : Tables → Ident → List Attachment
unfolding sort_by
attachments_for d id =
    map row_to_attachment
      (sort_by (λ a b. leb a.id b.id) (filter (λ a. is_value a.message_id id) d.attachments))

-- `kind_str`
unfoldable pub kind_str : ChannelKind → Text
kind_str text_kind = text "text"
kind_str voice_kind = text "voice"

-- `parse_kind`
unfoldable pub parse_kind : Text → ChannelKind
parse_kind s = if text_eq s (text "voice") then voice_kind else text_kind

-- `as i32`
abbrev pub as_i32 : ℕ → ℤ
as_i32 n = let r = n % 2 ^ 32 in if ltb r (2 ^ 31) then pos r else negsuc (2 ^ 32 - 1 - r)
