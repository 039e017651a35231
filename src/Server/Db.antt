-- ===== src/Server/Db.antt =====
-- crates/boa-server/src/db.rs: the tables of the schema as lists of rows, each method of `Db` as the
-- queries it makes of them. The clock is an argument, and so is the number that SQLite gives a new
-- row of a table (`next_rowid`, of the numbers in use). A failure of the disk is not modelled: `none`
-- is a constraint of the schema that does not hold.
pub mod Rows
pub mod Messages
pub mod Authors
pub mod Attached
pub mod Posting
pub mod History
pub mod Instance
use boa_voice.Prelude.{
  ℕ, ◌+◌, ◌*◌, ◌^◌, ◌%◌, ◌-◌, Bool, true, false, not, ◌&&◌, ◌||◌, Option, none, some, List, [], ◌∷◌,
  ◌++◌, ◌==◌, ltb, leb, if◌then◌else◌, map, take, length, min, max,
}
use mathlib.Core.List.{reverse}
use boa_voice.Prelude.Int.{ℤ, pos, negsuc}
use boa_voice.Prelude.Lists.{filter, find, any}
use boa_voice.Prelude.Sorting.{sort_by}
use boa_voice.Prelude.Text.{Text, text, text_eq, text_le}
use boa_voice.Proto.Model.{
  Ident, Millis, User, Channel, ChannelKind, text_kind, voice_kind, Message, Attachment,
}
unfoldable pub use Rows.*

-- Users

-- `Db::user_by_name`
unfoldable pub user_by_name : Tables → Text → Option (User × Text)
user_by_name d name = elim (find (λ r. eq_nocase r.name name) d.users) [
  | none ↦ none
  | some r ↦ some (row_to_user r, r.password_hash)
]

-- `Db::user`
unfoldable pub user : Tables → Ident → Option User
user d id = elim (find (λ r. r.id == id) d.users) [ none ↦ none | some r ↦ some (row_to_user r) ]

-- `Db::users`
unfoldable pub users : Tables → List User
unfolding sort_by
users d = map row_to_user (sort_by (λ a b. leb a.id b.id) d.users)

-- `Db::set_display_name`
unfoldable pub set_display_name : Tables → Ident → Text → Tables
set_display_name d id display_name = record d {
  users = update (λ r. r.id == id) (λ r. record r { display_name = display_name }) d.users;
}

-- `Db::is_empty`
unfoldable pub is_empty : Tables → Bool
is_empty d = length d.users == 0

-- Tokens

-- `Db::user_for_token`
unfoldable pub user_for_token : Tables → Text → Option User
unfolding user
user_for_token d token = elim (find (λ r. text_eq r.token token) d.tokens) [
  | none ↦ none
  | some t ↦ user d t.user_id
]

-- `Db::revoke_token`
unfoldable pub revoke_token : Tables → Text → Tables
revoke_token d token = record d { tokens = filter (λ r. not (text_eq r.token token)) d.tokens }

-- Channels

-- `ORDER BY kind, position, id`
abbrev pub channel_order : ChannelRow → ChannelRow → Bool
channel_order a b =
    if not (text_eq a.kind b.kind)
    then text_le a.kind b.kind
    else if not (a.position == b.position)
    then leb a.position b.position
    else leb a.id b.id

abbrev pub row_to_channel : ChannelRow → Channel
row_to_channel r = record {
  id = r.id;
  name = r.name;
  kind = parse_kind r.kind;
  position = pos r.position;
  topic = r.topic;
}

-- `Db::channels`; a position past `i32` is an error of `row.get`.
unfoldable pub channels : Tables → Option (List Channel)
unfolding sort_by
channels d =
    if any (λ r. leb (2 ^ 31) r.position) d.channels
    then none
    else some (map row_to_channel (sort_by channel_order d.channels))

-- `Db::channel`
unfoldable pub channel : Tables → Ident → Option (Option Channel)
unfolding channels
channel d id = elim (channels d) [ none ↦ none | some cs ↦ some (find (λ c. c.id == id) cs) ]

-- `COALESCE(MAX(position), -1) + 1`
abbrev pub next_position : Text → List ChannelRow → ℕ
next_position kind [] = 0
next_position kind (r ∷ rest) =
    let n = next_position kind rest in if text_eq r.kind kind then max (r.position + 1) n else n

-- Messages

-- `Db::message`
unfoldable pub message : Tables → Ident → Option Message
unfolding attachments_for
message d id = elim (find (λ r. r.id == id) d.messages) [
  | none ↦ none
  | some r ↦ some (record (row_to_message r) { attachments = attachments_for d id })
]

-- The lookup of a nonce in `Db::insert_message`.
unfoldable pub existing : Tables → Ident → Option Text → Option Ident
existing d author none = none
existing d author (some nonce) =
    elim (find (λ r. r.author_id == author && is_nonce r.nonce nonce) d.messages) [
      | none ↦ none
      | some r ↦ some r.id
    ]

-- `for a in attachments`
unfoldable pub claim : Tables → Ident → Ident → List Ident → Tables
claim d id author [] = d
claim d id author (a ∷ rest) =
    claim
      (record d {
        attachments =
            update (λ r. r.id == a && (r.uploader_id == author && is_null r.message_id))
              (λ r. record r { message_id = some id }) d.attachments;
      })
      id author rest

abbrev pub has_channel : Tables → Ident → Bool
has_channel d id = any (λ r. r.id == id) d.channels

abbrev pub has_user : Tables → Ident → Bool
has_user d id = any (λ r. r.id == id) d.users

abbrev pub with_nonce : Option Text → Option Message → Option Message
with_nonce given none = none
with_nonce given (some m) = some (record m { nonce = given })

-- `id < ?2`, the bound cast to `i64`.
abbrev pub is_before : Option Ident → Ident → Bool
is_before none id = ltb id (2 ^ 63 - 1)
is_before (some bound) id = ltb bound (2 ^ 63) && ltb id bound

-- The channel's messages before the bound, the newest first.
unfoldable pub newest_first : Tables → Ident → Option Ident → List MessageRow
unfolding sort_by
newest_first d channel before =
    sort_by (λ a b. leb b.id a.id)
      (filter (λ r. r.channel_id == channel && is_before before r.id) d.messages)

abbrev pub page_size : ℕ → ℕ
page_size limit = max 1 (min limit history_max)

abbrev pub with_attachments : Tables → MessageRow → Message
with_attachments d r = record (row_to_message r) { attachments = attachments_for d r.id }

-- `Db::history`
unfoldable pub history : Tables → Ident → Option Ident → ℕ → List Message × Bool
unfolding newest_first attachments_for
history d channel before limit =
    let rows = take (page_size limit + 1) (newest_first d channel before) in
    (
      map (with_attachments d) (reverse (take (page_size limit) rows)),
      leb (length rows) (page_size limit),
    )

-- `Db::delete_message`
unfoldable pub delete_message : Tables → Ident → Ident → Option Ident × Tables
delete_message d id author = elim (find (λ r. r.id == id && r.author_id == author) d.messages) [
  | none ↦ (none, d)
  | some r ↦ (
    some r.channel_id,
    record d {
      attachments = filter (λ a. not (is_value a.message_id id)) d.attachments;
      messages = filter (λ m. not (m.id == id)) d.messages;
    },
  )
]

-- Attachments

-- `Db::attachment`
unfoldable pub attachment : Tables → Ident → Option (Attachment × Bool)
attachment d id = elim (find (λ r. r.id == id) d.attachments) [
  | none ↦ none
  | some r ↦ some (row_to_attachment r, r.blob_deleted)
]

-- `SELECT DISTINCT`
abbrev pub distinct : List Text → List Text
distinct [] = []
distinct (s ∷ rest) = let more = distinct rest in s ∷ filter (λ t. not (text_eq t s)) more

-- `Db::expired_blobs`
unfoldable pub expired_blobs : Tables → Millis → List Text
expired_blobs d now = distinct (
    map (λ a. a.sha256)
      (filter
        (λ a.
          leb a.expires_at now
          && (not a.blob_deleted
              && not (
                  any (λ b. text_eq b.sha256 a.sha256)
                    (filter (λ b. ltb now b.expires_at) d.attachments))))
        d.attachments))

-- `Db::mark_blob_deleted`
unfoldable pub mark_blob_deleted : Tables → Text → Tables
mark_blob_deleted d sha256 = record d {
  attachments =
      update (λ a. text_eq a.sha256 sha256) (λ a. record a { blob_deleted = true }) d.attachments;
}

-- `Db::orphaned_blobs`
unfoldable pub orphaned_blobs : Tables → List Text → List Text
orphaned_blobs d known = filter (λ sha. not (any (λ a. text_eq a.sha256 sha) d.attachments)) known

-- `Db::edit_message`
unfoldable pub edit_message : Millis → Tables → Ident → Ident → Text → Option Message × Tables
unfolding message
edit_message now d id author content =
    let mine : MessageRow → Bool = λ r. r.id == id && r.author_id == author in
    if not (any mine d.messages)
    then (none, d)
    else (let d' = record d {
      messages = update mine (λ r. record r { content = content; edited_at = some now }) d.messages;
    } in
        (message d' id, d'))

module _ (next_rowid : List Ident → Ident) (now : Millis) where
  -- `Db::create_user`
  unfoldable pub create_user : Tables → Text → Text → Text → Option User × Tables
  create_user d name display_name password_hash =
      if any (λ r. eq_nocase r.name name) d.users
      then (none, d)
      else (let id = next_rowid (map (λ r. r.id) d.users) in
          (
            some (record { id = id; name = name; display_name = display_name; online = false }),
            record d {
              users =
                  d.users
                  ++ (record {
                    id = id;
                    name = name;
                    display_name = display_name;
                    password_hash = password_hash;
                    created_at = now;
                  }
                      ∷ []);
            },
          ))

  -- `Db::store_token`
  unfoldable pub store_token : Tables → Text → Ident → Text → Option (Unit {0}) × Tables
  store_token d token user agent =
      if any (λ r. text_eq r.token token) d.tokens || not (has_user d user) then (none, d) else (
        some tt,
        record d {
          tokens =
              d.tokens
              ++ (record { token = token; user_id = user; created_at = now; agent = agent } ∷ []);
        },
      )

  -- `Db::create_channel`
  unfoldable pub create_channel : Tables → Text → ChannelKind → Option Channel × Tables
  create_channel d name kind =
      let position = next_position (kind_str kind) d.channels in
      let id = next_rowid (map (λ r. r.id) d.channels) in
      (
        some (record { id = id; name = name; kind = kind; position = as_i32 position; topic = [] }),
        record d {
          channels =
              d.channels
              ++ (record {
                id = id;
                name = name;
                kind = kind_str kind;
                position = position;
                topic = [];
                created_at = now;
              }
                  ∷ []);
        },
      )

  -- `Db::insert_message`
  unfoldable pub insert_message :
      Tables → Ident → Ident → Text → Option Text → List Ident → Option Message × Tables
  unfolding existing message claim
  insert_message d channel author content nonce attachments = elim (existing d author nonce) [
    | some id ↦ (message d id, d)
    | none ↦
        if not (has_channel d channel && has_user d author)
        then (none, d)
        else (let id = next_rowid (map (λ r. r.id) d.messages) in
            let row : MessageRow = record {
              id = id;
              channel_id = channel;
              author_id = author;
              content = content;
              created_at = now;
              edited_at = none;
              nonce = nonce;
            } in
            let d' =
              claim (record d { messages = d.messages ++ (row ∷ []) }) id author attachments in
            (with_nonce nonce (message d' id), d'))
  ]

  -- `Db::insert_attachment`
  unfoldable pub insert_attachment :
      Tables → Ident → Text → ℕ → Text → ℕ → ℕ → Text → Option Attachment × Tables
  insert_attachment d uploader name size content_type width height sha256 =
      if not (has_user d uploader)
      then (none, d)
      else (let row : AttachmentRow = record {
        id = next_rowid (map (λ r. r.id) d.attachments);
        message_id = none;
        uploader_id = uploader;
        name = name;
        size = size;
        content_type = content_type;
        width = width;
        height = height;
        sha256 = sha256;
        created_at = now;
        expires_at = now + attachment_ttl_secs * 1000;
        blob_deleted = false;
      } in
          (some (row_to_attachment row), record d { attachments = d.attachments ++ (row ∷ []) }))
