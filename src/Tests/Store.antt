-- ===== src/Tests/Store.antt =====
-- The database, the blobs and the accounts at fixed inputs: crates/boa-server/src/db.rs, blobs.rs and
-- http.rs.
use boa_voice.Prelude.{
  ℕ, ◌+◌, ◌≡◌, ◌≢◌, refl, ◌≤◌, ◌↔◌, true, false, Option, none, some, List, [], ◌∷◌, ◌++◌, ◌==◌,
  ◌&&◌, if◌then◌else◌, max, map, arith, length, min, replicate, ◌⊎◌, inl, inr, Bool,
}
use boa_voice.Prelude.Map.{get, modify}
use boa_voice.Prelude.Sets.{contains}
use boa_voice.Prelude.Int.{pos}
use mathlib.Core.List.{Perm}
use boa_voice.Prelude.Lists.{find, any, filter}
use boa_voice.Prelude.Text.{
  Text, text, trim, is_whitespace, is_empty, text_eq, text_le, text_eq_iff, trim_start,
}
use boa_voice.Prelude.Sorting.{sort_by, insert_sorted}
use boa_voice.Proto.Model.{Ident, Message, Channel, text_kind}
use boa_voice.Proto.Control.{ClientMsg, ServerMsg}
use boa_voice.Server.Hub
use boa_voice.Server.Hub.{deliver}
use boa_voice.Server.Hub.Inv.{apply}
use boa_voice.Server.Session.{World, max_content, go_on, handle, send_message, store_message}
use boa_voice.Server.Db
use boa_voice.Server.Db.{
  Tables, MessageRow, AttachmentRow, new_tables, parse_kind, has_channel, insert_message,
  edit_message, delete_message, history, existing, message, claim, channel, channels,
  attachments_for, create_user, user, user_for_token, has_user, row_to_attachment, store_token,
}
use boa_voice.Server.Db.Authors.{row_of, UniqueIds}
use boa_voice.Server.Db.Attached.{Intact, others_kept}
use boa_voice.Server.Db.Posting.{given, sent_row, sent_message, send_message-posted}
use boa_voice.Server.Db.History.{asked, full, OldestFirst, history_page}
use boa_voice.Server.Db.Instance.{sqlite, resent}
use boa_voice.Server.Blobs.{
  Disk, FileSystem, finished, stopped, path, exists, file, hex, read, store, store_part, sweep, all,
  sanitise_name,
}
use boa_voice.Server.Blobs.Sweep.{is_live, is_accounted, sweep_keeps_live, sweep_clears}
use boa_voice.Server.Blobs.Names.{Sound, Stores, Accepts, store-Reads}
use boa_voice.Server.Blobs.Labels.{is_plain, starts_with_dot, sanitise_name-plain}
use boa_voice.Server.Accounts.{
  Credentials, Failure, Session, register, login, open_account, check_name_rules,
  check_password_rules, normalise_name, issue_token,
}
use boa_voice.Server.Accounts.Login.{register_then_login}
use boa_voice.Server.Accounts.{authenticate}
use boa_voice.Server.Files.{upload, download, served}
use boa_voice.Server.Files.Kept.{new_attachment, with_attachment, upload_then_download}
use boa_voice.Tests.Session.{ana, env}

-- A number past those in use while the rows are numbered from one.
abbrev next : List Ident → Ident
next ids = length ids + 1

abbrev row : Ident → Ident → MessageRow
row id author = record {
  id = id;
  channel_id = 4;
  author_id = author;
  content = text "hi";
  created_at = 5;
  edited_at = none;
  nonce = none;
}

-- Accounts 1 and 2, one channel, two messages.
abbrev filled : Tables
filled = record {
  users =
      record { id = 1; name = text "ana"; display_name = []; password_hash = []; created_at = 1 }
      ∷ record { id = 2; name = text "bo"; display_name = []; password_hash = []; created_at = 2 }
      ∷ [];
  tokens = [];
  channels =
      record {
        id = 4;
        name = text "general";
        kind = text "text";
        position = 0;
        topic = [];
        created_at = 3;
      }
      ∷ [];
  messages = row 1 1 ∷ row 2 2 ∷ [];
  attachments = [];
}

filled-UniqueIds : UniqueIds filled.messages
unfolding find
filled-UniqueIds = (refl, (refl, tt))

second_row : row_of filled 2 ≡ some (row 2 2)
unfolding find
second_row = refl

-- Account 2 has sent one upload and not the other; account 1 asks for both.
abbrev upload_of : ℕ → Option Ident → AttachmentRow
upload_of id message = record {
  id = id;
  message_id = message;
  uploader_id = 2;
  name = text "a.txt";
  size = 3;
  content_type = text "text/plain";
  width = 0;
  height = 0;
  sha256 = replicate 64 97;
  created_at = 1;
  expires_at = 100;
  blob_deleted = false;
}

abbrev with_uploads : Tables
with_uploads = record filled { attachments = upload_of 1 (some 2) ∷ upload_of 2 none ∷ [] }

number_new :
    contains (map (λ r. r.id) with_uploads.messages) (next (map (λ r. r.id) with_uploads.messages))
    ≡ false
unfolding contains
number_new = refl

others_kept_example :
    Intact 1 2
      (row 2 2)
      with_uploads
      (insert_message next 9 with_uploads 4 1 (text "x") none (1 ∷ 2 ∷ [])).1
    × Intact 1 2 (row 2 2) with_uploads (edit_message 9 with_uploads 2 1 (text "x")).1
    × Intact 1 2 (row 2 2) with_uploads (delete_message with_uploads 2 1).1
others_kept_example =
    others_kept next 9 with_uploads filled-UniqueIds number_new 4 1 2 2 (text "x") none (1 ∷ 2 ∷ [])
      (row 2 2) second_row (omega arith)

history_page_example :
    (rows : List MessageRow) × Perm rows (filter (asked 4 none) filled.messages)
    × OldestFirst rows
    × ((older : List Message) × (older ++ (history filled 4 none 1).0 ≡ map (full filled) rows)
        × (length (history filled 4 none 1).0 ≡ min (max 1 (min 1 200)) (length rows))
        × (((history filled 4 none 1).1 ≡ true) ↔ (older ≡ [])))
history_page_example = history_page filled 4 1 none

abbrev here : World Tables
here = record { hub = Hub.empty; db = filled; conn = 1; user = ana; last_typing = [] }

abbrev sending : ClientMsg
sending = ClientMsg.send_message 4 (text "hi") (text "n1") []

abbrev once : World Tables
once = elim (handle (sqlite next 10) env here sending) [ none ↦ here | some r ↦ r.1 ]

abbrev reconnected : World Tables
reconnected = record { hub = Hub.empty; db = once.db; conn = 2; user = ana; last_typing = [] }

abbrev twice_sent : World Tables
twice_sent = elim (handle (sqlite next 99) env reconnected sending) [
  | none ↦ reconnected
  | some r ↦ r.1
]

first_send : handle (sqlite next 10) env here sending ≡ some (go_on, once)
unfolding handle send_message store_message trim trim_start is_whitespace insert_message existing
    message claim channel channels attachments_for sort_by insert_sorted find any filter text_eq
    text_le Hub.send_to_conn Hub.broadcast_except Hub.deliver_except modify
first_send = refl

second_send : handle (sqlite next 99) env reconnected sending ≡ some (go_on, twice_sent)
unfolding handle send_message store_message trim trim_start is_whitespace insert_message existing
    message claim channel channels attachments_for sort_by insert_sorted find any filter text_eq
    text_le Hub.send_to_conn Hub.broadcast_except Hub.deliver_except modify
second_send = refl

resent_example : twice_sent.db ≡ once.db
resent_example =
    resent 4 (text "hi") [] next (text "n1") env env 10 99 here once reconnected twice_sent go_on
      go_on refl first_send refl refl second_send

hi-short : length (trim (text "hi")) ≤ max_content
unfolding trim trim_start is_whitespace
hi-short = omega arith

hi-there : trim (text "hi") ≢ []
unfolding trim trim_start is_whitespace
hi-there e = cc

abbrev general : Channel
general = record { id = 4; name = text "general"; kind = text_kind; position = pos 0; topic = [] }

general_there : channel filled 4 ≡ some (some general)
unfolding channel channels sort_by insert_sorted find any text_eq parse_kind
general_there = refl

known_both : (has_channel filled 4 && has_user filled 1) ≡ true
unfolding any
known_both = refl

nonce_new : existing filled 1 (given (text "n1")) ≡ none
unfolding existing find text_eq
nonce_new = refl

send_message-posted_example :
    (w' : World Tables) × (handle (sqlite next 10) env here sending ≡ some (go_on, w'))
    × (w'.db.messages
        ≡ filled.messages ++ (sent_row next 10 env here 4 (text "hi") (text "n1") [] ∷ []))
    × ((i : ℕ)
        → get i w'.hub.conns ≡ (
            if 1 == i
            then apply
                (deliver (
                  ServerMsg.message_create
                    (record (sent_message next 10 env here 4 (text "hi") (text "n1") []) {
                      nonce = given (text "n1");
                    })))
                (get i here.hub.conns)
            else apply
                (deliver (
                  ServerMsg.message_create
                    (sent_message next 10 env here 4 (text "hi") (text "n1") [])))
                (get i here.hub.conns)))
send_message-posted_example =
    send_message-posted next 10 env here 4 (text "hi") (text "n1") [] general hi-short (omega arith)
      (inl hi-there) general_there known_both nonce_new number_new

-- An attachment that expires at 100.
abbrev shot : Bool → AttachmentRow
shot deleted = record {
  id = 1;
  message_id = some 1;
  uploader_id = 1;
  name = text "shot.png";
  size = 3;
  content_type = text "image/png";
  width = 1;
  height = 1;
  sha256 = replicate 64 97;
  created_at = 1;
  expires_at = 100;
  blob_deleted = deleted;
}

abbrev with_shot : Tables
with_shot = record filled { attachments = shot false ∷ [] }

abbrev disk : Disk
disk = (replicate 64 97, 1 ∷ 2 ∷ 3 ∷ []) ∷ []

abbrev never : Text → Bool
never name = false

shot-is_live : is_live with_shot 50 (replicate 64 97) ≡ true
unfolding any text_eq
shot-is_live = refl

sweep_keeps_live_example :
    file (replicate 64 97) (sweep never with_shot disk 50).0.1 ≡ file (replicate 64 97) disk
sweep_keeps_live_example = sweep_keeps_live never with_shot disk 50 (replicate 64 97) shot-is_live

shot-is_loose : is_accounted with_shot 100 (replicate 64 97) ≡ false
unfolding any text_eq
shot-is_loose = refl

sweep_clears_example : file (replicate 64 97) (sweep never with_shot disk 100).0.1 ≡ none
sweep_clears_example =
    sweep_clears never (replicate 64 97) refl refl with_shot disk 100 shot-is_loose

-- A digest that keeps the first byte.
abbrev short_digest : List ℕ → List ℕ
short_digest [] = replicate 32 0
short_digest (b ∷ rest) = b ∷ replicate 31 0

short_digest-width : (bytes : List ℕ) → length (short_digest bytes) ≡ 32
short_digest-width [] = refl
short_digest-width (b ∷ rest) = refl

nothing_stored-Sound : Sound short_digest short_digest-width []
unfolding file
nothing_stored-Sound name bytes good held = cc

-- A file system on which everything works, and one that is full.
abbrev roomy : FileSystem
roomy = record { no_directory = λ n. false; writes = λ n. finished; no_rename = λ n. false }

abbrev crowded : FileSystem
crowded = record { no_directory = λ n. false; writes = λ n. stopped 1; no_rename = λ n. false }

full_disk : (store crowded short_digest [] (7 ∷ 8 ∷ [])).0 ≡ none
unfolding store path exists read file hex
full_disk = refl

store-Reads_example :
    Stores short_digest short_digest-width (7 ∷ 8 ∷ []) (store roomy short_digest [] (7 ∷ 8 ∷ []))
    × ((Accepts short_digest short_digest-width roomy (7 ∷ 8 ∷ [])
          ⊎ ((c : List ℕ) × (read [] (hex (short_digest (7 ∷ 8 ∷ []))) ≡ some c)))
        → (store roomy short_digest [] (7 ∷ 8 ∷ [])).0 ≡ some (hex (short_digest (7 ∷ 8 ∷ []))))
    × ((written : ℕ)
        → Sound short_digest short_digest-width (store_part short_digest [] (7 ∷ 8 ∷ []) written))
store-Reads_example =
    store-Reads short_digest short_digest-width roomy [] (7 ∷ 8 ∷ []) nothing_stored-Sound

sanitise_name-plain_example :
    (all is_plain (sanitise_name (text "../..\\.hidden")) ≡ true)
    × (is_empty (sanitise_name (text "../..\\.hidden")) ≡ false)
    × (starts_with_dot (sanitise_name (text "../..\\.hidden")) ≡ false)
    × (length (sanitise_name (text "../..\\.hidden")) ≤ 200)
sanitise_name-plain_example = sanitise_name-plain (text "../..\\.hidden")

abbrev form : Credentials
form = record {
  name = text "ada";
  password = text "correct horse battery";
  display_name = [];
  agent = [];
}

-- A hash that keeps the password.
abbrev plain_hash : Text → Option Text
plain_hash password = some password

abbrev plain_verify : Text → Text → Bool
plain_verify password hash = text_eq password hash

abbrev unfolded : Text → Text
unfolded name = name

abbrev opened : (Failure ⊎ Session) × Tables
opened = register unfolded plain_hash plain_verify next 7 true filled form (text "t1")

abbrev ada : Session
ada = record {
  token = text "t1";
  user = record { id = 3; name = text "ada"; display_name = text "ada"; online = false };
}

opens :
    register unfolded plain_hash plain_verify next 7 true filled form (text "t1")
    ≡ (inr ada, opened.1)
unfolding register open_account check_name_rules check_password_rules normalise_name trim trim_start
    is_whitespace create_user issue_token store_token any text_eq Db.is_empty
opens = refl

second_token-unused : any (λ r. text_eq r.token (text "t2")) opened.1.tokens ≡ false
unfolding register open_account check_name_rules check_password_rules normalise_name trim trim_start
    is_whitespace create_user issue_token store_token any text_eq Db.is_empty
second_token-unused = refl

plain-honest :
    (password hash : Text) → plain_hash password ≡ some hash → plain_verify password hash ≡ true
plain-honest password hash e = (text_eq_iff password hash).1 (same e)
  where
    same : some password ≡ some hash → password ≡ hash
    same e = cc

next-positive : (ids : List Ident) → next ids ≢ 0
next-positive ids e = omega (arith, e)

register_then_login_example :
    (login unfolded plain_hash plain_verify next 7 opened.1 form (text "t2")).0
    ≡ inr (record { token = text "t2"; user = ada.user })
register_then_login_example =
    register_then_login unfolded plain_hash plain_verify next 7 true filled opened.1 form
      (text "t1") (text "t2") ada plain-honest next-positive opens second_token-unused

-- A token of account 1.
abbrev signed_in : Tables
signed_in = record filled {
  tokens = record { token = text "t9"; user_id = 1; created_at = 4; agent = [] } ∷ [];
}

abbrev no_image : List ℕ → ℕ × ℕ
no_image bytes = (0, 0)

by_token : authenticate signed_in none (some (text "t9")) ≡ inr 1
unfolding authenticate user_for_token user find text_eq
by_token = refl

account_there : has_user signed_in 1 ≡ true
unfolding any
account_there = refl

first_upload :
    any
      (λ r.
        r.id
        == (new_attachment short_digest no_image next 7 100 signed_in 1
            (text "a.txt")
            (7 ∷ 8 ∷ [])).id)
      signed_in.attachments
    ≡ false
unfolding any
first_upload = refl

upload_then_download_example :
    (after : Disk) × (upload roomy short_digest no_image next 7 100 signed_in [] none
        (some (text "t9"))
        (text "a.txt")
        (7 ∷ 8 ∷ [])
      ≡ (
        inr (
            row_to_attachment (
              new_attachment short_digest no_image next 7 100 signed_in 1
                (text "a.txt")
                (7 ∷ 8 ∷ []))),
        (
          with_attachment short_digest no_image next 7 100 signed_in 1 (text "a.txt") (7 ∷ 8 ∷ []),
          after,
        ),
      ))
    × ((content : List ℕ) × (download
            (with_attachment short_digest no_image next 7 100 signed_in 1
              (text "a.txt")
              (7 ∷ 8 ∷ []))
            after
            none
            (some (text "t9"))
            1
          ≡ served
              (row_to_attachment (
                new_attachment short_digest no_image next 7 100 signed_in 1
                  (text "a.txt")
                  (7 ∷ 8 ∷ [])))
              (some content))
        × (hex (short_digest content) ≡ hex (short_digest (7 ∷ 8 ∷ []))))
upload_then_download_example =
    upload_then_download short_digest no_image next 7 100 signed_in 1 (text "a.txt") (7 ∷ 8 ∷ [])
      roomy short_digest-width [] none (some (text "t9")) nothing_stored-Sound
      (inl (refl, refl, refl)) by_token account_there refl refl first_upload
