-- ===== src/Server/Files.antt =====
-- The attachments of crates/boa-server/src/http.rs: `upload` and `download`, and `content_type_for` of
-- crates/boa-server/src/blobs.rs. The size of an image, which the image crate reads, and what the file
-- system does are arguments.
pub mod Kept
use boa_voice.Prelude.{
  ℕ, ◌+◌, ◌*◌, ◌/◌, Bool, true, false, not, ◌&&◌, ◌||◌, Option, none, some, List, [], ◌∷◌, ◌++◌,
  ◌==◌, ltb, leb, if◌then◌else◌, length, ◌⊎◌, inl, inr, map,
}
use boa_voice.Prelude.Lists.{any}
use boa_voice.Prelude.Text.{Text, text, text_eq, decimal}
use boa_voice.Prelude.Text
use boa_voice.Proto.Model.{Ident, Millis, Attachment}
use boa_voice.Server.Db.{Tables, attachment, insert_attachment, attachment_ttl_secs}
use boa_voice.Server.Db.Rows.{lower}
use boa_voice.Server.Blobs.{Disk, FileSystem, store, read, sanitise_name}
use boa_voice.Server.Accounts.{Failure, authenticate, bad, internal}

-- What an upload or a download is refused with, beside the failures of the accounts.
pub data Refusal : Type 0 where
  failed : Failure → Refusal
  payload_too_large : Text → Refusal
  not_found : Text → Refusal
  gone : Text → Refusal

abbrev pub has_dot : Text → Bool
has_dot s = any (λ c. c == 46) s

-- What follows the last dot, where there is one.
abbrev pub after_dot : Text → Text
after_dot [] = []
after_dot (c ∷ rest) =
    let tail = after_dot rest in if has_dot rest then tail else if c == 46 then rest else []

-- `Path::extension` of a name without separators: nothing where the only dot is the first character.
abbrev pub extension : Text → Text
extension [] = []
extension (c ∷ rest) = if has_dot rest then after_dot rest else []

abbrev pub is_one_of : List Text → Text → Bool
is_one_of names s = any (λ n. text_eq n s) names

-- The table of `content_type_for`, in the code's order.
abbrev pub types_by_extension : List (List Text × Text)
types_by_extension =
    (text "png" ∷ [], text "image/png")
    ∷ (text "jpg" ∷ text "jpeg" ∷ [], text "image/jpeg")
    ∷ (text "gif" ∷ [], text "image/gif")
    ∷ (text "webp" ∷ [], text "image/webp")
    ∷ (text "bmp" ∷ [], text "image/bmp")
    ∷ (text "mp4" ∷ [], text "video/mp4")
    ∷ (text "webm" ∷ [], text "video/webm")
    ∷ (text "mov" ∷ [], text "video/quicktime")
    ∷ (text "mp3" ∷ [], text "audio/mpeg")
    ∷ (text "ogg" ∷ text "opus" ∷ [], text "audio/ogg")
    ∷ (text "flac" ∷ [], text "audio/flac")
    ∷ (text "wav" ∷ [], text "audio/wav")
    ∷ (text "pdf" ∷ [], text "application/pdf")
    ∷ (text "txt" ∷ text "log" ∷ text "md" ∷ [], text "text/plain")
    ∷ (text "zip" ∷ [], text "application/zip")
    ∷ []

abbrev pub look_up : List (List Text × Text) → Text → Text
look_up [] s = text "application/octet-stream"
look_up ((names, kind) ∷ rest) s =
    let other = look_up rest s in if is_one_of names s then kind else other

-- `content_type_for`
unfoldable pub content_type_for : Text → Text
content_type_for name = look_up types_by_extension (map lower (extension name))

-- The response to a download: its headers and its body.
pub record Download : Type 0 where
  pub content_type : Text
  pub content_disposition : Text
  pub cache_control : Text
  pub etag : Text
  pub bytes : List ℕ

module _ (fs : FileSystem) (digest : List ℕ → List ℕ) (image_dimensions : List ℕ → ℕ × ℕ)
    (next_rowid : List Ident → Ident) (now : Millis) (max_upload_bytes : ℕ) where
  -- What `upload` makes of the answer of `insert_attachment`.
  abbrev pub recorded : Disk → Option Attachment × Tables → (Refusal ⊎ Attachment) × (Tables × Disk)
  recorded disk (none, d) = (inl (failed internal), (d, disk))
  recorded disk (some a, d) = (inr a, (d, disk))

  -- What `upload` makes of the answer of the blob store, and of the disk as that leaves it.
  abbrev pub stored_as :
      Tables → Ident → Text → List ℕ → Option Text × Disk → (Refusal ⊎ Attachment) × (Tables × Disk)
  stored_as d uploader name body (none, disk) = (inl (failed internal), (d, disk))
  stored_as d uploader name body (some sha256, disk) = recorded disk (
      insert_attachment next_rowid now d uploader name (length body) (content_type_for name)
        (image_dimensions body).0 (image_dimensions body).1 sha256)

  -- `upload`, past its checks.
  unfoldable pub keep :
      Tables → Disk → Ident → Text → List ℕ → (Refusal ⊎ Attachment) × (Tables × Disk)
  unfolding sanitise_name content_type_for store insert_attachment
  keep d disk uploader raw body =
      stored_as d uploader (sanitise_name raw) body (store fs digest disk body)

  -- `upload`
  unfoldable pub upload :
      Tables
      → Disk
      → Option Text
      → Option Text
      → Text
      → List ℕ
      → (Refusal ⊎ Attachment) × (Tables × Disk)
  unfolding authenticate keep
  upload d disk header token raw body = elim (authenticate d header token) [
    | inl failure ↦ (inl (failed failure), (d, disk))
    | inr uploader ↦
        if Text.is_empty body
        then (inl (failed (bad (text "an empty upload"))), (d, disk))
        else if ltb max_upload_bytes (length body)
        then (
          inl (
              payload_too_large (
                text "the limit here is "
                ++ (decimal (max_upload_bytes / 1024 / 1024) ++ text " MB"))),
          (d, disk),
        )
        else keep d disk uploader raw body
  ]

abbrev pub days_are_up : Text
days_are_up =
    text "that attachment's "
    ++ (decimal (attachment_ttl_secs / 86400)
        ++ text " days on the server are up; whoever had it open still has their own copy")

-- What `download` makes of the answer of the blob store.
abbrev pub served : Attachment → Option (List ℕ) → Refusal ⊎ Download
served a none = inl (gone (text "the bytes for that attachment are missing"))
served a (some bytes) = inr (record {
  content_type = a.content_type;
  content_disposition = text "attachment; filename=\"" ++ (a.name ++ text "\"");
  cache_control = text "private, max-age=604800, immutable";
  etag = text "\"" ++ (a.sha256 ++ text "\"");
  bytes = bytes;
})

-- `download` of the row that was found.
abbrev pub answer : Disk → Option (Attachment × Bool) → Refusal ⊎ Download
answer disk none = inl (not_found (text "no such attachment"))
answer disk (some (a, true)) = inl (gone days_are_up)
answer disk (some (a, false)) = served a (read disk a.sha256)

-- `download`
unfoldable pub download : Tables → Disk → Option Text → Option Text → Ident → Refusal ⊎ Download
unfolding authenticate attachment
download d disk header token id = elim (authenticate d header token) [
  | inl failure ↦ inl (failed failure)
  | inr caller ↦ answer disk (attachment d id)
]
