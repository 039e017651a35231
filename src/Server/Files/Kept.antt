-- ===== src/Server/Files/Kept.antt =====
-- An upload and then its download, crates/boa-server/src/http.rs, db.rs and blobs.rs together.
use boa_voice.Prelude.{
  ℕ, ◌+◌, ◌*◌, ◌≡◌, refl, ap, ◌∙◌, true, false, Option, none, some, List, [], ◌∷◌, ◌++◌, ◌==◌, ltb,
  length, map, arith, inr, ◌⊎◌,
}
use boa_voice.Prelude.Lists.{any}
use boa_voice.Prelude.Text.{Text}
use boa_voice.Prelude.Text
use boa_voice.Proto.Model.{Ident, Millis, Attachment}
use boa_voice.Server.Db.{
  Tables, AttachmentRow, user, user_for_token, attachment, insert_attachment, attachment_ttl_secs,
  has_user, row_to_attachment,
}
use boa_voice.Server.Blobs.{Disk, FileSystem, hex, store, read, sanitise_name}
use boa_voice.Server.Blobs.Names.{Sound, Stores-read, Accepts, store-Reads}
use boa_voice.Server.Accounts.{authenticate}
use boa_voice.Server.Accounts.Login.{find_last}
use boa_voice.Server.Files.{upload, keep, recorded, stored_as, download, served, content_type_for}

module _ (digest : List ℕ → List ℕ) (image_dimensions : List ℕ → ℕ × ℕ)
    (next_rowid : List Ident → Ident) (now : Millis) (max_upload_bytes : ℕ) (d : Tables)
    (uploader : Ident) (raw : Text) (body : List ℕ) where
  -- The row of an upload.
  abbrev pub new_attachment : AttachmentRow
  new_attachment = record {
    id = next_rowid (map (λ r. r.id) d.attachments);
    message_id = none;
    uploader_id = uploader;
    name = sanitise_name raw;
    size = length body;
    content_type = content_type_for (sanitise_name raw);
    width = (image_dimensions body).0;
    height = (image_dimensions body).1;
    sha256 = hex (digest body);
    created_at = now;
    expires_at = now + attachment_ttl_secs * 1000;
    blob_deleted = false;
  }

  abbrev pub with_attachment : Tables
  with_attachment = record d { attachments = d.attachments ++ (new_attachment ∷ []) }

  inserted :
      has_user d uploader ≡ true
      → insert_attachment next_rowid now d uploader
          (sanitise_name raw)
          (length body)
          (content_type_for (sanitise_name raw))
          (image_dimensions body).0
          (image_dimensions body).1
          (hex (digest body))
        ≡ (some (row_to_attachment new_attachment), with_attachment)
  unfolding insert_attachment
  inserted known = rw (known, insert_attachment) refl

  module _ (fs : FileSystem) where
    kept :
        (disk disk' : Disk)
        → store fs digest disk body ≡ (some (hex (digest body)), disk')
        → has_user d uploader ≡ true
        → keep fs digest image_dimensions next_rowid now max_upload_bytes d disk uploader raw body
          ≡ (inr (row_to_attachment new_attachment), (with_attachment, disk'))
    unfolding keep
    kept disk disk' stored known =
        ap
          (stored_as fs digest image_dimensions next_rowid now max_upload_bytes d uploader
            (sanitise_name raw) body)
          stored
        ∙ ap (recorded fs digest image_dimensions next_rowid now max_upload_bytes disk')
            (inserted known)

    uploaded :
        (disk : Disk) (header token : Option Text)
        → authenticate d header token ≡ inr uploader
        → Text.is_empty body ≡ false
        → ltb max_upload_bytes (length body) ≡ false
        → upload fs digest image_dimensions next_rowid now max_upload_bytes d disk header token raw
            body
          ≡ keep fs digest image_dimensions next_rowid now max_upload_bytes d disk uploader raw body
    unfolding upload
    uploaded disk header token known full small = rw (known, full, small, upload) refl

    found :
        any (λ r. r.id == new_attachment.id) d.attachments ≡ false
        → attachment with_attachment new_attachment.id
          ≡ some (row_to_attachment new_attachment, false)
    unfolding attachment
    found fresh =
        rw
          (
            find_last (λ r. r.id == new_attachment.id) d.attachments new_attachment fresh
                (ground arith),
            attachment,
          )
          refl

    same_caller :
        (header token : Option Text)
        → authenticate with_attachment header token ≡ authenticate d header token
    unfolding authenticate user_for_token user
    same_caller header token = refl

    downloaded :
        (disk : Disk) (header token : Option Text) (caller id : Ident) (a : Attachment)
        → authenticate with_attachment header token ≡ inr caller
        → attachment with_attachment id ≡ some (a, false)
        → download with_attachment disk header token id ≡ served a (read disk a.sha256)
    unfolding download
    downloaded disk header token caller id a known e = rw (known, e, download) refl

    -- On a sound disk, an upload of an account that exists and authenticates, neither empty nor too large,
    -- under a number that is not in use, which the file system accepts or has already, is recorded under the
    -- sanitised name; and the same credentials download it, as a file of the type that the name says, with
    -- bytes of the same digest.
    pub upload_then_download :
        (width : (bytes : List ℕ) → length (digest bytes) ≡ 32) (disk : Disk)
        (header token : Option Text)
        → Sound digest width disk
        → (Accepts digest width fs body ⊎ ((c : List ℕ) × (read disk (hex (digest body)) ≡ some c)))
        → authenticate d header token ≡ inr uploader
        → has_user d uploader ≡ true
        → Text.is_empty body ≡ false
        → ltb max_upload_bytes (length body) ≡ false
        → any (λ r. r.id == new_attachment.id) d.attachments ≡ false
        → (disk' : Disk) × (upload fs digest image_dimensions next_rowid now max_upload_bytes d disk
              header token raw body
            ≡ (inr (row_to_attachment new_attachment), (with_attachment, disk')))
          × ((content : List ℕ) × (download with_attachment disk' header token new_attachment.id
                ≡ served (row_to_attachment new_attachment) (some content))
              × (hex (digest content) ≡ hex (digest body)))
    upload_then_download width disk header token sound room caller known full small fresh =
        let (reads, answers, halfway) = store-Reads digest width fs disk body sound in
        let (disk', stored, (content, readable, same)) =
          Stores-read digest width body (store fs digest disk body) reads (answers room) in
        (
          disk',
          uploaded disk header token caller full small ∙ kept disk disk' stored known,
          (
            content,
            downloaded disk' header token uploader new_attachment.id
                  (row_to_attachment new_attachment) (same_caller header token ∙ caller)
                  (found fresh)
                ∙ ap (served (row_to_attachment new_attachment)) readable,
            same,
          ),
        )
