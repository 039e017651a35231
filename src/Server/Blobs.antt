-- ===== src/Server/Blobs.antt =====
-- crates/boa-server/src/blobs.rs: the bytes of the attachments on disk, and the janitor. The disk is the
-- list of the files under the store's root, by name; the digest of the sha2 crate and what the file
-- system refuses to do are arguments.
pub mod Names
pub mod Labels
pub mod Sweep
use boa_voice.Prelude.{
  ℕ, ◌+◌, ◌/◌, ◌%◌, Bool, true, false, not, ◌&&◌, ◌||◌, Option, none, some, List, [], ◌∷◌, ◌++◌,
  ◌==◌, ltb, leb, if◌then◌else◌, length, take, map,
}
use boa_voice.Prelude.Lists.{filter}
use boa_voice.Prelude.Text.{Text, text, text_eq, trim, trim_start}
use boa_voice.Prelude.Text
use boa_voice.Proto.Model.{Millis}
use boa_voice.Server.Db
use boa_voice.Server.Db.{Tables, expired_blobs, mark_blob_deleted, orphaned_blobs}

abbrev pub Disk : Type 0
Disk = List (Text × List ℕ)

unfoldable pub file : Text → Disk → Option (List ℕ)
file name [] = none
file name ((n, bytes) ∷ rest) = if text_eq n name then some bytes else file name rest

unfoldable pub delete : Text → Disk → Disk
delete name [] = []
delete name ((n, bytes) ∷ rest) =
    let others = delete name rest in if text_eq n name then others else (n, bytes) ∷ others

-- `fs::write`
unfoldable pub write : Text → List ℕ → Disk → Disk
unfolding delete
write name bytes disk = (name, bytes) ∷ delete name disk

abbrev pub all : (ℕ → Bool) → List ℕ → Bool
all p [] = true
all p (c ∷ rest) = p c && all p rest

-- `u8::is_ascii_hexdigit`
abbrev pub is_hexdigit : ℕ → Bool
is_hexdigit c = (leb 48 c && leb c 57) || ((leb 65 c && leb c 70) || (leb 97 c && leb c 102))

-- The shape of a digest: 64 hexadecimal digits.
abbrev pub is_digest : Text → Bool
is_digest sha256 = length sha256 == 64 && all is_hexdigit sha256

-- `Blobs::path`: the directory and the name in it.
unfoldable pub path : Text → Option (Text × Text)
path sha256 = if is_digest sha256 then some (take 2 sha256, sha256) else none

abbrev pub hex_digit : ℕ → ℕ
hex_digit n = if ltb n 10 then 48 + n else 87 + n

-- `sha256_hex`, of the digest.
unfoldable pub hex : List ℕ → Text
hex [] = []
hex (b ∷ rest) = hex_digit (b / 16 % 16) ∷ hex_digit (b % 16) ∷ hex rest

-- `with_extension("part")` of a name without a dot.
abbrev pub part_of : Text → Text
part_of name = name ++ text ".part"

-- `Blobs::list`
unfoldable pub list : Disk → List Text
list disk = filter is_digest (map (λ f. f.0) disk)

-- `Blobs::read`
unfoldable pub read : Disk → Text → Option (List ℕ)
unfolding path file
read disk sha256 = elim (path sha256) [ none ↦ none | some p ↦ file p.1 disk ]

-- `Blobs::exists`
unfoldable pub exists : Disk → Text → Bool
unfolding read
exists disk sha256 = elim (read disk sha256) [ none ↦ false | some bytes ↦ true ]

-- What becomes of `fs::write`: all is written, the file cannot be opened, or so many bytes are written
-- before it fails.
pub data Written : Type 0 where
  finished unopened : Written
  stopped : ℕ → Written

-- What the file system does at a name, as `create_dir_all`, `fs::write` and `rename` meet it.
pub record FileSystem : Type 0 where
  pub no_directory : Text → Bool
  pub writes : Text → Written
  pub no_rename : Text → Bool

module _ (digest : List ℕ → List ℕ) where
  -- `fs::write(&temp, bytes)` in `Blobs::store`, of which `written` bytes reached the disk.
  unfoldable pub store_part : Disk → List ℕ → ℕ → Disk
  unfolding write hex
  store_part disk bytes written = write (part_of (hex (digest bytes))) (take written bytes) disk

module _ (fs : FileSystem) (digest : List ℕ → List ℕ) where
  -- The end of `Blobs::store`: the rename.
  abbrev pub store_renamed : Disk → List ℕ → Option Text × Disk
  store_renamed disk bytes =
      let sha256 = hex (digest bytes) in
      let temp = store_part digest disk bytes (length bytes) in
      if fs.no_rename sha256
      then (none, temp)
      else (some sha256, write sha256 bytes (delete (part_of sha256) temp))

  -- `Blobs::store` from the write on.
  abbrev pub store_written : Disk → List ℕ → Written → Option Text × Disk
  store_written disk bytes finished = store_renamed disk bytes
  store_written disk bytes unopened = (none, disk)
  store_written disk bytes (stopped n) = (none, store_part digest disk bytes n)

  -- `Blobs::store`: the answer and the disk, which an error leaves with what was written.
  unfoldable pub store : Disk → List ℕ → Option Text × Disk
  unfolding store_part exists path hex
  store disk bytes =
      let sha256 = hex (digest bytes) in
      elim (path sha256) [
        | none ↦ (none, disk)
        | some p ↦
            if exists disk sha256
            then (some sha256, disk)
            else if fs.no_directory p.0
            then (none, disk)
            else store_written disk bytes (fs.writes (part_of sha256))
      ]

module _ (stuck : Text → Bool) where
  -- `Blobs::remove`: a file that is not there is removed.
  unfoldable pub remove : Disk → Text → Option Disk
  unfolding path delete
  remove disk sha256 = elim (path sha256) [
    | none ↦ none
    | some p ↦ if stuck p.1 then none else some (delete p.1 disk)
  ]

  -- `for sha in db.expired_blobs(now)?`
  unfoldable pub drop_expired : Tables → Disk → List Text → (Tables × Disk) × ℕ
  unfolding remove
  drop_expired d disk [] = ((d, disk), 0)
  drop_expired d disk (sha ∷ rest) = elim (remove disk sha) [
    | none ↦ drop_expired d disk rest
    | some disk' ↦
        let (end, removed) = drop_expired (mark_blob_deleted d sha) disk' rest in (end, removed + 1)
  ]

  -- `for sha in db.orphaned_blobs(&on_disk)?`
  unfoldable pub drop_orphans : Disk → List Text → Disk × ℕ
  unfolding remove
  drop_orphans disk [] = (disk, 0)
  drop_orphans disk (sha ∷ rest) = elim (remove disk sha) [
    | none ↦ drop_orphans disk rest
    | some disk' ↦ let (end, removed) = drop_orphans disk' rest in (end, removed + 1)
  ]

  -- `sweep`
  unfoldable pub sweep : Tables → Disk → Millis → (Tables × Disk) × ℕ
  unfolding drop_expired drop_orphans list
  sweep d disk now =
      let ((d', disk'), removed) = drop_expired d disk (expired_blobs d now) in
      let (end, orphans) = drop_orphans disk' (orphaned_blobs d' (list disk')) in
      ((d', end), removed + orphans)

abbrev pub is_separator : ℕ → Bool
is_separator c = c == 47 || c == 92

abbrev pub separated : Text → Bool
separated [] = false
separated (c ∷ rest) = is_separator c || separated rest

-- `name.rsplit(['/', '\\']).next()`
abbrev pub base_name : Text → Text
base_name [] = []
base_name (c ∷ rest) =
    let tail = base_name rest in if is_separator c || separated rest then tail else c ∷ tail

-- `char::is_control`: the code points of category Cc.
abbrev pub is_control : ℕ → Bool
is_control c = ltb c 32 || (leb 127 c && leb c 159)

-- `sanitise_name`
unfoldable pub sanitise_name : Text → Text
unfolding trim trim_start
sanitise_name name =
    let cleaned = take 200 (
      filter (λ c. not (is_control c) && (not (c == 34) && (not (c == 10) && not (c == 13))))
        (base_name name)) in
    let trimmed = trim_start (λ c. c == 46) (trim cleaned) in
    if Text.is_empty trimmed then text "attachment" else trimmed
