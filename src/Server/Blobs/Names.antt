-- ===== src/Server/Blobs/Names.antt =====
-- What a blob is called and when its bytes can be read: `store` and `read` of
-- crates/boa-server/src/blobs.rs.
use boa_voice.Prelude.{
  ℕ, ◌*◌, ◌%◌, ◌/◌, ◌<◌, ◌≡◌, refl, sym, ap, ◌∙◌, Bool, true, false, Option, none, some, subst,
  List, [], ◌∷◌, if◌then◌else◌, arith, Bool-cases, Option-cases, inl, inr, ◌⊎◌, length, take,
  length-append,
}
use boa_voice.Prelude.Text.{Text, text, text_eq, text_eq_iff}
use boa_voice.Server.Blobs.{
  Disk, file, delete, write, is_digest, is_hexdigit, all, hex_digit, hex, part_of, path, read,
  exists, store, store_part, store_written, store_renamed, FileSystem, Written, finished, unopened,
  stopped,
}
use boa_voice.Server.Blobs.Sweep.{file-delete}

hex_digit-is_hexdigit : (n : ℕ) → n < 16 → is_hexdigit (hex_digit n) ≡ true
hex_digit-is_hexdigit n h = ground arith

hex-shape : (ds : List ℕ) → (length (hex ds) ≡ 2 * length ds) × (all is_hexdigit (hex ds) ≡ true)
unfolding hex
hex-shape [] = (refl, refl)
hex-shape (b ∷ rest) =
    let (l, a) = hex-shape rest in
    (
      omega (arith, l),
      rw
          (
            hex_digit-is_hexdigit (b / 16 % 16) (omega arith),
            hex_digit-is_hexdigit (b % 16) (omega arith),
          )
          a,
    )

-- A digest of 32 bytes has a name that `path` takes.
hex-is_digest : (ds : List ℕ) → length ds ≡ 32 → is_digest (hex ds) ≡ true
hex-is_digest ds e = let (l, a) = hex-shape ds in ground arith

file-write :
    (f g : Text) (bytes : List ℕ) (disk : Disk)
    → file f (write g bytes disk) ≡ (if text_eq g f then some bytes else file f disk)
unfolding write file
file-write f g bytes disk = ground (arith, file-delete f g disk)

read-file : (disk : Disk) (name : Text) → is_digest name ≡ true → read disk name ≡ file name disk
unfolding read path
read-file disk name good = rw (good, path, read) refl

module _ (fs : FileSystem) (digest : List ℕ → List ℕ) (disk : Disk) (bytes : List ℕ)
    (good : is_digest (hex (digest bytes)) ≡ true) where
  store-known :
      (c : List ℕ)
      → read disk (hex (digest bytes)) ≡ some c
      → store fs digest disk bytes ≡ (some (hex (digest bytes)), disk)
  unfolding store path exists
  store-known c e = rw (good, e, store, path, exists) refl

  store-new :
      read disk (hex (digest bytes)) ≡ none
      → store fs digest disk bytes ≡ (
          if fs.no_directory (take 2 (hex (digest bytes)))
          then (none, disk)
          else store_written fs digest disk bytes (fs.writes (part_of (hex (digest bytes)))))
  unfolding store path exists
  store-new e = rw (good, e, store, path, exists) refl

module _ (digest : List ℕ → List ℕ) (width : (bytes : List ℕ) → length (digest bytes) ≡ 32) where
  -- Whatever has the name of a blob has the bytes that the name stands for.
  abbrev pub Sound : Disk → Type 0
  Sound disk =
      (name : Text) (bytes : List ℕ)
      → is_digest name ≡ true
      → file name disk ≡ some bytes
      → hex (digest bytes) ≡ name

  part-is_digest : (name : Text) → is_digest name ≡ true → is_digest (part_of name) ≡ false
  part-is_digest name good = ground (arith, length-append name (text ".part"))

  store_part-Sound :
      (disk : Disk) (bytes : List ℕ) (written : ℕ)
      → Sound disk
      → Sound (store_part digest disk bytes written)
  unfolding store_part
  store_part-Sound disk bytes written sound name content good held = sound name content good (
      sym (
        untouched (part_of (hex (digest bytes)))
          (clear (hex-is_digest (digest bytes) (width bytes))))
      ∙ held)
    where
      clash : false ≡ true → ⊥
      clash e = cc

      untouched :
          (temp : Text)
          → text_eq temp name ≡ false
          → file name (write temp (take written bytes) disk) ≡ file name disk
      untouched temp differ = file-write name temp (take written bytes) disk ∙ rw differ refl

      clear :
          is_digest (hex (digest bytes)) ≡ true
          → text_eq (part_of (hex (digest bytes))) name ≡ false
      clear shaped = elim (Bool-cases (text_eq (part_of (hex (digest bytes))) name)) [
        | inr differ ↦ differ
        | inl same ↦ absurd (
            clash (
              sym (part-is_digest (hex (digest bytes)) shaped)
              ∙ (ap is_digest ((text_eq_iff (part_of (hex (digest bytes))) name).0 same) ∙ good)))
      ]

  delete-Sound : (disk : Disk) (g : Text) → Sound disk → Sound (delete g disk)
  delete-Sound disk g sound name content good held =
      sound name content good (ground (file-delete name g disk, arith))

  write-Sound :
      (disk : Disk) (bytes : List ℕ) → Sound disk → Sound (write (hex (digest bytes)) bytes disk)
  write-Sound disk bytes sound name content good held =
      elim (Bool-cases (text_eq (hex (digest bytes)) name)) [
        | inl same ↦
            ap (λ b. hex (digest b))
              (sym
                (one (sym (file-write name (hex (digest bytes)) bytes disk ∙ rw same refl) ∙ held)))
            ∙ (text_eq_iff (hex (digest bytes)) name).0 same
        | inr differ ↦
            sound name content good
              (sym (file-write name (hex (digest bytes)) bytes disk ∙ rw differ refl) ∙ held)
      ]
    where
      one : some bytes ≡ some content → bytes ≡ content
      one e = cc

  -- The disk is sound; and where the answer is a name, it is the one that `sha256_hex` gives, and what is
  -- read under it has the same digest as the bytes stored.
  abbrev pub Stores : List ℕ → Option Text × Disk → Type 0
  Stores bytes (none, disk') = Sound disk'
  Stores bytes (some name, disk') =
      (name ≡ hex (digest bytes))
      × Sound disk'
      × ((content : List ℕ) × (read disk' (hex (digest bytes)) ≡ some content)
          × (hex (digest content) ≡ hex (digest bytes)))

  pub Stores-read :
      (bytes : List ℕ) (r : Option Text × Disk)
      → Stores bytes r
      → r.0 ≡ some (hex (digest bytes))
      → (disk' : Disk) × (r ≡ (some (hex (digest bytes)), disk'))
        × ((content : List ℕ) × (read disk' (hex (digest bytes)) ≡ some content)
            × (hex (digest content) ≡ hex (digest bytes)))
  Stores-read bytes (none, disk') h e = cc
  Stores-read bytes (some name, disk') h e = (disk', ap (λ n. (n, disk')) e, h.2)

  -- The file system makes the directory, takes all the bytes and renames.
  abbrev pub Accepts : FileSystem → List ℕ → Type 0
  Accepts fs bytes =
      (fs.no_directory (take 2 (hex (digest bytes))) ≡ false)
      × (fs.writes (part_of (hex (digest bytes))) ≡ finished)
      × (fs.no_rename (hex (digest bytes)) ≡ false)

  module _ (fs : FileSystem) (disk : Disk) (bytes : List ℕ) (sound : Sound disk) where
    shaped : is_digest (hex (digest bytes)) ≡ true
    shaped = hex-is_digest (digest bytes) (width bytes)

    renamed-Stores : Stores bytes (store_renamed fs digest disk bytes)
    renamed-Stores = elim (Bool-cases (fs.no_rename (hex (digest bytes)))) [
      | inl e ↦ rw e (store_part-Sound disk bytes (length bytes) sound)
      | inr e ↦ rw e (
        refl,
        write-Sound _ bytes (
            delete-Sound _ (part_of (hex (digest bytes)))
              (store_part-Sound disk bytes (length bytes) sound)),
        (
          bytes,
          read-file _ (hex (digest bytes)) shaped
              ∙ (file-write (hex (digest bytes)) (hex (digest bytes)) bytes (
                    delete (part_of (hex (digest bytes)))
                      (store_part digest disk bytes (length bytes)))
                  ∙ rw ((text_eq_iff (hex (digest bytes)) (hex (digest bytes))).1 refl) refl),
          refl,
        ),
      )
    ]

    written-Stores : (w : Written) → Stores bytes (store_written fs digest disk bytes w)
    written-Stores finished = renamed-Stores
    written-Stores unopened = sound
    written-Stores (stopped n) = store_part-Sound disk bytes n sound

    -- Whatever the file system does, storing leaves a sound disk sound, and a name that it answers can be read,
    -- as bytes of the same digest. It answers one where the file system accepts the bytes, and where they are
    -- on the disk already. Halfway through the write the disk is sound too.
    pub store-Reads :
        Stores bytes (store fs digest disk bytes)
        × ((Accepts fs bytes ⊎ ((c : List ℕ) × (read disk (hex (digest bytes)) ≡ some c)))
            → (store fs digest disk bytes).0 ≡ some (hex (digest bytes)))
        × ((written : ℕ) → Sound (store_part digest disk bytes written))
    store-Reads = elim (Option-cases (read disk (hex (digest bytes)))) [
      | inr (c, e) ↦
          let known = store-known fs digest disk bytes shaped c e in
          (
            subst (Stores bytes) (sym known) (
              refl,
              sound,
              (
                c,
                e,
                sound (hex (digest bytes)) c shaped
                    (sym (read-file disk (hex (digest bytes)) shaped) ∙ e),
              ),
            ),
            λ h. ap (λ r. r.0) known,
            λ n. store_part-Sound disk bytes n sound,
          )
      | inl e ↦
          let new = store-new fs digest disk bytes shaped e in
          (
            subst (Stores bytes) (sym new) (placed (fs.no_directory (take 2 (hex (digest bytes))))),
            λ h. ap (λ r. r.0) new ∙ accepted e h,
            λ n. store_part-Sound disk bytes n sound,
          )
    ]
      where
        placed :
            (b : Bool)
            → Stores bytes (
                if b
                then (none, disk)
                else store_written fs digest disk bytes (fs.writes (part_of (hex (digest bytes)))))
        placed true = sound
        placed false = written-Stores (fs.writes (part_of (hex (digest bytes))))

        accepted :
            read disk (hex (digest bytes)) ≡ none
            → (Accepts fs bytes ⊎ ((c : List ℕ) × (read disk (hex (digest bytes)) ≡ some c)))
            → (if fs.no_directory (take 2 (hex (digest bytes)))
                then (none, disk)
                else store_written fs digest disk bytes
                    (fs.writes (part_of (hex (digest bytes))))).0
              ≡ some (hex (digest bytes))
        accepted e (inl (made, all_written, moved)) = rw (made, all_written, moved) refl
        accepted e (inr (c, there)) = cc
