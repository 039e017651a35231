-- ===== src/Server/Blobs/Sweep.antt =====
-- The janitor's pass, `sweep` of crates/boa-server/src/blobs.rs.
use boa_voice.Prelude.{
  ℕ, ◌≡◌, refl, sym, ap, ◌∙◌, subst, Bool, true, false, not, ◌&&◌, ◌||◌, Option, none, some, List,
  [], ◌∷◌, ltb, leb, if◌then◌else◌, map, arith, Bool-cases, Option-cases, inl, inr,
}
use boa_voice.Prelude.Lists.{any, filter}
use boa_voice.Prelude.Text.{Text, text_eq, text_eq_iff}
use boa_voice.Proto.Model.{Millis}
use boa_voice.Server.Db.{
  Tables, AttachmentRow, expired_blobs, mark_blob_deleted, orphaned_blobs, distinct, update,
}
use boa_voice.Server.Blobs.{
  Disk, file, delete, is_digest, path, list, remove, drop_expired, drop_orphans, sweep,
}

abbrev mem : Text → List Text → Bool
mem f l = any (λ g. text_eq g f) l

-- A row with these bytes.
abbrev names : Text → AttachmentRow → Bool
names f a = text_eq a.sha256 f

text_eq-sym : (s t : Text) → text_eq s t ≡ text_eq t s
text_eq-sym s t = elim (Bool-cases (text_eq s t)) [
  | inl same ↦ same ∙ sym ((text_eq_iff t s).1 (sym ((text_eq_iff s t).0 same)))
  | inr differ ↦ elim (Bool-cases (text_eq t s)) [
    | inr both ↦ differ ∙ sym both
    | inl same ↦ (text_eq_iff s t).1 (sym ((text_eq_iff t s).0 same)) ∙ sym same
  ]
]

-- A name equal to one of two that differ is not equal to the other.
text_eq-both : (s t f : Text) → text_eq s t ≡ false → text_eq s f ≡ true → text_eq t f ≡ false
text_eq-both s t f differ same = elim (Bool-cases (text_eq t f)) [
  | inr other ↦ other
  | inl too ↦
      absurd
        (clash ((text_eq_iff s t).1 ((text_eq_iff s f).0 same ∙ sym ((text_eq_iff t f).0 too))))
]
  where
    clash : text_eq s t ≡ true → ⊥
    clash e = cc

pub text_eq-left : (s t f : Text) → text_eq s t ≡ true → text_eq s f ≡ text_eq t f
text_eq-left s t f e = ap (λ u. text_eq u f) ((text_eq_iff s t).0 e)

pub file-delete :
    (f g : Text) (disk : Disk)
    → file f (delete g disk) ≡ (if text_eq g f then none else file f disk)
unfolding file delete
file-delete f g [] = ground arith
file-delete f g ((n, bytes) ∷ rest) = elim (Bool-cases (text_eq n g)) [
  | inl same ↦
      ground (arith, file-delete f g rest, ap (λ s. text_eq s f) ((text_eq_iff n g).0 same))
  | inr differ ↦ ground (arith, file-delete f g rest, text_eq-both n g f differ)
]

marked-names :
    (q : AttachmentRow → Bool) (f : Text) (rows : List AttachmentRow)
    → any (names f) (update q (λ a. record a { blob_deleted = true }) rows) ≡ any (names f) rows
unfolding any
marked-names q f [] = refl
marked-names q f (r ∷ rest) = ground (arith, marked-names q f rest)

module _ (stuck : Text → Bool) where
  -- What can be removed is removed.
  remove-able :
      (disk : Disk) (g : Text)
      → remove stuck disk g ≡ (if is_digest g && not (stuck g) then some (delete g disk) else none)
  unfolding remove path
  remove-able disk g = elim (Bool-cases (is_digest g)) [
    | inr bad ↦ rw (bad, path, remove) refl
    | inl good ↦ elim (Bool-cases (stuck g)) [
      | inl held ↦ rw (good, held, path, remove) refl
      | inr free ↦ rw (good, free, path, remove) refl
    ]
  ]

  -- A file that is not asked for stays.
  remove-kept :
      (disk t : Disk) (f g : Text)
      → remove stuck disk g ≡ some t
      → text_eq g f ≡ false
      → file f t ≡ file f disk
  remove-kept disk t f g e differ =
      able (is_digest g && not (stuck g)) (sym (remove-able disk g) ∙ e)
    where
      able :
          (b : Bool) → (if b then some (delete g disk) else none) ≡ some t → file f t ≡ file f disk
      able true h = ground (arith, file-delete f g disk)
      able false h = cc

  drop_expired-kept :
      (l : List Text) (d : Tables) (disk : Disk) (f : Text)
      → mem f l ≡ false
      → file f (drop_expired stuck d disk l).0.1 ≡ file f disk
  unfolding drop_expired any
  drop_expired-kept [] d disk f e = refl
  drop_expired-kept (sha ∷ rest) d disk f e = elim (Option-cases (remove stuck disk sha)) [
    | inl held ↦ rw (held, drop_expired) (drop_expired-kept rest d disk f (ground arith))
    | inr (t, gone) ↦
        rw (gone, drop_expired)
          (drop_expired-kept rest (mark_blob_deleted d sha) t f (ground arith)
            ∙ remove-kept disk t f sha gone (ground arith))
  ]

  drop_orphans-kept :
      (l : List Text) (disk : Disk) (f : Text)
      → mem f l ≡ false
      → file f (drop_orphans stuck disk l).0 ≡ file f disk
  unfolding drop_orphans any
  drop_orphans-kept [] disk f e = refl
  drop_orphans-kept (sha ∷ rest) disk f e = elim (Option-cases (remove stuck disk sha)) [
    | inl held ↦ rw (held, drop_orphans) (drop_orphans-kept rest disk f (ground arith))
    | inr (t, gone) ↦
        rw (gone, drop_orphans)
          (drop_orphans-kept rest t f (ground arith) ∙ remove-kept disk t f sha gone (ground arith))
  ]

  -- Marking names no other bytes.
  drop_expired-names :
      (l : List Text) (d : Tables) (disk : Disk) (f : Text)
      → any (names f) (drop_expired stuck d disk l).0.0.attachments ≡ any (names f) d.attachments
  unfolding drop_expired mark_blob_deleted
  drop_expired-names [] d disk f = refl
  drop_expired-names (sha ∷ rest) d disk f = elim (Option-cases (remove stuck disk sha)) [
    | inl held ↦ rw (held, drop_expired) (drop_expired-names rest d disk f)
    | inr (t, gone) ↦
        rw (gone, drop_expired)
          (drop_expired-names rest (mark_blob_deleted d sha) t f
            ∙ marked-names (λ a. text_eq a.sha256 sha) f d.attachments)
  ]

any-filter :
    {A : Type 0} (p q : A → Bool) (xs : List A) → any p (filter q xs) ≡ any (λ x. q x && p x) xs
unfolding any filter
any-filter p q [] = refl
any-filter p q (x ∷ xs) = ground (arith, any-filter p q xs)

any-ext : {A : Type 0} (p q : A → Bool) (xs : List A) → ((x : A) → p x ≡ q x) → any p xs ≡ any q xs
unfolding any
any-ext p q [] h = refl
any-ext p q (x ∷ xs) h = ground (arith, h x, any-ext p q xs h)

mem-distinct : (f : Text) (l : List Text) → mem f (distinct l) ≡ mem f l
unfolding any
mem-distinct f [] = refl
mem-distinct f (s ∷ rest) = elim (Bool-cases (text_eq s f)) [
  | inl same ↦ rw same refl
  | inr differ ↦ rw differ (
      any-filter (λ g. text_eq g f) (λ t. not (text_eq t s)) (distinct rest)
      ∙ (any-ext (λ t. not (text_eq t s) && text_eq t f) (λ t. text_eq t f) (distinct rest)
            (λ t. apart t differ)
          ∙ mem-distinct f rest))
]
  where
    apart : (t : Text) → text_eq s f ≡ false → (not (text_eq t s) && text_eq t f) ≡ text_eq t f
    apart t differ = ground (arith, text_eq-left t s f)

any-false : {A : Type 0} (p : A → Bool) (xs : List A) → ((x : A) → p x ≡ false) → any p xs ≡ false
unfolding any
any-false p [] h = refl
any-false p (x ∷ xs) h = ground (arith, h x, any-false p xs h)

any-map :
    {A B : Type 0} (p : B → Bool) (f : A → B) (xs : List A)
    → any p (map f xs) ≡ any (λ x. p (f x)) xs
unfolding any
any-map p f [] = refl
any-map p f (x ∷ xs) = ground (arith, any-map p f xs)

any-mem :
    (p : Text → Bool) (f : Text) (l : List Text)
    → any (λ x. p x && text_eq x f) l ≡ (p f && mem f l)
unfolding any
any-mem p f [] = ground arith
any-mem p f (x ∷ rest) =
    ground (arith, any-mem p f rest, λ (e : text_eq x f ≡ true). ap p ((text_eq_iff x f).0 e))

live_named :
    (now : Millis) (f : Text) (rows : List AttachmentRow)
    → any (λ a. ltb now a.expires_at && text_eq a.sha256 f) rows ≡ true
    → any (names f) rows ≡ true
unfolding any
live_named now f [] e = cc
live_named now f (a ∷ rest) e = ground (arith, live_named now f rest)

-- Of rows that have expired and are not marked, all with these bytes are due, where none of them lives.
due_named :
    (now : Millis) (f : Text) (live : Text → Bool) (rows : List AttachmentRow)
    → live f ≡ false
    → any (λ a. text_eq a.sha256 f && (ltb now a.expires_at || a.blob_deleted)) rows ≡ false
    → any
        (λ a. (leb a.expires_at now && (not a.blob_deleted && not (live a.sha256))) && names f a)
        rows
      ≡ any (names f) rows
unfolding any
due_named now f live [] none_live e = refl
due_named now f live (a ∷ rest) none_live e = ground (
  arith,
  due_named now f live rest none_live,
  λ (h : names f a ≡ true). ap live ((text_eq_iff a.sha256 f).0 h),
)

live_accounted :
    (now : Millis) (f : Text) (rows : List AttachmentRow)
    → any (λ a. text_eq a.sha256 f && (ltb now a.expires_at || a.blob_deleted)) rows ≡ false
    → any (λ a. ltb now a.expires_at && text_eq a.sha256 f) rows ≡ false
unfolding any
live_accounted now f [] e = refl
live_accounted now f (a ∷ rest) e = ground (arith, live_accounted now f rest)

module _ (d : Tables) (now : Millis) where
  -- A row that has not expired has these bytes.
  abbrev pub is_live : Text → Bool
  is_live f = any (λ a. ltb now a.expires_at && text_eq a.sha256 f) d.attachments

  -- A row has these bytes and either has not expired or says that they are gone.
  abbrev pub is_accounted : Text → Bool
  is_accounted f =
      any (λ a. text_eq a.sha256 f && (ltb now a.expires_at || a.blob_deleted)) d.attachments

  live_row : Text → Bool
  live_row g = any (λ b. text_eq b.sha256 g) (filter (λ b. ltb now b.expires_at) d.attachments)

  is_due : AttachmentRow → Bool
  is_due a = leb a.expires_at now && (not a.blob_deleted && not (live_row a.sha256))

  live_row-is_live : (f : Text) → live_row f ≡ is_live f
  unfolding live_row
  live_row-is_live f =
      any-filter (λ b. text_eq b.sha256 f) (λ b. ltb now b.expires_at) d.attachments

  mem-expired :
      (f : Text) → mem f (expired_blobs d now) ≡ any (λ a. is_due a && names f a) d.attachments
  unfolding expired_blobs is_due live_row
  mem-expired f =
      mem-distinct f _
      ∙ (any-map (λ g. text_eq g f) (λ (a : AttachmentRow). a.sha256) (filter is_due d.attachments)
          ∙ any-filter (names f) is_due d.attachments)

  live-expired : (f : Text) → is_live f ≡ true → mem f (expired_blobs d now) ≡ false
  unfolding is_due
  live-expired f live = mem-expired f ∙ any-false _ d.attachments (λ a. none_due a)
    where
      none_due : (a : AttachmentRow) → (is_due a && names f a) ≡ false
      none_due a = ground (
        arith,
        live_row-is_live f,
        λ (e : names f a ≡ true). ap live_row ((text_eq_iff a.sha256 f).0 e),
      )

  live-names : (f : Text) → is_live f ≡ true → any (names f) d.attachments ≡ true
  live-names f live = live_named now f d.attachments live

mem-orphaned :
    (d : Tables) (known : List Text) (f : Text)
    → mem f (orphaned_blobs d known) ≡ (not (any (names f) d.attachments) && mem f known)
unfolding orphaned_blobs
mem-orphaned d known f =
    any-filter (λ g. text_eq g f) (λ sha. not (any (λ a. text_eq a.sha256 sha) d.attachments)) known
    ∙ any-mem (λ sha. not (any (λ a. text_eq a.sha256 sha) d.attachments)) f known

-- Where some row with these bytes has not expired, the janitor leaves the file alone, whatever can be
-- removed.
pub sweep_keeps_live :
    (stuck : Text → Bool) (d : Tables) (disk : Disk) (now : Millis) (f : Text)
    → is_live d now f ≡ true
    → file f (sweep stuck d disk now).0.1 ≡ file f disk
unfolding sweep
sweep_keeps_live stuck d disk now f live =
    let due = expired_blobs d now in
    let swept = (drop_expired stuck d disk due).0 in
    drop_orphans-kept stuck (orphaned_blobs swept.0 (list swept.1)) swept.1 f (
      mem-orphaned swept.0 (list swept.1) f
      ∙ ap (λ b. not b && mem f (list swept.1))
          (drop_expired-names stuck due d disk f ∙ live-names d now f live))
    ∙ drop_expired-kept stuck due d disk f (live-expired d now f live)

file_named :
    (f : Text) (disk : Disk) (bytes : List ℕ)
    → file f disk ≡ some bytes
    → mem f (map (λ e. e.0) disk) ≡ true
unfolding file any
file_named f [] bytes e = cc
file_named f ((n, b) ∷ rest) bytes e = ground (arith, file_named f rest bytes)

file_listed :
    (f : Text) (disk : Disk) (bytes : List ℕ)
    → is_digest f ≡ true
    → file f disk ≡ some bytes
    → mem f (list disk) ≡ true
unfolding list file
file_listed f disk bytes good e =
    any-filter (λ g. text_eq g f) is_digest (map (λ e. e.0) disk)
    ∙ (any-mem is_digest f (map (λ e. e.0) disk)
        ∙ (ap (λ b. b && mem f (map (λ e. e.0) disk)) good ∙ file_named f disk bytes e))

module _ (stuck : Text → Bool) (f : Text) where
  remove-none :
      (disk t : Disk) (g : Text)
      → remove stuck disk g ≡ some t
      → file f disk ≡ none
      → file f t ≡ none
  remove-none disk t g e absent =
      able (is_digest g && not (stuck g)) (sym (remove-able stuck disk g) ∙ e)
    where
      able : (b : Bool) → (if b then some (delete g disk) else none) ≡ some t → file f t ≡ none
      able true h = ground (arith, file-delete f g disk)
      able false h = cc

  drop_expired-none :
      (l : List Text) (d : Tables) (disk : Disk)
      → file f disk ≡ none
      → file f (drop_expired stuck d disk l).0.1 ≡ none
  unfolding drop_expired
  drop_expired-none [] d disk e = e
  drop_expired-none (sha ∷ rest) d disk e = elim (Option-cases (remove stuck disk sha)) [
    | inl held ↦ rw (held, drop_expired) (drop_expired-none rest d disk e)
    | inr (t, gone) ↦
        rw (gone, drop_expired)
          (drop_expired-none rest (mark_blob_deleted d sha) t (remove-none disk t sha gone e))
  ]

  drop_orphans-none :
      (l : List Text) (disk : Disk)
      → file f disk ≡ none
      → file f (drop_orphans stuck disk l).0 ≡ none
  unfolding drop_orphans
  drop_orphans-none [] disk e = e
  drop_orphans-none (sha ∷ rest) disk e = elim (Option-cases (remove stuck disk sha)) [
    | inl held ↦ rw (held, drop_orphans) (drop_orphans-none rest disk e)
    | inr (t, gone) ↦
        rw (gone, drop_orphans) (drop_orphans-none rest t (remove-none disk t sha gone e))
  ]

  module _ (good : is_digest f ≡ true) (free : stuck f ≡ false) where
    remove-gone : (disk : Disk) → remove stuck disk f ≡ some (delete f disk)
    remove-gone disk = remove-able stuck disk f ∙ rw (good, free) refl

    delete-gone : (disk : Disk) → file f (delete f disk) ≡ none
    delete-gone disk = file-delete f f disk ∙ rw ((text_eq_iff f f).1 refl) refl

    drop_expired-gone :
        (l : List Text) (d : Tables) (disk : Disk)
        → mem f l ≡ true
        → file f (drop_expired stuck d disk l).0.1 ≡ none
    unfolding drop_expired any
    drop_expired-gone [] d disk e = cc
    drop_expired-gone (sha ∷ rest) d disk e = elim (Bool-cases (text_eq sha f)) [
      | inl same ↦
          subst (λ g. file f (drop_expired stuck d disk (g ∷ rest)).0.1 ≡ none)
            (sym ((text_eq_iff sha f).0 same))
            (rw (remove-gone disk, drop_expired)
              (drop_expired-none rest (mark_blob_deleted d f) (delete f disk) (delete-gone disk)))
      | inr differ ↦ elim (Option-cases (remove stuck disk sha)) [
        | inl held ↦ rw (held, drop_expired) (drop_expired-gone rest d disk (ground arith))
        | inr (t, gone) ↦
            rw (gone, drop_expired)
              (drop_expired-gone rest (mark_blob_deleted d sha) t (ground arith))
      ]
    ]

    drop_orphans-gone :
        (l : List Text) (disk : Disk) → mem f l ≡ true → file f (drop_orphans stuck disk l).0 ≡ none
    unfolding drop_orphans any
    drop_orphans-gone [] disk e = cc
    drop_orphans-gone (sha ∷ rest) disk e = elim (Bool-cases (text_eq sha f)) [
      | inl same ↦
          subst (λ g. file f (drop_orphans stuck disk (g ∷ rest)).0 ≡ none)
            (sym ((text_eq_iff sha f).0 same))
            (rw (remove-gone disk, drop_orphans)
              (drop_orphans-none rest (delete f disk) (delete-gone disk)))
      | inr differ ↦ elim (Option-cases (remove stuck disk sha)) [
        | inl held ↦ rw (held, drop_orphans) (drop_orphans-gone rest disk (ground arith))
        | inr (t, gone) ↦ rw (gone, drop_orphans) (drop_orphans-gone rest t (ground arith))
      ]
    ]

    -- A blob that can be removed, and of whose rows each has expired and is not marked, or that has no
    -- row, is gone from the disk after a pass.
    pub sweep_clears :
        (d : Tables) (disk : Disk) (now : Millis)
        → is_accounted d now f ≡ false
        → file f (sweep stuck d disk now).0.1 ≡ none
    unfolding sweep
    sweep_clears d disk now loose = elim (Bool-cases (mem f (expired_blobs d now))) [
      | inl due ↦
          drop_orphans-none (orphaned_blobs swept.0 (list swept.1)) swept.1
            (drop_expired-gone (expired_blobs d now) d disk due)
      | inr not_due ↦ orphaned (file f swept.1) refl not_due
    ]
      where
        swept : Tables × Disk
        swept = (drop_expired stuck d disk (expired_blobs d now)).0

        due-is_due :
            any
              (λ a.
                (leb a.expires_at now && (not a.blob_deleted && not (live_row d now a.sha256)))
                && names f a)
              d.attachments
            ≡ mem f (expired_blobs d now)
        due-is_due = unfold is_due in sym (mem-expired d now f)

        unnamed : mem f (expired_blobs d now) ≡ false → any (names f) d.attachments ≡ false
        unnamed not_due =
            sym (
              due_named now f (live_row d now) d.attachments
                (live_row-is_live d now f ∙ live_accounted now f d.attachments loose) loose)
            ∙ (due-is_due ∙ not_due)

        orphaned :
            (o : Option (List ℕ))
            → file f swept.1 ≡ o
            → mem f (expired_blobs d now) ≡ false
            → file f (drop_orphans stuck swept.1 (orphaned_blobs swept.0 (list swept.1))).0 ≡ none
        orphaned none e not_due =
            drop_orphans-none (orphaned_blobs swept.0 (list swept.1)) swept.1 e
        orphaned (some bytes) e not_due =
            drop_orphans-gone (orphaned_blobs swept.0 (list swept.1)) swept.1 (
              mem-orphaned swept.0 (list swept.1) f
              ∙ (ap (λ b. not b && mem f (list swept.1))
                    (drop_expired-names stuck (expired_blobs d now) d disk f ∙ unnamed not_due)
                  ∙ file_listed f swept.1 bytes good e))
