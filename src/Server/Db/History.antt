-- ===== src/Server/Db/History.antt =====
-- `Db::history` of crates/boa-server/src/db.rs: one page of a channel.
use boa_voice.Prelude.{
  ℕ, ◌+◌, ◌≤◌, ◌≡◌, ◌↔◌, refl, sym, ap, ◌∙◌, Bool, true, ◌&&◌, ◌==◌, Option, none, some, subst, ltb,
  Bool-cases, inl, inr, List, [], ◌∷◌, ◌++◌, ◌^◌, ◌-◌, max, map, take, drop, length, min, leb,
  arith, take-append-drop, length-take, length-map, length-drop, length-append, zero, suc,
}
use mathlib.Core.List.{reverse, reverse-append, reverse_perm, Perm}
use mathlib.Core.List.Perm
use boa_voice.Prelude.Lists.{filter}
use boa_voice.Prelude.Sorting.{sort_by, insert_sorted, sort_by-perm}
use boa_voice.Proto.Model.{Ident, Message}
use boa_voice.Server.Db.{
  Tables, MessageRow, history, newest_first, page_size, with_attachments, attachments_for,
  row_to_message,
}

abbrev All : (MessageRow → Type 0) → List MessageRow → Type 0
All P [] = Unit {0}
All P (r ∷ rest) = P r × All P rest

abbrev pub OldestFirst : List MessageRow → Type 0
OldestFirst [] = Unit {0}
OldestFirst (r ∷ rest) = All (λ m. r.id ≤ m.id) rest × OldestFirst rest

abbrev NewestFirst : List MessageRow → Type 0
NewestFirst [] = Unit {0}
NewestFirst (r ∷ rest) = All (λ m. m.id ≤ r.id) rest × NewestFirst rest

-- What a page is asked for: the messages of a channel below an id, which the code reads as an `i64`; no id
-- at all stands for the largest one.
abbrev pub asked : Ident → Option Ident → MessageRow → Bool
asked channel none r = r.channel_id == channel && ltb r.id (2 ^ 63 - 1)
asked channel (some bound) r = r.channel_id == channel && (ltb bound (2 ^ 63) && ltb r.id bound)

-- A message with what is attached to it.
abbrev pub full : Tables → MessageRow → Message
full d r = record (row_to_message r) { attachments = attachments_for d r.id }

All-append :
    (P : MessageRow → Type 0) (xs ys : List MessageRow) → All P xs → All P ys → All P (xs ++ ys)
All-append P [] ys h k = k
All-append P (x ∷ xs) ys h k = (h.0, All-append P xs ys h.1 k)

All-reverse : (P : MessageRow → Type 0) (xs : List MessageRow) → All P xs → All P (reverse xs)
All-reverse P [] h = tt
All-reverse P (x ∷ xs) h =
    subst (All P) (sym (reverse-append (x ∷ []) xs))
      (All-append P (reverse xs) (x ∷ []) (All-reverse P xs h.1) (h.0, tt))

OldestFirst-append :
    (xs : List MessageRow) (r : MessageRow)
    → OldestFirst xs
    → All (λ m. m.id ≤ r.id) xs
    → OldestFirst (xs ++ (r ∷ []))
OldestFirst-append [] r h below = (tt, tt)
OldestFirst-append (x ∷ xs) r h below = (
  All-append (λ m. x.id ≤ m.id) xs (r ∷ []) h.0 (below.0, tt),
  OldestFirst-append xs r h.1 below.1,
)

reverse-OldestFirst : (xs : List MessageRow) → NewestFirst xs → OldestFirst (reverse xs)
reverse-OldestFirst [] h = tt
reverse-OldestFirst (x ∷ xs) h = subst OldestFirst (sym (reverse-append (x ∷ []) xs)) (
    OldestFirst-append (reverse xs) x (reverse-OldestFirst xs h.1)
      (All-reverse (λ m. m.id ≤ x.id) xs h.0))

abbrev by_newest : MessageRow → MessageRow → Bool
by_newest a b = leb b.id a.id

insert_sorted-All :
    (P : MessageRow → Type 0) (r : MessageRow) (xs : List MessageRow)
    → P r
    → All P xs
    → All P (insert_sorted by_newest r xs)
unfolding insert_sorted
insert_sorted-All P r [] p h = (p, tt)
insert_sorted-All P r (x ∷ xs) p h = elim (Bool-cases (by_newest r x)) [
  | inl above ↦ rw above (p, h)
  | inr below ↦ rw below (h.0, insert_sorted-All P r xs p h.1)
]

All-below :
    (a b : Ident) (xs : List MessageRow) → a ≤ b → All (λ m. m.id ≤ a) xs → All (λ m. m.id ≤ b) xs
All-below a b [] le h = tt
All-below a b (x ∷ xs) le h = (omega (arith, h.0), All-below a b xs le h.1)

insert_sorted-NewestFirst :
    (r : MessageRow) (xs : List MessageRow)
    → NewestFirst xs
    → NewestFirst (insert_sorted by_newest r xs)
unfolding insert_sorted
insert_sorted-NewestFirst r [] h = (tt, tt)
insert_sorted-NewestFirst r (x ∷ xs) h = elim (Bool-cases (by_newest r x)) [
  | inl above ↦
      let le : x.id ≤ r.id = ground arith in rw above ((le, All-below x.id r.id xs le h.0), h)
  | inr below ↦ rw below (
    insert_sorted-All (λ m. m.id ≤ x.id) r xs (ground arith) h.0,
    insert_sorted-NewestFirst r xs h.1,
  )
]

sort_by-NewestFirst : (xs : List MessageRow) → NewestFirst (sort_by by_newest xs)
unfolding sort_by
sort_by-NewestFirst [] = tt
sort_by-NewestFirst (x ∷ xs) =
    insert_sorted-NewestFirst x (sort_by by_newest xs) (sort_by-NewestFirst xs)

-- What the code reads is what a page is asked for, the newest first.
newest_first-asked :
    (d : Tables) (channel : Ident) (before : Option Ident)
    → newest_first d channel before ≡ sort_by by_newest (filter (asked channel before) d.messages)
unfolding newest_first
newest_first-asked d channel none = refl
newest_first-asked d channel (some bound) = refl

take-take_le : {A : Type 0} (n m : ℕ) (xs : List A) → n ≤ m → take n (take m xs) ≡ take n xs
take-take_le zero m xs h = refl
take-take_le (suc n) zero xs h = absurd (omega (arith, h))
take-take_le (suc n) (suc m) [] h = refl
take-take_le (suc n) (suc m) (x ∷ xs) h = ap (λ ys. x ∷ ys) (take-take_le n m xs (omega (arith, h)))

take-take_suc : {A : Type 0} (n : ℕ) (xs : List A) → take n (take (n + 1) xs) ≡ take n xs
take-take_suc n xs = take-take_le n (n + 1) xs (omega arith)

pub length-reverse : {A : Type 0} (xs : List A) → length (reverse xs) ≡ length xs
length-reverse [] = refl
length-reverse (x ∷ xs) =
    ap length (reverse-append (x ∷ []) xs)
    ∙ (length-append (reverse xs) (x ∷ []) ∙ omega (arith, length-reverse xs))

map-append : {A B : Type 0} (f : A → B) (xs ys : List A) → map f xs ++ map f ys ≡ map f (xs ++ ys)
map-append f [] ys = refl
map-append f (x ∷ xs) ys = ap (λ zs. f x ∷ zs) (map-append f xs ys)

empty_of_length : {A : Type 0} (xs : List A) → length xs ≡ 0 → xs ≡ []
empty_of_length [] e = refl
empty_of_length (x ∷ xs) e = absurd (omega (arith, e))

length-page : {A B : Type 0} (f : A → B) (xs : List A) → length (map f (reverse xs)) ≡ length xs
length-page f xs = length-map (reverse xs) f ∙ length-reverse xs

-- A page of a channel is the end of the channel's messages below the bound, oldest first, each with what is
-- attached to it: as many as were asked for, at least one and at most 200, or all there are. It says that
-- it is complete exactly where nothing older is left out.
pub history_page :
    (d : Tables) (channel limit : ℕ) (before : Option Ident)
    → (rows : List MessageRow) × Perm rows (filter (asked channel before) d.messages)
      × OldestFirst rows
      × ((older : List Message) × (older ++ (history d channel before limit).0 ≡ map (full d) rows)
          × (length (history d channel before limit).0 ≡ min (max 1 (min limit 200)) (length rows))
          × (((history d channel before limit).1 ≡ true) ↔ (older ≡ [])))
unfolding history newest_first
history_page d channel limit before =
    let n = page_size limit in
    let rows = newest_first d channel before in
    let older = map (with_attachments d) (reverse (drop n rows)) in
    (
      reverse rows,
      Perm.trans (reverse_perm rows) (
          subst (λ l. Perm l (filter (asked channel before) d.messages))
            (sym (newest_first-asked d channel before))
            (sort_by-perm by_newest (filter (asked channel before) d.messages))),
      subst (λ l. OldestFirst (reverse l)) (sym (newest_first-asked d channel before))
          (reverse-OldestFirst _ (sort_by-NewestFirst (filter (asked channel before) d.messages))),
      (
        older,
        map-append (with_attachments d) (reverse (drop n rows))
              (reverse (take n (take (n + 1) rows)))
            ∙ ap (map (with_attachments d)) (
                sym (reverse-append (take n (take (n + 1) rows)) (drop n rows))
                ∙ ap reverse (
                    ap (λ xs. xs ++ drop n rows) (take-take_suc n rows) ∙ take-append-drop n rows)),
        length-page (with_attachments d) (take n (take (n + 1) rows))
            ∙ (ap length (take-take_suc n rows)
                ∙ (length-take n rows ∙ ap (min n) (sym (length-reverse rows)))),
        (
          λ e. empty_of_length older (
              length-page (with_attachments d) (drop n rows)
              ∙ ground (arith, length-drop n rows, length-take (n + 1) rows)),
          λ e.
              all_there n rows (sym (length-page (with_attachments d) (drop n rows)) ∙ ap length e),
        ),
      ),
    )
  where
    all_there :
        (n : ℕ) (rows : List MessageRow)
        → length (drop n rows) ≡ 0
        → leb (length (take (n + 1) rows)) n ≡ true
    all_there n rows e = ground (arith, length-drop n rows, length-take (n + 1) rows)
