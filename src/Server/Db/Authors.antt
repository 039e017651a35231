-- ===== src/Server/Db/Authors.antt =====
-- Whose messages an account can change: `Db::insert_message`, `Db::edit_message` and
-- `Db::delete_message` of crates/boa-server/src/db.rs.
use boa_voice.Prelude.{
  ◌≡◌, ◌≢◌, refl, sym, ap, ◌∙◌, subst, Bool, true, false, not, ◌&&◌, Option, none, some, List, [],
  ◌∷◌, ◌++◌, ◌==◌, if◌then◌else◌, map, arith, Bool-cases, Option-cases, inl, inr, ◌⊎◌,
}
use boa_voice.Prelude.Sets.{contains}
use boa_voice.Prelude.Lists.{find, any, filter}
use boa_voice.Prelude.Text.{Text}
use boa_voice.Proto.Model.{Ident, Millis}
use boa_voice.Server.Db.{
  Tables, MessageRow, existing, insert_message, edit_message, delete_message, has_channel, has_user,
  update,
}
use boa_voice.Server.Db.Messages.{
  insert-posted, insert-repeat, insert-refused, claim-messages, new_row,
}

-- The row under an id.
abbrev pub row_of : Tables → Ident → Option MessageRow
row_of d i = find (λ r. r.id == i) d.messages

-- The primary key.
abbrev pub UniqueIds : List MessageRow → Type 0
UniqueIds [] = Unit {0}
UniqueIds (r ∷ rest) = (find (λ q. q.id == r.id) rest ≡ none) × UniqueIds rest

abbrev on : {A : Type 0} → (A → A) → Option A → Option A
on f none = none
on f (some a) = some (f a)

module _ {A : Type 0} (p q : A → Bool) (f : A → A) where
  find-update :
      (rows : List A)
      → ((r : A) → p (f r) ≡ p r)
      → find p (update q f rows) ≡ on (λ r. if q r then f r else r) (find p rows)
  unfolding find
  find-update [] same = refl
  find-update (r ∷ rest) same = elim (Bool-cases (q r)) [
    | inl hit ↦ ground (arith, find-update rest same, same r)
    | inr miss ↦ ground (arith, find-update rest same)
  ]

module _ {A : Type 0} (p q : A → Bool) where
  find-append_some : (xs ys : List A) (r : A) → find p xs ≡ some r → find p (xs ++ ys) ≡ some r
  unfolding find
  find-append_some [] ys r e = cc
  find-append_some (x ∷ xs) ys r e = ground (arith, find-append_some xs ys r)

  find-append_none : (xs ys : List A) → find p xs ≡ none → find p (xs ++ ys) ≡ find p ys
  unfolding find
  find-append_none [] ys e = refl
  find-append_none (x ∷ xs) ys e = ground (arith, find-append_none xs ys)

  -- Rows that a test lets through are found as before.
  find-filter :
      (xs : List A) → ((r : A) → p r ≡ true → q r ≡ true) → find p (filter q xs) ≡ find p xs
  unfolding find filter
  find-filter [] h = refl
  find-filter (x ∷ xs) h = elim (Bool-cases (p x)) [
    | inl hit ↦ ground (arith, find-filter xs h, h x)
    | inr miss ↦ ground (arith, find-filter xs h)
  ]

  find-filter-none : (xs : List A) → find p xs ≡ none → find p (filter q xs) ≡ none
  unfolding find filter
  find-filter-none [] e = refl
  find-filter-none (x ∷ xs) e = ground (arith, find-filter-none xs)

  any-find : (xs : List A) (r : A) → any q xs ≡ false → find p xs ≡ some r → q r ≡ false
  unfolding find any
  any-find [] r h e = cc
  any-find (x ∷ xs) r h e = ground (arith, any-find xs r)

filter-UniqueIds :
    (q : MessageRow → Bool) (rows : List MessageRow) → UniqueIds rows → UniqueIds (filter q rows)
unfolding filter
filter-UniqueIds q [] u = tt
filter-UniqueIds q (r ∷ rest) u = elim (Bool-cases (q r)) [
  | inl kept ↦
      rw kept (find-filter-none (λ x. x.id == r.id) q rest u.0, filter-UniqueIds q rest u.1)
  | inr gone ↦ rw gone (filter-UniqueIds q rest u.1)
]

append-UniqueIds :
    (rows : List MessageRow) (r : MessageRow)
    → find (λ q. q.id == r.id) rows ≡ none
    → UniqueIds rows
    → UniqueIds (rows ++ (r ∷ []))
unfolding find
append-UniqueIds [] r e u = (refl, tt)
append-UniqueIds (x ∷ rest) r e u = (
  find-append_none (λ q. q.id == x.id) (λ q. true) rest (r ∷ []) u.0 ∙ ground arith,
  append-UniqueIds rest r (ground arith) u.1,
)

pub map-ids :
    (rows : List MessageRow) (i : Ident)
    → contains (map (λ r. r.id) rows) i ≡ false
    → find (λ r. r.id == i) rows ≡ none
unfolding find contains
map-ids [] i e = refl
map-ids (r ∷ rest) i e = ground (arith, map-ids rest i)

update-none :
    {A : Type 0} (q : A → Bool) (f : A → A) (rows : List A)
    → any q rows ≡ false
    → update q f rows ≡ rows
unfolding any
update-none q f [] e = refl
update-none q f (r ∷ rest) e = ground (arith, update-none q f rest)

update-UniqueIds :
    (q : MessageRow → Bool) (f : MessageRow → MessageRow) (rows : List MessageRow)
    → ((r : MessageRow) → (f r).id ≡ r.id)
    → UniqueIds rows
    → UniqueIds (update q f rows)
update-UniqueIds q f [] same u = tt
update-UniqueIds q f (r ∷ rest) same u = (
  find-update (λ x. x.id == (if q r then f r else r).id) q f rest
        (λ x. ap (λ k. k == (if q r then f r else r).id) (same x))
      ∙ ap (on (λ x. if q x then f x else x))
          (subst (λ k. find (λ x. x.id == k) rest ≡ none) (sym same_id) u.0),
  update-UniqueIds q f rest same u.1,
)
  where
    same_id : (if q r then f r else r).id ≡ r.id
    same_id = elim (Bool-cases (q r)) [ inl hit ↦ rw hit (same r) | inr miss ↦ rw miss refl ]

module _ (next_rowid : List Ident → Ident) (now : Millis) (d : Tables) where
  -- A repeat, a refusal or a row put after the others.
  insert-rows :
      (channel author : Ident) (content : Text) (given : Option Text) (attachments : List Ident)
      → let t = (insert_message next_rowid now d channel author content given attachments).1 in
        (t.messages ≡ d.messages)
        ⊎ (t.messages
            ≡ d.messages
              ++ (new_row (next_rowid (map (λ r. r.id) d.messages)) channel author content now given
                  ∷ []))
  insert-rows channel author content given attachments =
      elim (Option-cases (existing d author given)) [
        | inr (id, e) ↦ inl (
            ap (λ r. r.1.messages)
              (insert-repeat next_rowid now d channel author id content given attachments e))
        | inl e ↦ elim (Bool-cases (has_channel d channel && has_user d author)) [
          | inr refused ↦ inl (
              ap (λ r. r.1.messages)
                (insert-refused next_rowid now d channel author content given attachments e
                  refused))
          | inl allowed ↦ inr (
              ap (λ r. r.1.messages)
                (insert-posted next_rowid now d channel author content given attachments e allowed)
              ∙ claim-messages attachments _ (next_rowid (map (λ r. r.id) d.messages)) author)
        ]
      ]

module _ (now : Millis) (d : Tables) where
  edit-rows :
      (id author : Ident) (content : Text)
      → (edit_message now d id author content).1.messages
        ≡ update
            (λ r. r.id == id && r.author_id == author)
            (λ r. record r { content = content; edited_at = some now })
            d.messages
  unfolding edit_message
  edit-rows id author content = elim (Bool-cases (any mine d.messages)) [
    | inr nobody ↦ rw (nobody, edit_message) (sym (update-none mine _ d.messages nobody))
    | inl owner ↦ rw (owner, edit_message) refl
  ]
    where
      mine : MessageRow → Bool
      mine r = r.id == id && r.author_id == author

find-and :
    {A : Type 0} (p q : A → Bool) (rows : List A)
    → find p rows ≡ none
    → find (λ x. p x && q x) rows ≡ none
unfolding find
find-and p q [] e = refl
find-and p q (x ∷ rest) e = ground (arith, find-and p q rest)

-- The row under an id decides whose it is.
pub unique_owner :
    (rows : List MessageRow) (i author : Ident) (r : MessageRow)
    → UniqueIds rows
    → find (λ x. x.id == i) rows ≡ some r
    → r.author_id ≢ author
    → find (λ x. x.id == i && x.author_id == author) rows ≡ none
unfolding find
unique_owner [] i author r u held other = refl
unique_owner (x ∷ rest) i author r u held other = elim (Bool-cases (x.id == i)) [
  | inr miss ↦ rw miss (unique_owner rest i author r u.1 (ground arith) other)
  | inl hit ↦ rw hit (
      not_mine (ground arith) (
        find-and (λ y. y.id == i) (λ y. y.author_id == author) rest
          (subst (λ k. find (λ y. y.id == k) rest ≡ none) (ground arith) u.0)))
]
  where
    not_mine :
        x ≡ r
        → find (λ y. y.id == i && y.author_id == author) rest ≡ none
        → (if x.author_id == author
            then some x
            else find (λ y. y.id == i && y.author_id == author) rest)
          ≡ none
    not_mine same e = elim (Bool-cases (x.author_id == author)) [
      | inl mine ↦ absurd (other (ap (λ (y : MessageRow). y.author_id) (sym same) ∙ ground arith))
      | inr theirs ↦ rw theirs e
    ]

pub delete-rows :
    (d : Tables) (id author : Ident)
    → ((delete_message d id author).1.messages ≡ d.messages)
      ⊎ ((delete_message d id author).1.messages ≡ filter (λ m. not (m.id == id)) d.messages)
unfolding delete_message
delete-rows d id author =
    elim (Option-cases (find (λ r. r.id == id && r.author_id == author) d.messages)) [
      | inl e ↦ inl (rw (e, delete_message) refl)
      | inr (r, e) ↦ inr (rw (e, delete_message) refl)
    ]

pub delete-refused :
    (d : Tables) (id author : Ident)
    → find (λ r. r.id == id && r.author_id == author) d.messages ≡ none
    → delete_message d id author ≡ (none, d)
unfolding delete_message
delete-refused d id author e = rw (e, delete_message) refl

module _ (next_rowid : List Ident → Ident) (now : Millis) (d : Tables)
    (unique : UniqueIds d.messages) where
  -- Posting, editing and deleting keep the ids of the messages apart, if SQLite gives a new row a number
  -- that is not in use.
  pub messages-UniqueIds :
      (fresh : contains (map (λ r. r.id) d.messages) (next_rowid (map (λ r. r.id) d.messages))
        ≡ false)
      (channel author id : Ident) (content : Text) (given : Option Text) (attachments : List Ident)
      → UniqueIds
          (insert_message next_rowid now d channel author content given attachments).1.messages
        × UniqueIds (edit_message now d id author content).1.messages
        × UniqueIds (delete_message d id author).1.messages
  messages-UniqueIds fresh channel author id content given attachments = (
    elim (insert-rows next_rowid now d channel author content given attachments) [
      | inl e ↦ subst UniqueIds (sym e) unique
      | inr e ↦
          subst UniqueIds (sym e)
            (append-UniqueIds d.messages _ (map-ids d.messages _ fresh) unique)
    ],
    subst UniqueIds (sym (edit-rows now d id author content))
        (update-UniqueIds _ _ d.messages (λ r. refl) unique),
    deleted id author,
  )
    where
      deleted : (id author : Ident) → UniqueIds (delete_message d id author).1.messages
      deleted id author = elim (delete-rows d id author) [
        | inl e ↦ subst UniqueIds (sym e) unique
        | inr e ↦
            subst UniqueIds (sym e) (filter-UniqueIds (λ m. not (m.id == id)) d.messages unique)
      ]

  -- Nothing that an account posts, edits or deletes changes the row of a message of another account.
  pub others-rows :
      (channel author id i : Ident) (content : Text) (given : Option Text)
      (attachments : List Ident) (r : MessageRow)
      → row_of d i ≡ some r
      → r.author_id ≢ author
      → (row_of (insert_message next_rowid now d channel author content given attachments).1 i
          ≡ some r)
        × (row_of (edit_message now d id author content).1 i ≡ some r)
        × (row_of (delete_message d id author).1 i ≡ some r)
  others-rows channel author id i content given attachments r held other = (
    elim (insert-rows next_rowid now d channel author content given attachments) [
      | inl e ↦ ap (find (λ q. q.id == i)) e ∙ held
      | inr e ↦
          ap (find (λ q. q.id == i)) e
          ∙ find-append_some (λ q. q.id == i) (λ q. true) d.messages _ r held
    ],
    ap (find (λ q. q.id == i)) (edit-rows now d id author content)
        ∙ (find-update (λ q. q.id == i) (λ q. q.id == id && q.author_id == author)
              (λ q. record q { content = content; edited_at = some now }) d.messages (λ q. refl)
            ∙ rw held (ap some untouched)),
    elim (Bool-cases (i == id)) [
      | inl same ↦
          ap (λ t. row_of t.1 i)
            (delete-refused d id author (
              subst (λ k. find (λ x. x.id == k && x.author_id == author) d.messages ≡ none)
                (ground arith) (unique_owner d.messages i author r unique held other)))
          ∙ held
      | inr apart ↦ elim (delete-rows d id author) [
        | inl e ↦ ap (find (λ q. q.id == i)) e ∙ held
        | inr e ↦
            ap (find (λ q. q.id == i)) e
            ∙ (find-filter (λ q. q.id == i) (λ m. not (m.id == id)) d.messages (λ q h. ground arith)
                ∙ held)
      ]
    ],
  )
    where
      untouched :
          (if r.id == id && r.author_id == author
            then record r { content = content; edited_at = some now }
            else r)
          ≡ r
      untouched = ground arith
