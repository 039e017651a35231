-- ===== src/Server/Db/Attached.antt =====
-- What hangs on a message: `Db::insert_message`, which claims attachments, `Db::edit_message` and
-- `Db::delete_message` of crates/boa-server/src/db.rs.
use boa_voice.Prelude.{
  ◌≡◌, ◌≢◌, refl, sym, ap, ◌∙◌, subst, Bool, true, false, not, ◌&&◌, Option, none, some, List, [],
  ◌∷◌, ◌==◌, map, leb, arith, Bool-cases, Option-cases, inl, inr, ◌⊎◌,
}
use boa_voice.Prelude.Sets.{contains}
use boa_voice.Prelude.Lists.{find, any, filter}
use boa_voice.Prelude.Text.{Text}
use boa_voice.Prelude.Sorting.{sort_by}
use boa_voice.Proto.Model.{Ident, Millis}
use boa_voice.Server.Db.{
  Tables, MessageRow, AttachmentRow, existing, insert_message, edit_message, delete_message,
  has_channel, has_user, update, claim, attachments_for, is_value, is_null, row_to_attachment,
}
use boa_voice.Server.Db.Messages.{insert-posted, insert-repeat, insert-refused, posted}
use boa_voice.Server.Db.Authors.{
  row_of, UniqueIds, others-rows, unique_owner, delete-refused, map-ids,
}

-- An upload of another account that no message has claimed.
abbrev pub unsent_of_others : Ident → AttachmentRow → Bool
unsent_of_others author a = not (a.uploader_id == author) && is_null a.message_id

-- Message `i`, of which `r` is the row, is what it was before, its attachments included; and so is every
-- upload of others than `author` that no message has claimed.
abbrev pub Intact : Ident → Ident → MessageRow → Tables → Tables → Type 0
Intact author i r d t =
    (row_of t i ≡ some r)
    × (attachments_for t i ≡ attachments_for d i)
    × (filter (unsent_of_others author) t.attachments
        ≡ filter (unsent_of_others author) d.attachments)

module _ {A : Type 0} (p q : A → Bool) where
  -- Rows that a test leaves out can change where it leaves them out afterwards.
  filter-update :
      (f : A → A) (rows : List A)
      → ((r : A) → q r ≡ true → (p r ≡ false) × (p (f r) ≡ false))
      → filter p (update q f rows) ≡ filter p rows
  unfolding filter
  filter-update f [] out = refl
  filter-update f (r ∷ rest) out = elim (Bool-cases (q r)) [
    | inl hit ↦ ground (arith, filter-update f rest out, out r hit)
    | inr miss ↦ ground (arith, filter-update f rest out)
  ]

  filter-filter :
      (rows : List A)
      → ((r : A) → p r ≡ true → q r ≡ true)
      → filter p (filter q rows) ≡ filter p rows
  unfolding filter
  filter-filter [] sub = refl
  filter-filter (r ∷ rest) sub = elim (Bool-cases (p r)) [
    | inl hit ↦ ground (arith, filter-filter rest sub, sub r hit)
    | inr miss ↦ elim (Bool-cases (q r)) [
      | inl kept ↦ ground (arith, filter-filter rest sub)
      | inr gone ↦ ground (arith, filter-filter rest sub)
    ]
  ]

module _ (p : AttachmentRow → Bool) (id author : Ident)
    (out : (r : AttachmentRow)
      → (r.uploader_id == author && is_null r.message_id) ≡ true
      → (p r ≡ false) × (p (record r { message_id = some id }) ≡ false)) where
  filter-claim :
      (l : List Ident) (d : Tables)
      → filter p (claim d id author l).attachments ≡ filter p d.attachments
  unfolding claim
  filter-claim [] d = refl
  filter-claim (a ∷ rest) d =
      filter-claim rest _
      ∙ filter-update p (λ r. r.id == a && (r.uploader_id == author && is_null r.message_id))
          (λ r. record r { message_id = some id }) d.attachments (λ r hit. out r (ground arith))

attachments-same :
    (d t : Tables) (i : Ident)
    → filter (λ a. is_value a.message_id i) t.attachments
      ≡ filter (λ a. is_value a.message_id i) d.attachments
    → attachments_for t i ≡ attachments_for d i
unfolding attachments_for
attachments-same d t i e = ap (λ l. map row_to_attachment (sort_by (λ a b. leb a.id b.id) l)) e

module _ (next_rowid : List Ident → Ident) (now : Millis) (d : Tables) (channel author : Ident)
    (content : Text) (given : Option Text) (attachments : List Ident) where
  -- A repeat and a refusal change nothing; otherwise the message is posted.
  insert-tables :
      ((insert_message next_rowid now d channel author content given attachments).1 ≡ d)
      ⊎ ((insert_message next_rowid now d channel author content given attachments).1
          ≡ posted next_rowid now d channel author content given attachments)
  insert-tables = elim (Option-cases (existing d author given)) [
    | inr (id, e) ↦ inl (
        ap (λ r. r.1)
          (insert-repeat next_rowid now d channel author id content given attachments e))
    | inl e ↦ elim (Bool-cases (has_channel d channel && has_user d author)) [
      | inr refused ↦ inl (
          ap (λ r. r.1)
            (insert-refused next_rowid now d channel author content given attachments e refused))
      | inl allowed ↦ inr (
          ap (λ r. r.1)
            (insert-posted next_rowid now d channel author content given attachments e allowed))
    ]
  ]

  -- What is claimed is the author's own, and goes to the new message.
  posted-attachments :
      (i : Ident)
      → next_rowid (map (λ r. r.id) d.messages) ≢ i
      → let t = posted next_rowid now d channel author content given attachments in
        (attachments_for t i ≡ attachments_for d i)
        × (filter (unsent_of_others author) t.attachments
            ≡ filter (unsent_of_others author) d.attachments)
  posted-attachments i other = (
    attachments-same d _ i (
        filter-claim (λ a. is_value a.message_id i) _ author (λ r own. ground arith) attachments _),
    filter-claim (unsent_of_others author) _ author (λ r own. ground arith) attachments _,
  )

edit-attachments :
    (now : Millis) (d : Tables) (id author : Ident) (content : Text)
    → (edit_message now d id author content).1.attachments ≡ d.attachments
unfolding edit_message
edit-attachments now d id author content =
    elim (Bool-cases (any (λ r. r.id == id && r.author_id == author) d.messages)) [
      | inl mine ↦ rw (mine, edit_message) refl
      | inr nobody ↦ rw (nobody, edit_message) refl
    ]

delete-attachments :
    (d : Tables) (id author : Ident)
    → ((delete_message d id author).1 ≡ d)
      ⊎ ((delete_message d id author).1.attachments
          ≡ filter (λ a. not (is_value a.message_id id)) d.attachments)
unfolding delete_message
delete-attachments d id author =
    elim (Option-cases (find (λ r. r.id == id && r.author_id == author) d.messages)) [
      | inl e ↦ inl (rw (e, delete_message) refl)
      | inr (r, e) ↦ inr (rw (e, delete_message) refl)
    ]

module _ (next_rowid : List Ident → Ident) (now : Millis) (d : Tables)
    (unique : UniqueIds d.messages)
    (fresh : contains (map (λ r. r.id) d.messages) (next_rowid (map (λ r. r.id) d.messages))
      ≡ false) where
  -- Nothing that an account posts, edits or deletes changes a message of another account, or what is
  -- attached to it, or touches an upload of another account that no message has claimed, where the ids of messages are unique and a new
  -- message gets one that is not in use.
  pub others_kept :
      (channel author id i : Ident) (content : Text) (given : Option Text)
      (attachments : List Ident) (r : MessageRow)
      → row_of d i ≡ some r
      → r.author_id ≢ author
      → Intact author i r d
          (insert_message next_rowid now d channel author content given attachments).1
        × Intact author i r d (edit_message now d id author content).1
        × Intact author i r d (delete_message d id author).1
  others_kept channel author id i content given attachments r held other =
      let (row₁, row₂, row₃) =
        others-rows next_rowid now d unique channel author id i content given attachments r held
          other in
      (
        (row₁, attached.0, attached.1),
        (
          row₂,
          attachments-same d _ i (
              ap (filter (λ a. is_value a.message_id i))
                (edit-attachments now d id author content)),
          ap (filter (unsent_of_others author)) (edit-attachments now d id author content),
        ),
        (row₃, (left (Bool-cases (i == id))).0, (left (Bool-cases (i == id))).1),
      )
    where
      new_number : next_rowid (map (λ m. m.id) d.messages) ≢ i
      new_number same =
          clash (sym held ∙ subst (λ k. row_of d k ≡ none) same (map-ids d.messages _ fresh))
        where
          clash : some r ≡ none → ⊥
          clash e = cc

      attached :
          let t = (insert_message next_rowid now d channel author content given attachments).1 in
          (attachments_for t i ≡ attachments_for d i)
          × (filter (unsent_of_others author) t.attachments
              ≡ filter (unsent_of_others author) d.attachments)
      attached = elim (insert-tables next_rowid now d channel author content given attachments) [
        | inl e ↦ rw e (refl, refl)
        | inr e ↦ rw e (
            posted-attachments next_rowid now d channel author content given attachments i
              new_number)
      ]

      left :
          ((i == id) ≡ true) ⊎ ((i == id) ≡ false)
          → let t = (delete_message d id author).1 in
            (attachments_for t i ≡ attachments_for d i)
            × (filter (unsent_of_others author) t.attachments
                ≡ filter (unsent_of_others author) d.attachments)
      left (inl same) =
          rw
            (delete-refused d id author (
              subst (λ k. find (λ x. x.id == k && x.author_id == author) d.messages ≡ none)
                (ground arith) (unique_owner d.messages i author r unique held other)))
            (refl, refl)
      left (inr apart) = elim (delete-attachments d id author) [
        | inl e ↦ rw e (refl, refl)
        | inr e ↦ (
          attachments-same d _ i (
              ap (filter (λ a. is_value a.message_id i)) e
              ∙ filter-filter (λ a. is_value a.message_id i) (λ a. not (is_value a.message_id id))
                  d.attachments (λ a hit. ground arith)),
          ap (filter (unsent_of_others author)) e
              ∙ filter-filter (unsent_of_others author) (λ a. not (is_value a.message_id id))
                  d.attachments (λ a hit. ground arith),
        )
      ]
