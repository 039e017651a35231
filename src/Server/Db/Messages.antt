-- ===== src/Server/Db/Messages.antt =====
-- Posting, resending, editing and deleting: `Db::insert_message` and what follows it in
-- crates/boa-server/src/db.rs.
use boa_voice.Prelude.{
  ◌≡◌, refl, sym, ap, ◌∙◌, subst, Bool, true, false, ◌&&◌, Option, none, some, List, [], ◌∷◌, ◌++◌,
  ◌==◌, map, arith, Bool-cases, Option-cases, inl, inr,
}
use boa_voice.Prelude.Lists.{find}
use boa_voice.Prelude.Text.{Text, text_eq_iff}
use boa_voice.Proto.Model.{Ident, Millis, Message}
use boa_voice.Server.Db.{
  Tables, MessageRow, existing, message, claim, insert_message, is_nonce, has_channel, has_user,
  with_nonce,
}

pub find-append :
    {A : Type 0} (p : A → Bool) (xs : List A) (x : A)
    → find p xs ≡ none
    → p x ≡ true
    → find p (xs ++ (x ∷ [])) ≡ some x
unfolding find
find-append p [] x e h = ground arith
find-append p (y ∷ ys) x e h = ground (arith, find-append p ys x)

no_row : (o : Option MessageRow) → (elim o [ none ↦ none | some r ↦ some r.id ]) ≡ none → o ≡ none
no_row none e = refl
no_row (some r) e = cc

-- What a lookup returns carries no nonce.
message-plain : (d : Tables) (id : Ident) → with_nonce none (message d id) ≡ message d id
unfolding message
message-plain d id = elim (Option-cases (find (λ r. r.id == id) d.messages)) [
  | inl gone ↦ rw (gone, message) refl
  | inr (r, held) ↦ rw (held, message) refl
]

with_nonce-twice :
    (a b : Option Text) (o : Option Message) → with_nonce a (with_nonce b o) ≡ with_nonce a o
with_nonce-twice a b none = refl
with_nonce-twice a b (some m) = refl

pub claim-messages :
    (l : List Ident) (d : Tables) (id author : Ident) → (claim d id author l).messages ≡ d.messages
unfolding claim
claim-messages [] d id author = refl
claim-messages (a ∷ rest) d id author = claim-messages rest _ id author

abbrev pub new_row : Ident → Ident → Ident → Text → Millis → Option Text → MessageRow
new_row id channel author content now nonce = record {
  id = id;
  channel_id = channel;
  author_id = author;
  content = content;
  created_at = now;
  edited_at = none;
  nonce = nonce;
}

module _ (next_rowid : List Ident → Ident) (now : Millis) where
  -- The tables after a message that is no repeat.
  abbrev pub posted : Tables → Ident → Ident → Text → Option Text → List Ident → Tables
  posted d channel author content nonce attachments =
      let id = next_rowid (map (λ r. r.id) d.messages) in
      claim
        (record d { messages = d.messages ++ (new_row id channel author content now nonce ∷ []) })
        id author attachments

  pub insert-repeat :
      (d : Tables) (channel author id : Ident) (content : Text) (given : Option Text)
      (attachments : List Ident)
      → existing d author given ≡ some id
      → insert_message next_rowid now d channel author content given attachments ≡ (message d id, d)
  unfolding insert_message
  insert-repeat d channel author id content given attachments e = rw (e, insert_message) refl

  pub insert-refused :
      (d : Tables) (channel author : Ident) (content : Text) (given : Option Text)
      (attachments : List Ident)
      → existing d author given ≡ none
      → (has_channel d channel && has_user d author) ≡ false
      → insert_message next_rowid now d channel author content given attachments ≡ (none, d)
  unfolding insert_message
  insert-refused d channel author content given attachments e refused =
      rw (e, refused, insert_message) refl

  pub insert-posted :
      (d : Tables) (channel author : Ident) (content : Text) (given : Option Text)
      (attachments : List Ident)
      → existing d author given ≡ none
      → (has_channel d channel && has_user d author) ≡ true
      → insert_message next_rowid now d channel author content given attachments ≡ (
        with_nonce given (
            message
              (posted d channel author content given attachments)
              (next_rowid (map (λ r. r.id) d.messages))),
        posted d channel author content given attachments,
      )
  unfolding insert_message
  insert-posted d channel author content given attachments e allowed =
      rw (e, allowed, insert_message) refl

  pub posted-existing :
      (d : Tables) (channel author : Ident) (content nonce : Text) (attachments : List Ident)
      → existing d author (some nonce) ≡ none
      → existing (posted d channel author content (some nonce) attachments) author (some nonce)
        ≡ some (next_rowid (map (λ r. r.id) d.messages))
  unfolding existing
  posted-existing d channel author content nonce attachments e =
      ap (λ rows. id_of (find sought rows))
        (claim-messages attachments (record d { messages = d.messages ++ (row ∷ []) }) id author)
      ∙ ap id_of (
          find-append sought d.messages row (no_row _ e)
            (ground (arith, (text_eq_iff nonce nonce).1 refl)))
    where
      id : Ident
      id = next_rowid (map (λ r. r.id) d.messages)

      row : MessageRow
      row = new_row id channel author content now (some nonce)

      sought : MessageRow → Bool
      sought r = r.author_id == author && is_nonce r.nonce nonce

      id_of : Option MessageRow → Option Ident
      id_of none = none
      id_of (some r) = some r.id

  -- A message sent again under the same nonce, whatever else the repeat says, is not stored again: the
  -- first one comes back, without its nonce, and the tables stay as they are.
  pub resend :
      (d d' : Tables) (channel channel' author : Ident) (content content' nonce : Text)
      (attachments attachments' : List Ident) (m : Message)
      → insert_message next_rowid now d channel author content (some nonce) attachments
        ≡ (some m, d')
      → insert_message next_rowid now d' channel' author content' (some nonce) attachments'
        ≡ (some (record m { nonce = none }), d')
  resend d d' channel channel' author content content' nonce attachments attachments' m sent =
      elim (Option-cases (existing d author (some nonce))) [
        | inr (id, e) ↦
            let same : (message d id, d) ≡ (some m, d') =
              sym (insert-repeat d channel author id content (some nonce) attachments e) ∙ sent in
            let same_db : d ≡ d' = ap (λ r. r.1) same in
            subst
              (λ t.
                insert_message next_rowid now t channel' author content' (some nonce) attachments'
                ≡ (some (record m { nonce = none }), t))
              same_db
              (insert-repeat d channel' author id content' (some nonce) attachments' e
                ∙ ap (λ o. (o, d))
                    (sym (message-plain d id) ∙ ap (with_nonce none) (ap (λ r. r.0) same)))
        | inl e ↦ elim (Bool-cases (has_channel d channel && has_user d author)) [
          | inr refused ↦ absurd (
              nothing (
                ap (λ r. r.0)
                  (sym (insert-refused d channel author content (some nonce) attachments e refused)
                    ∙ sent)))
          | inl allowed ↦
              let d₂ = posted d channel author content (some nonce) attachments in
              let id = next_rowid (map (λ r. r.id) d.messages) in
              let same : (with_nonce (some nonce) (message d₂ id), d₂) ≡ (some m, d') =
                sym (insert-posted d channel author content (some nonce) attachments e allowed)
                ∙ sent in
              subst
                (λ t.
                  insert_message next_rowid now t channel' author content' (some nonce) attachments'
                  ≡ (some (record m { nonce = none }), t))
                (ap (λ r. r.1) same)
                (insert-repeat d₂ channel' author id content' (some nonce) attachments'
                    (posted-existing d channel author content nonce attachments e)
                  ∙ ap (λ o. (o, d₂))
                      (sym (message-plain d₂ id)
                        ∙ (sym (with_nonce-twice none (some nonce) (message d₂ id))
                            ∙ ap (with_nonce none) (ap (λ r. r.0) same))))
        ]
      ]
    where
      nothing : none ≡ some m → ⊥
      nothing e = cc
