-- ===== src/Server/Db/Posting.antt =====
-- A message from its sender through crates/boa-server/src/session.rs into the tables of
-- crates/boa-server/src/db.rs and out to every connection.
use boa_voice.Prelude.{
  ℕ, ◌≤◌, ◌≡◌, ◌≢◌, refl, sym, ap, ◌∙◌, ◌⊎◌, Bool, true, false, ◌&&◌, Option, none, some, List, [],
  ◌∷◌, ◌++◌, ◌==◌, if◌then◌else◌, map, length, arith,
}
use boa_voice.Prelude.Map.{get}
use boa_voice.Prelude.Lists.{find}
use boa_voice.Prelude.Sets.{contains}
use boa_voice.Prelude.Text.{Text, trim, is_empty}
use boa_voice.Proto.Model.{Ident, Millis, Channel, Message}
use boa_voice.Proto.Control.{ClientMsg, ServerMsg}
use boa_voice.Server.Hub.{deliver}
use boa_voice.Server.Hub.Inv.{apply}
use boa_voice.Server.Db
use boa_voice.Server.Db.{
  Tables, MessageRow, existing, message, has_channel, has_user, attachments_for, row_to_message,
  with_nonce,
}
use boa_voice.Server.Db.Messages.{
  insert-posted, insert-repeat, posted, new_row, claim-messages, find-append,
}
use boa_voice.Server.Db.Authors.{map-ids}
use boa_voice.Server.Db.Instance.{sqlite}
use boa_voice.Server.Session.{World, Env, go_on, handle, max_content, max_attachments}
use boa_voice.Server.Session.Requests.{send_message-stored}

-- An empty nonce is none.
abbrev pub given : Text → Option Text
given tag = if is_empty tag then none else some tag

-- A message that is read from the tables has no nonce.
message-nonce : (d : Tables) (id : Ident) (m : Message) → message d id ≡ some m → m.nonce ≡ none
unfolding message
message-nonce d id m e = read (find (λ r. r.id == id) d.messages) e
  where
    read :
        (o : Option MessageRow)
        → (elim o [
          | none ↦ none
          | some r ↦ some (record (row_to_message r) { attachments = attachments_for d id })
        ])
          ≡ some m
        → m.nonce ≡ none
    read none e = cc
    read (some r) e = ap nonce_of (sym e)
      where
        nonce_of : Option Message → Option Text
        nonce_of none = none
        nonce_of (some n) = n.nonce

either : {A B : Type 0} (b : Bool) (f : A → B) (x y : A) → x ≡ y → (if b then f x else f y) ≡ f x
either true f x y e = refl
either false f x y e = ap f (sym e)

module _ (next_rowid : List Ident → Ident) (now : Millis) (env : Env) (w : World Tables)
    (channel : Ident) (raw tag : Text) (attachments : List Ident) where
  -- The row of the message, under the number that SQLite gives it.
  abbrev pub sent_row : MessageRow
  sent_row =
      new_row (next_rowid (map (λ r. r.id) w.db.messages)) channel w.user.id (trim raw) now
        (given tag)

  abbrev pub sent_tables : Tables
  sent_tables = posted next_rowid now w.db channel w.user.id (trim raw) (given tag) attachments

  -- The message that everybody but the sender gets.
  abbrev pub sent_message : Message
  sent_message = record (row_to_message sent_row) {
    attachments = attachments_for sent_tables sent_row.id;
  }

  found-sent :
      contains (map (λ r. r.id) w.db.messages) sent_row.id ≡ false
      → message sent_tables sent_row.id ≡ some sent_message
  unfolding message
  found-sent fresh =
      rw
        (
          ap (find (λ r. r.id == sent_row.id)) (
                claim-messages attachments
                  (record w.db { messages = w.db.messages ++ (sent_row ∷ []) }) sent_row.id
                  w.user.id)
              ∙ find-append (λ r. r.id == sent_row.id) w.db.messages sent_row
                  (map-ids w.db.messages sent_row.id fresh) (ground arith),
          message,
        )
        refl

  -- A message that passes the checks, in a channel that exists, of an account that exists, with no nonce or a
  -- new one and a number that is not in use, is put after the others with the trimmed text. Its sender gets it
  -- with the nonce; every other connection gets it without.
  pub send_message-posted :
      (c : Channel)
      → length (trim raw) ≤ max_content
      → length attachments ≤ max_attachments
      → ((trim raw ≢ []) ⊎ (attachments ≢ []))
      → Db.channel w.db channel ≡ some (some c)
      → (has_channel w.db channel && has_user w.db w.user.id) ≡ true
      → existing w.db w.user.id (given tag) ≡ none
      → contains (map (λ r. r.id) w.db.messages) sent_row.id ≡ false
      → (w' : World Tables) × (handle
            (sqlite next_rowid now)
            env
            w
            (ClientMsg.send_message channel raw tag attachments)
          ≡ some (go_on, w'))
        × (w'.db.messages ≡ w.db.messages ++ (sent_row ∷ []))
        × ((i : ℕ)
            → get i w'.hub.conns ≡ (
                if w.conn == i
                then apply
                    (deliver (ServerMsg.message_create (record sent_message { nonce = given tag })))
                    (get i w.hub.conns)
                else apply (deliver (ServerMsg.message_create sent_message)) (get i w.hub.conns)))
  send_message-posted c short few some_thing here allowed new fresh =
      let inserted =
        insert-posted next_rowid now w.db channel w.user.id (trim raw) (given tag) attachments new
          allowed in
      let (w', handled, tables, queues) =
        send_message-stored (sqlite next_rowid now) env w channel raw tag attachments c
          (record sent_message { nonce = given tag }) short few some_thing here
          (ap (λ r. r.0) inserted ∙ ap (with_nonce (given tag)) (found-sent fresh)) in
      (
        w',
        handled,
        ap (λ d. d.messages) (tables ∙ ap (λ r. r.1) inserted)
            ∙ claim-messages attachments
                (record w.db { messages = w.db.messages ++ (sent_row ∷ []) }) sent_row.id w.user.id,
        queues,
      )

  -- A message under a nonce that its account has used already, for a message `m`, stores nothing; every
  -- connection gets `m` again, the sender's copy without the nonce too.
  pub send_message-repeated :
      (id : Ident) (m : Message) (c : Channel)
      → length (trim raw) ≤ max_content
      → length attachments ≤ max_attachments
      → ((trim raw ≢ []) ⊎ (attachments ≢ []))
      → Db.channel w.db channel ≡ some (some c)
      → existing w.db w.user.id (given tag) ≡ some id
      → message w.db id ≡ some m
      → (w' : World Tables) × (handle
            (sqlite next_rowid now)
            env
            w
            (ClientMsg.send_message channel raw tag attachments)
          ≡ some (go_on, w'))
        × (w'.db ≡ w.db)
        × ((i : ℕ)
            → get i w'.hub.conns ≡ apply (deliver (ServerMsg.message_create m)) (get i w.hub.conns))
  send_message-repeated id m c short few some_thing here known there =
      let repeated =
        insert-repeat next_rowid now w.db channel w.user.id id (trim raw) (given tag) attachments
          known in
      let (w', handled, tables, queues) =
        send_message-stored (sqlite next_rowid now) env w channel raw tag attachments c m short few
          some_thing here (ap (λ r. r.0) repeated ∙ there) in
      (
        w',
        handled,
        tables ∙ ap (λ r. r.1) repeated,
        λ i.
            queues i
            ∙ either (w.conn == i)
                (λ n. apply (deliver (ServerMsg.message_create n)) (get i w.hub.conns)) m
                (record m { nonce = none })
                (ap (λ n. record m { nonce = n }) (message-nonce w.db id m there)),
      )
