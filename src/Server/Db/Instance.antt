-- ===== src/Server/Db/Instance.antt =====
-- The methods of crates/boa-server/src/db.rs as the interface that crates/boa-server/src/session.rs
-- calls, and a message that a client sends twice because it lost the answer.
use boa_voice.Prelude.{
  ◌≡◌, refl, sym, ap, ◌∙◌, subst, Bool, true, false, ◌&&◌, Option, none, some, List, ltb,
  if◌then◌else◌, length, Bool-cases, Option-cases, inl, inr, ◌⊎◌,
}
use boa_voice.Prelude.Text.{Text, trim}
use boa_voice.Prelude.Text
use boa_voice.Proto.Model.{Ident, Millis, Channel, Message}
use boa_voice.Proto.Control.{ClientMsg}
use boa_voice.Server.Db.{
  Tables, users, channels, channel, history, insert_message, edit_message, delete_message,
  create_channel, set_display_name, user_for_token, existing, has_channel, has_user,
}
use boa_voice.Server.Db.Messages.{insert-repeat, insert-refused, insert-posted, posted-existing}
use boa_voice.Server.Session.{
  Db, World, Env, Flow, handle, send_message, store_message, max_content, max_attachments,
}

module _ (next_rowid : List Ident → Ident) (now : Millis) where
  -- The interface over the tables.
  abbrev pub sqlite : Db Tables
  sqlite = record {
    users = λ d. some (users d);
    channels = channels;
    channel = channel;
    history = λ d c before limit. some (history d c before limit);
    insert_message = insert_message next_rowid now;
    edit_message = λ d id author content.
        (some (edit_message now d id author content).0, (edit_message now d id author content).1);
    delete_message =
        λ d id author. (some (delete_message d id author).0, (delete_message d id author).1);
    create_channel = create_channel next_rowid now;
    set_display_name = λ d id name. (some tt, set_display_name d id name);
    user_for_token = λ d token. some (user_for_token d token);
  }

module _ (next_rowid : List Ident → Ident) (now now' : Millis) (channel author : Ident)
    (content nonce : Text) (attachments : List Ident) where
  again : Tables → Tables
  again d = (insert_message next_rowid now' d channel author content (some nonce) attachments).1

  -- Under the same nonce, the second time changes nothing, at whatever time.
  insert-twice :
      (d : Tables)
      → let d' =
          (insert_message next_rowid now d channel author content (some nonce) attachments).1 in
        again d' ≡ d'
  unfolding again
  insert-twice d = elim (Option-cases (existing d author (some nonce))) [
    | inr (id, e) ↦
        subst (λ (r : Option Message × Tables). again r.1 ≡ r.1)
          (sym
            (insert-repeat next_rowid now d channel author id content (some nonce) attachments e))
          (ap (λ r. r.1)
            (insert-repeat next_rowid now' d channel author id content (some nonce) attachments e))
    | inl e ↦ elim (Bool-cases (has_channel d channel && has_user d author)) [
      | inr refused ↦
          subst (λ (r : Option Message × Tables). again r.1 ≡ r.1)
            (sym (
              insert-refused next_rowid now d channel author content (some nonce) attachments e
                refused))
            (ap (λ r. r.1)
              (insert-refused next_rowid now' d channel author content (some nonce) attachments e
                refused))
      | inl allowed ↦
          subst (λ (r : Option Message × Tables). again r.1 ≡ r.1)
            (sym (
              insert-posted next_rowid now d channel author content (some nonce) attachments e
                allowed))
            (ap (λ r. r.1)
              (insert-repeat next_rowid now' _ channel author _ content (some nonce) attachments
                (posted-existing next_rowid now d channel author content nonce attachments e)))
    ]
  ]

-- The handler came to its end with these tables.
abbrev Leaves : Tables → Option (Flow × World Tables) → Type 0
Leaves d none = ⊥
Leaves d (some (flow, w)) = w.db ≡ d

if_Leaves :
    (b : Bool) (d e : Tables) (x y : Option (Flow × World Tables))
    → Leaves d x
    → Leaves e y
    → Leaves (if b then d else e) (if b then x else y)
if_Leaves true d e x y lx ly = lx
if_Leaves false d e x y lx ly = ly

answer_Leaves :
    {A : Type 0} (o : Option (Option A)) (d e : Tables) (x y : Option (Flow × World Tables))
    (f : A → Option (Flow × World Tables))
    → Leaves d x
    → Leaves d y
    → ((a : A) → Leaves e (f a))
    → Leaves
        (elim o [ none ↦ d | some none ↦ d | some (some a) ↦ e ])
        (elim o [ none ↦ x | some none ↦ y | some (some a) ↦ f a ])
answer_Leaves none d e x y f lx ly lf = lx
answer_Leaves (some none) d e x y f lx ly lf = ly
answer_Leaves (some (some a)) d e x y f lx ly lf = lf a

module _ (next_rowid : List Ident → Ident) (env : Env) (now : Millis) where
  store-db :
      (w : World Tables) (c : Ident) (content : Text) (given : Option Text)
      (attachments : List Ident)
      → (store_message (sqlite next_rowid now) env w c content given attachments).db
        ≡ (insert_message next_rowid now w.db c w.user.id content given attachments).1
  unfolding store_message
  store-db w c content given attachments =
      elim (Option-cases
        (insert_message next_rowid now w.db c w.user.id content given attachments).0) [
          | inl e ↦ rw (e, store_message) refl
          | inr (m, e) ↦ rw (e, store_message) refl
        ]

module _ (c : Ident) (raw : Text) (attachments : List Ident) where
  -- The tables after a message: past the three checks and in a channel that is there, those that
  -- `insert_message` leaves; otherwise those before.
  sent_tables : Tables → Tables → Tables
  sent_tables d t =
      if ltb max_content (length (trim raw))
      then d
      else if ltb max_attachments (length attachments)
      then d
      else if Text.is_empty (trim raw) && Text.is_empty attachments
      then d
      else elim (channel d c) [ none ↦ d | some none ↦ d | some (some a) ↦ t ]

  sent-either :
      (d : Tables) → ((t : Tables) → sent_tables d t ≡ d) ⊎ ((t : Tables) → sent_tables d t ≡ t)
  unfolding sent_tables
  sent-either d = elim (Bool-cases (ltb max_content (length (trim raw)))) [
    | inl long ↦ inl (λ t. rw long refl)
    | inr short ↦ elim (Bool-cases (ltb max_attachments (length attachments))) [
      | inl many ↦ inl (λ t. rw (short, many) refl)
      | inr few ↦ elim (Bool-cases (Text.is_empty (trim raw) && Text.is_empty attachments)) [
        | inl empty ↦ inl (λ t. rw (short, few, empty) refl)
        | inr full ↦ elim (looked (channel d c)) [
          | inl h ↦ inl (λ t. rw (short, few, full) (h t))
          | inr h ↦ inr (λ t. rw (short, few, full) (h t))
        ]
      ]
    ]
  ]
    where
      looked :
          (o : Option (Option Channel))
          → ((t : Tables) → (elim o [ none ↦ d | some none ↦ d | some (some a) ↦ t ]) ≡ d)
            ⊎ ((t : Tables) → (elim o [ none ↦ d | some none ↦ d | some (some a) ↦ t ]) ≡ t)
      looked none = inl (λ t. refl)
      looked (some none) = inl (λ t. refl)
      looked (some (some a)) = inr (λ t. refl)

  sent-same : (d : Tables) → sent_tables d d ≡ d
  sent-same d = elim (sent-either d) [ inl h ↦ h d | inr h ↦ h d ]

  -- Two functions of which the second changes nothing after the first.
  sent-settled :
      (f g : Tables → Tables)
      → ((d : Tables) → g (f d) ≡ f d)
      → (d : Tables)
      → sent_tables (sent_tables d (f d)) (g (sent_tables d (f d))) ≡ sent_tables d (f d)
  sent-settled f g same d = elim (sent-either d) [
    | inl h ↦ subst (λ x. sent_tables x (g x) ≡ x) (sym (h (f d))) (h (g d))
    | inr h ↦
        subst (λ x. sent_tables x (g x) ≡ x) (sym (h (f d)))
          (ap (sent_tables (f d)) (same d) ∙ sent-same (f d))
  ]

  module _ (next_rowid : List Ident → Ident) (nonce : Text) where
    stored : Millis → Ident → Tables → Tables
    stored now author d =
        (insert_message next_rowid now d c author (trim raw)
          (if Text.is_empty nonce then none else some nonce) attachments).1

    send-Leaves :
        (env : Env) (now : Millis) (w : World Tables)
        → Leaves
            (sent_tables w.db (stored now w.user.id w.db))
            (handle (sqlite next_rowid now) env w (ClientMsg.send_message c raw nonce attachments))
    unfolding sent_tables stored handle send_message
    send-Leaves env now w = if_Leaves (ltb max_content (length (trim raw))) _ _ _ _ refl (
        if_Leaves (ltb max_attachments (length attachments)) _ _ _ _ refl (
          if_Leaves (Text.is_empty (trim raw) && Text.is_empty attachments) _ _ _ _ refl (
            answer_Leaves (channel w.db c) _ _ _ _ _ refl refl (λ a.
              store-db next_rowid env now w c (trim raw)
                (if Text.is_empty nonce then none else some nonce) attachments))))

    stored-twice :
        (now now' : Millis) (author : Ident) (d : Tables)
        → Text.is_empty nonce ≡ false
        → stored now' author (stored now author d) ≡ stored now author d
    unfolding stored again
    stored-twice now now' author d given =
        rw (given, stored)
          (insert-twice next_rowid now now' c author (trim raw) nonce attachments d)

    -- A message that an account sends a second time under the same nonce, in this session or in
    -- another one, changes nothing in the database, if nobody wrote to it in between.
    pub resent :
        (env env' : Env) (now now' : Millis) (w w' x x' : World Tables) (flow flow' : Flow)
        → Text.is_empty nonce ≡ false
        → handle (sqlite next_rowid now) env w (ClientMsg.send_message c raw nonce attachments)
          ≡ some (flow, w')
        → x.db ≡ w'.db
        → x.user.id ≡ w.user.id
        → handle (sqlite next_rowid now') env' x (ClientMsg.send_message c raw nonce attachments)
          ≡ some (flow', x')
        → x'.db ≡ w'.db
    resent env env' now now' w w' x x' flow flow' given first same_db same_user second =
        let e : w'.db ≡ sent_tables w.db (stored now w.user.id w.db) =
          subst (Leaves _) first (send-Leaves env now w) in
        let e' : x'.db ≡ sent_tables x.db (stored now' x.user.id x.db) =
          subst (Leaves _) second (send-Leaves env' now' x) in
        e'
        ∙ (ap (λ d. sent_tables d (stored now' x.user.id d)) (same_db ∙ e)
            ∙ (ap
                  (λ u.
                    sent_tables (sent_tables w.db (stored now w.user.id w.db))
                      (stored now' u (sent_tables w.db (stored now w.user.id w.db))))
                  same_user
                ∙ (sent-settled (stored now w.user.id) (stored now' w.user.id)
                      (λ d. stored-twice now now' w.user.id d given) w.db
                    ∙ sym e)))
