-- ===== src/Server/Accounts/Login.antt =====
-- Registering and then logging in, crates/boa-server/src/http.rs.
use boa_voice.Prelude.{
  ◌≡◌, ◌≢◌, refl, sym, ap, ◌∙◌, Bool, true, false, not, ◌||◌, Option, none, some, List, [], ◌∷◌,
  ◌++◌, ◌==◌, map, take, arith, Bool-cases, Option-cases, ◌⊎◌, inl, inr,
}
use boa_voice.Prelude.Lists.{find, any}
use boa_voice.Prelude.Text.{Text, text, text_eq, text_eq_iff}
use boa_voice.Proto.Model.{Ident, Millis, User}
use boa_voice.Server.Db
use boa_voice.Server.Db.{
  Tables, UserRow, create_user, create_channel, store_token, user_by_name, eq_nocase, has_user,
  row_to_user,
}
use boa_voice.Server.Accounts.{
  Failure, Credentials, Session, register, login, open_account, issue_token, starter_channels,
  normalise_name, shown_name, check_name_rules, check_password_rules, internal, bad, token_answer,
  user_answer, or_dummy, checked,
}

pub find_last :
    {A : Type 0} (p : A → Bool) (xs : List A) (x : A)
    → any p xs ≡ false
    → p x ≡ true
    → find p (xs ++ (x ∷ [])) ≡ some x
unfolding find any
find_last p [] x e h = ground arith
find_last p (y ∷ ys) x e h = ground (arith, find_last p ys x)

any_last :
    {A : Type 0} (p : A → Bool) (xs : List A) (x : A) → p x ≡ true → any p (xs ++ (x ∷ [])) ≡ true
unfolding any
any_last p [] x h = ground arith
any_last p (y ∷ ys) x h = ground (arith, any_last p ys x)

-- A refusal is no session.
refused_inr : (f : Failure) (s : Session) → inl f ≡ inr s → ⊥
refused_inr f s e = cc

session_user : (t s : Session) → ◌≡◌ {A = Failure ⊎ Session} (inr t) (inr s) → s.user ≡ t.user
session_user t s e = cc

-- A form whose two checks passed.
passed :
    (d : Tables) (s : Session) (d' : Tables) (name password : Option Text)
    (x : (Failure ⊎ Session) × Tables)
    → (elim name [
      | some why ↦ (inl (bad why), d)
      | none ↦ elim password [ some why ↦ (inl (bad why), d) | none ↦ x ]
    ])
      ≡ (inr s, d')
    → x ≡ (inr s, d')
passed d s d' none none x e = e
passed d s d' none (some why) x e = absurd (refused_inr (bad why) s (ap (λ r. r.0) e))
passed d s d' (some why) password x e = absurd (refused_inr (bad why) s (ap (λ r. r.0) e))

-- The account under a name, where it is the last.
user_by_name-last :
    (d : Tables) (rows : List UserRow) (name : Text) (r : UserRow)
    → d.users ≡ rows ++ (r ∷ [])
    → any (λ x. eq_nocase x.name name) rows ≡ false
    → eq_nocase r.name name ≡ true
    → user_by_name d name ≡ some (row_to_user r, r.password_hash)
unfolding user_by_name
user_by_name-last d rows name r e none_before hit =
    rw
      (
        ap (find (λ x. eq_nocase x.name name)) e
            ∙ find_last (λ x. eq_nocase x.name name) rows r none_before hit,
        user_by_name,
      )
      refl

module _ (lowercase : Text → Text) (hash_password : Text → Option Text)
    (verify_password : Text → Text → Bool) (next_rowid : List Ident → Ident) (now : Millis) where
  abbrev new_user : Tables → Credentials → Text → UserRow
  new_user d body hash = record {
    id = next_rowid (map (λ r. r.id) d.users);
    name = normalise_name lowercase body.name;
    display_name = shown_name lowercase hash_password verify_password next_rowid now body;
    password_hash = hash;
    created_at = now;
  }

  -- What an account that was opened leaves behind.
  record Opened (d : Tables) (body : Credentials) (s : Session) (d' : Tables) : Type 0 where
    hash : Text
    hashed : hash_password body.password ≡ some hash
    unknown : any (λ r. eq_nocase r.name (normalise_name lowercase body.name)) d.users ≡ false
    rows : d'.users ≡ d.users ++ (new_user d body hash ∷ [])
    owner : s.user ≡ row_to_user (new_user d body hash)

  store-refused :
      (d : Tables) (user : Ident) (agent token : Text)
      → (any (λ r. text_eq r.token token) d.tokens || not (has_user d user)) ≡ true
      → store_token next_rowid now d token user agent ≡ (none, d)
  unfolding store_token
  store-refused d user agent token e = rw (e, store_token) refl

  abbrev with_token : Tables → Ident → Text → Text → Tables
  with_token d user agent token = record d {
    tokens =
        d.tokens
        ++ (record { token = token; user_id = user; created_at = now; agent = agent } ∷ []);
  }

  store-stored :
      (d : Tables) (user : Ident) (agent token : Text)
      → (any (λ r. text_eq r.token token) d.tokens || not (has_user d user)) ≡ false
      → store_token next_rowid now d token user agent ≡ (some tt, with_token d user agent token)
  unfolding store_token
  store-stored d user agent token e = rw (e, store_token) refl

  issue-stored :
      (d : Tables) (user : User) (agent token : Text)
      → (any (λ r. text_eq r.token token) d.tokens || not (has_user d user.id)) ≡ false
      → issue_token lowercase hash_password verify_password next_rowid now d user agent token
        ≡ (inr (record { token = token; user = user }), with_token d user.id (take 120 agent) token)
  unfolding issue_token
  issue-stored d user agent token e =
      ap (token_answer lowercase hash_password verify_password next_rowid now user token)
        (store-stored d user.id (take 120 agent) token e)

  issued :
      (d : Tables) (user : User) (agent token : Text) (s : Session) (d' : Tables)
      → issue_token lowercase hash_password verify_password next_rowid now d user agent token
        ≡ (inr s, d')
      → (d'.users ≡ d.users) × (s.user ≡ user)
  unfolding issue_token
  issued d user agent token s d' e =
      elim (Bool-cases (any (λ r. text_eq r.token token) d.tokens || not (has_user d user.id))) [
        | inl clash ↦ absurd (
            refused_inr internal s (
              ap (λ r. r.0)
                (sym (
                    ap
                      (token_answer lowercase hash_password verify_password next_rowid now user
                        token)
                      (store-refused d user.id (take 120 agent) token clash))
                  ∙ e)))
        | inr fine ↦
            let same = sym (issue-stored d user agent token fine) ∙ e in
            (ap (λ r. r.1.users) (sym same), session_user _ s (ap (λ r. r.0) same))
      ]

  create-taken :
      (d : Tables) (name shown hash : Text)
      → any (λ r. eq_nocase r.name name) d.users ≡ true
      → create_user next_rowid now d name shown hash ≡ (none, d)
  unfolding create_user
  create-taken d name shown hash e = rw (e, create_user) refl

  create-new :
      (d : Tables) (body : Credentials) (hash : Text)
      → any (λ r. eq_nocase r.name (normalise_name lowercase body.name)) d.users ≡ false
      → create_user next_rowid now d
          (normalise_name lowercase body.name)
          (shown_name lowercase hash_password verify_password next_rowid now body)
          hash
        ≡ (
          some (row_to_user (new_user d body hash)),
          record d { users = d.users ++ (new_user d body hash ∷ []) },
        )
  unfolding create_user
  create-new d body hash e = rw (e, create_user) refl

  account-hashed :
      (d : Tables) (body : Credentials) (token hash : Text)
      → hash_password body.password ≡ some hash
      → open_account lowercase hash_password verify_password next_rowid now d body token
        ≡ user_answer lowercase hash_password verify_password next_rowid now
            (Db.is_empty d)
            body.agent
            token
            (create_user next_rowid now d
              (normalise_name lowercase body.name)
              (shown_name lowercase hash_password verify_password next_rowid now body)
              hash)
  unfolding open_account
  account-hashed d body token hash e = rw (e, open_account) refl

  account-unhashed :
      (d : Tables) (body : Credentials) (token : Text)
      → hash_password body.password ≡ none
      → open_account lowercase hash_password verify_password next_rowid now d body token
        ≡ (inl internal, d)
  unfolding open_account
  account-unhashed d body token e = rw (e, open_account) refl

  starter-users :
      (first : Bool) (d : Tables)
      → (starter_channels lowercase hash_password verify_password next_rowid now first d).users
        ≡ d.users
  unfolding create_channel
  starter-users true d = refl
  starter-users false d = refl

  opened :
      (d : Tables) (body : Credentials) (token : Text) (s : Session) (d' : Tables)
      → open_account lowercase hash_password verify_password next_rowid now d body token
        ≡ (inr s, d')
      → Opened d body s d'
  opened d body token s d' e = elim (Option-cases (hash_password body.password)) [
    | inl unmade ↦
        absurd
          (refused_inr internal s (ap (λ r. r.0) (sym (account-unhashed d body token unmade) ∙ e)))
    | inr (hash, made) ↦
        elim (Bool-cases
          (any (λ r. eq_nocase r.name (normalise_name lowercase body.name)) d.users)) [
            | inl taken ↦ absurd (
                refused_inr (bad (text "that name is taken")) s (
                  ap (λ r. r.0)
                    (sym (
                        account-hashed d body token hash made
                        ∙ ap
                            (user_answer lowercase hash_password verify_password next_rowid now
                              (Db.is_empty d) body.agent token)
                            (create-taken d (normalise_name lowercase body.name)
                              (shown_name lowercase hash_password verify_password next_rowid now
                                body)
                              hash taken))
                      ∙ e)))
            | inr unknown ↦
                let t =
                  starter_channels lowercase hash_password verify_password next_rowid now
                    (Db.is_empty d) (record d { users = d.users ++ (new_user d body hash ∷ []) }) in
                let (rows, owner) =
                  issued t (row_to_user (new_user d body hash)) body.agent token s d' (
                    sym (
                      account-hashed d body token hash made
                      ∙ ap
                          (user_answer lowercase hash_password verify_password next_rowid now
                            (Db.is_empty d) body.agent token)
                          (create-new d body hash unknown))
                    ∙ e) in
                record {
                  hash = hash;
                  hashed = made;
                  unknown = unknown;
                  rows =
                      rows
                      ∙ starter-users (Db.is_empty d)
                          (record d { users = d.users ++ (new_user d body hash ∷ []) });
                  owner = owner;
                }
          ]
  ]

  registered :
      (is_open : Bool) (d : Tables) (body : Credentials) (token : Text) (s : Session) (d' : Tables)
      → register lowercase hash_password verify_password next_rowid now is_open d body token
        ≡ (inr s, d')
      → open_account lowercase hash_password verify_password next_rowid now d body token
        ≡ (inr s, d')
  unfolding register
  registered is_open d body token s d' = elim (Bool-cases (not (Db.is_empty d || is_open))) [
    | inl closed ↦ rw closed (λ e. absurd (refused_inr _ s (ap (λ r. r.0) e)))
    | inr fine ↦ rw fine (
        passed d s d' (check_name_rules lowercase body.name) (check_password_rules body.password) _)
  ]

  checked-issues :
      (d : Tables) (body : Credentials) (token : Text) (r : UserRow)
      → verify_password body.password r.password_hash ≡ true
      → r.id ≢ 0
      → checked lowercase hash_password verify_password next_rowid now d body token
          (row_to_user r, r.password_hash)
        ≡ issue_token lowercase hash_password verify_password next_rowid now d
            (row_to_user r)
            body.agent
            token
  checked-issues d body token r right positive = rw (right, zero_test (r.id == 0) refl) refl
    where
      zero_test : (b : Bool) → (r.id == 0) ≡ b → (r.id == 0) ≡ false
      zero_test true e = absurd (positive (ground arith))
      zero_test false e = e

  -- An account that was registered can log in, with the password it registered with.
  pub register_then_login :
      (is_open : Bool) (d d' : Tables) (body : Credentials) (token again : Text) (s : Session)
      → ((password hash : Text)
          → hash_password password ≡ some hash
          → verify_password password hash ≡ true)
      → ((ids : List Ident) → next_rowid ids ≢ 0)
      → register lowercase hash_password verify_password next_rowid now is_open d body token
        ≡ (inr s, d')
      → any (λ r. text_eq r.token again) d'.tokens ≡ false
      → (login lowercase hash_password verify_password next_rowid now d' body again).0
        ≡ inr (record { token = again; user = s.user })
  unfolding login
  register_then_login is_open d d' body token again s honest positive e unused =
      let o = opened d body token s d' (registered is_open d body token s d' e) in
      let row = new_user d body o.hash in
      let name = normalise_name lowercase body.name in
      ap (λ r. r.0)
        (ap
            (λ f.
              checked lowercase hash_password verify_password next_rowid now d' body again
                (or_dummy lowercase hash_password verify_password next_rowid now name f))
            (user_by_name-last d' d.users name row o.rows o.unknown ((text_eq_iff _ _).1 refl))
          ∙ (checked-issues d' body again row (honest body.password o.hash o.hashed)
                (positive (map (λ r. r.id) d.users))
              ∙ issue-stored d' (row_to_user row) body.agent again
                  (ground (arith, unused, known o.hash o.rows))))
      ∙ ap (λ u. inr (record { token = again; user = u })) (sym o.owner)
    where
      known :
          (hash : Text)
          → d'.users ≡ d.users ++ (new_user d body hash ∷ [])
          → has_user d' (next_rowid (map (λ r. r.id) d.users)) ≡ true
      known hash e =
          ap (any (λ r. r.id == next_rowid (map (λ r. r.id) d.users))) e
          ∙ any_last (λ r. r.id == next_rowid (map (λ r. r.id) d.users)) d.users _ (ground arith)
