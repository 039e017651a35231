-- ===== src/Server/Accounts.antt =====
-- crates/boa-server/src/auth.rs and the accounts of crates/boa-server/src/http.rs: the rules for names
-- and passwords, registering, logging in, and the token of a request. Argon2 (`hash_password`,
-- `verify_password`), a random token and `to_lowercase` of the standard library are arguments.
pub mod Login
use boa_voice.Prelude.{
  ℕ, ◌+◌, Bool, true, false, not, ◌&&◌, ◌||◌, Option, none, some, List, [], ◌∷◌, ◌++◌, ◌==◌, ltb,
  leb, if◌then◌else◌, length, take, drop, ◌⊎◌, inl, inr,
}
use boa_voice.Prelude.Text.{Text, text, text_eq, trim}
use boa_voice.Prelude.Text
use boa_voice.Proto.Model.{Ident, Millis, User, ChannelKind, text_kind, voice_kind}
use boa_voice.Server.Db
use boa_voice.Server.Db.{
  Tables, create_user, create_channel, store_token, user_by_name, user_for_token,
}

abbrev pub min_password : ℕ
min_password = 12

abbrev pub max_password : ℕ
max_password = 1024

pub data StatusCode : Type 0 where
  bad_request forbidden unauthorized internal_server_error : StatusCode

pub record Failure : Type 0 where
  pub status : StatusCode
  pub message : Text

abbrev pub bad : Text → Failure
bad message = record { status = StatusCode.bad_request; message = message }

abbrev pub unauthorised : Text → Failure
unauthorised message = record { status = StatusCode.unauthorized; message = message }

-- `internal`: the cause goes to the log.
abbrev pub internal : Failure
internal = record {
  status = StatusCode.internal_server_error;
  message = text "the server could not do that";
}

pub record Credentials : Type 0 where
  pub name : Text
  pub password : Text
  pub display_name : Text
  pub agent : Text

-- What registering and logging in answer.
pub record Session : Type 0 where
  pub token : Text
  pub user : User

-- `str::len`: the bytes of UTF-8.
abbrev pub utf8_len : Text → ℕ
utf8_len [] = 0
utf8_len (c ∷ rest) =
    (if ltb c 128 then 1 else if ltb c 2048 then 2 else if ltb c 65536 then 3 else 4)
    + utf8_len rest

-- `check_password_rules`: `none` is `Ok(())`.
unfoldable pub check_password_rules : Text → Option Text
check_password_rules password =
    if ltb (length password) min_password
    then some (text "a password needs at least 12 characters")
    else if ltb max_password (utf8_len password)
    then some (text "that password is unreasonably long")
    else none

-- `char::is_ascii_alphanumeric`
abbrev pub is_alphanumeric : ℕ → Bool
is_alphanumeric c = (leb 48 c && leb c 57) || ((leb 65 c && leb c 90) || (leb 97 c && leb c 122))

abbrev pub is_name_char : ℕ → Bool
is_name_char c = is_alphanumeric c || (c == 46 || (c == 95 || c == 45))

abbrev pub all : (ℕ → Bool) → Text → Bool
all p [] = true
all p (c ∷ rest) = p c && all p rest

abbrev pub starts_well : Text → Bool
starts_well [] = false
starts_well (c ∷ rest) = is_alphanumeric c

-- A prefix taken off, `strip_prefix`.
abbrev pub strip_prefix : Text → Text → Option Text
strip_prefix [] s = some s
strip_prefix (p ∷ ps) [] = none
strip_prefix (p ∷ ps) (c ∷ s) = let rest = strip_prefix ps s in if p == c then rest else none

-- The token of a request: its `Authorization` header, or else its `token` parameter.
abbrev pub bearer : Option Text → Option Text
bearer none = none
bearer (some value) = strip_prefix (text "Bearer ") value

abbrev pub or_else : Option Text → Option Text → Option Text
or_else none other = other
or_else (some token) other = some token

-- `authenticate`
unfoldable pub authenticate : Tables → Option Text → Option Text → Failure ⊎ Ident
unfolding user_for_token
authenticate d header query = elim (or_else (bearer header) query) [
  | none ↦ inl (unauthorised (text "no token"))
  | some token ↦ elim (user_for_token d token) [
    | none ↦ inl (unauthorised (text "that token is not valid"))
    | some user ↦ inr user.id
  ]
]

-- The dummy hash that a login for no account is checked against.
abbrev pub dummy_hash : Text
dummy_hash =
    text
      "$argon2id$v=19$m=19456,t=2,p=1$c29tZXNhbHRzb21lc2FsdA$Q0kKJTQ0hZ8s5xJZ9k7VYnP+P9ZQZ6z6mFhKZ8Xn5Cw"

abbrev pub no_account : Text → User
no_account name = record { id = 0; name = name; display_name = []; online = false }

module _ (lowercase : Text → Text) where
  -- `normalise_name`
  unfoldable pub normalise_name : Text → Text
  unfolding trim
  normalise_name name = lowercase (trim name)

  -- `check_name_rules`: `none` is `Ok(())`.
  unfoldable pub check_name_rules : Text → Option Text
  unfolding normalise_name
  check_name_rules raw =
      let name = normalise_name raw in
      if ltb (length name) 2
      then some (text "a name needs at least two characters")
      else if ltb 32 (length name)
      then some (text "a name can be at most 32 characters")
      else if not (all is_name_char name)
      then some (text "names may use letters, digits, dot, dash and underscore")
      else if not (starts_well name)
      then some (text "a name has to start with a letter or a digit")
      else none

  module _ (hash_password : Text → Option Text) (verify_password : Text → Text → Bool)
      (next_rowid : List Ident → Ident) (now : Millis) where
    -- What `issue_token` makes of the answer of `store_token`.
    abbrev pub token_answer :
        User → Text → Option (Unit {0}) × Tables → (Failure ⊎ Session) × Tables
    token_answer user token r = elim r.0 [
      | none ↦ (inl internal, r.1)
      | some _ ↦ (inr (record { token = token; user = user }), r.1)
    ]

    -- `issue_token`
    unfoldable pub issue_token : Tables → User → Text → Text → (Failure ⊎ Session) × Tables
    unfolding store_token
    issue_token d user agent token =
        token_answer user token (store_token next_rowid now d token user.id (take 120 agent))

    -- The starter channels of a new server.
    abbrev pub starter_channels : Bool → Tables → Tables
    starter_channels first d =
        if first
        then (create_channel next_rowid now
            (create_channel next_rowid now d (text "general") text_kind).1 (text "Lounge")
            voice_kind).1
        else d

    -- The name to show, as `register` takes it from the form.
    abbrev pub shown_name : Credentials → Text
    shown_name body =
        if Text.is_empty (trim body.display_name)
        then trim body.name
        else take 48 (trim body.display_name)

    -- What `register` makes of the answer of `create_user`.
    abbrev pub user_answer :
        Bool → Text → Text → Option User × Tables → (Failure ⊎ Session) × Tables
    user_answer first agent token r = elim r.0 [
      | none ↦ (inl (bad (text "that name is taken")), r.1)
      | some user ↦ issue_token (starter_channels first r.1) user agent token
    ]

    -- `register`, past its checks.
    unfoldable pub open_account : Tables → Credentials → Text → (Failure ⊎ Session) × Tables
    unfolding normalise_name create_user
    open_account d body token = elim (hash_password body.password) [
      | none ↦ (inl internal, d)
      | some hash ↦
          user_answer (Db.is_empty d) body.agent token
            (create_user next_rowid now d (normalise_name body.name) (shown_name body) hash)
    ]

    -- `register`; `is_open` is `Config::open_registration`.
    unfoldable pub register : Bool → Tables → Credentials → Text → (Failure ⊎ Session) × Tables
    unfolding open_account check_name_rules check_password_rules
    register is_open d body token =
        if not (Db.is_empty d || is_open)
        then (
          inl (record {
            status = StatusCode.forbidden;
            message = text "this server is not accepting new accounts";
          }),
          d,
        )
        else elim (check_name_rules body.name) [
          | some why ↦ (inl (bad why), d)
          | none ↦ elim (check_password_rules body.password) [
            | some why ↦ (inl (bad why), d)
            | none ↦ open_account d body token
          ]
        ]

    abbrev pub or_dummy : Text → Option (User × Text) → User × Text
    or_dummy name none = (no_account name, dummy_hash)
    or_dummy name (some found) = found

    -- `login` on the account, or on none, and the hash to check against.
    abbrev pub checked : Tables → Credentials → Text → User × Text → (Failure ⊎ Session) × Tables
    checked d body token found =
        if not (verify_password body.password found.1) || found.0.id == 0
        then (inl (unauthorised (text "wrong name or password")), d)
        else issue_token d found.0 body.agent token

    -- `login`
    unfoldable pub login : Tables → Credentials → Text → (Failure ⊎ Session) × Tables
    unfolding normalise_name user_by_name
    login d body token =
        checked d body token
          (or_dummy (normalise_name body.name) (user_by_name d (normalise_name body.name)))
