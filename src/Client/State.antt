-- ===== src/Client/State.antt =====
-- crates/boa-client/src/state.rs: what the client believes about the server. Every frame goes through
-- `apply`. The clock is an argument, in milliseconds; `to_lowercase` of the standard library is one
-- too.
pub mod Log
pub mod Frames
use boa_voice.Prelude.{
  ℕ, ◌+◌, ◌-◌, Bool, true, false, not, ◌&&◌, ◌||◌, Option, none, some, List, [], ◌∷◌, ◌++◌, ◌==◌,
  ltb, leb, if◌then◌else◌, map,
}
use boa_voice.Prelude.Int.{leb_ℤ, eq_ℤ}
use boa_voice.Prelude.Map.{Map, get, insert, remove, modify}
use boa_voice.Prelude.Sorting.{sort_by}
use boa_voice.Prelude.Text.{Text, text, text_eq, text_le, decimal}
use boa_voice.Prelude.Lists.{filter, find, any}
use boa_voice.Proto.Model.{
  Ident, User, user_label, Channel, ChannelKind, text_kind, voice_kind, Message, ScreenShare,
  VoiceState, ServerInfo, FileOffer,
}
use boa_voice.Proto.Control.{ServerMsg}

-- A moment, in milliseconds.
abbrev pub Instant : Type 0
Instant = ℕ

abbrev pub typing_ttl : ℕ
typing_ttl = 5000

abbrev pub speaking_ttl : ℕ
speaking_ttl = 2000

pub record ChannelLog : Type 0 where
  pub messages : List Message
  pub complete : Bool
  pub loading : Bool
  pub visited : Bool

abbrev pub no_log : ChannelLog
no_log = record { messages = []; complete = false; loading = false; visited = false }

pub record Pending : Type 0 where
  pub nonce : Text
  pub channel : Ident
  pub content : Text
  pub attachment_names : List Text
  pub sent_at : Instant

-- `Pending::is_slow`
unfoldable pub is_slow : Pending → Instant → Bool
is_slow p now = ltb 5000 (now - p.sent_at)

-- Who types where: the key is the channel and the account.
abbrev pub Typing : Type 0
Typing = List ((Ident × Ident) × Instant)

pub record State : Type 0 where
  pub me : Option User
  pub server : Option ServerInfo
  pub users : Map User
  pub channels : List Channel
  pub logs : Map ChannelLog
  pub pending : List Pending
  pub voice : Map VoiceState
  pub speaking : Map Instant
  pub typing : Typing
  pub offers : List (Ident × FileOffer)

-- `State::default()`, to which `reset` goes back.
abbrev pub empty : State
empty = record {
  me = none;
  server = none;
  users = [];
  channels = [];
  logs = [];
  pending = [];
  voice = [];
  speaking = [];
  typing = [];
  offers = [];
}

-- `State::label`
unfoldable pub label : State → Ident → Text
label s id = elim (get id s.users) [ some u ↦ user_label u | none ↦ text "#" ++ decimal id ]

-- `State::channel`
unfoldable pub channel_of : State → Ident → Option Channel
channel_of s id = find (λ c. c.id == id) s.channels

abbrev pub is_text : ChannelKind → Bool
is_text text_kind = true
is_text voice_kind = false

-- `State::first_text_channel`
unfoldable pub first_text_channel : State → Option Ident
first_text_channel s = elim (find (λ c. is_text c.kind) s.channels) [
  | none ↦ none
  | some c ↦ some c.id
]

-- `self.logs.entry(channel).or_default()`
abbrev pub or_default : Option ChannelLog → ChannelLog
or_default none = no_log
or_default (some log) = log

-- `State::log_mut`
abbrev pub log_of : State → Ident → ChannelLog
log_of s channel = or_default (get channel s.logs)

abbrev pub set_log : State → Ident → ChannelLog → State
set_log s channel log = record s { logs = insert channel log s.logs }

-- `State::my_voice`
unfoldable pub my_voice : State → Option VoiceState
my_voice s = elim s.me [ none ↦ none | some me ↦ get me.id s.voice ]

-- `State::my_channel`
unfoldable pub my_channel : State → Option Ident
unfolding my_voice
my_channel s = elim (my_voice s) [ none ↦ none | some state ↦ some state.channel ]

abbrev pub values {ℓ} : {V : Type ℓ} → List (ℕ × V) → List V
values m = map (λ e. e.1) m

-- The order of `State::voice_members`: by name, ties by id.
abbrev pub by_name : (Text → Text) → State → VoiceState → VoiceState → Bool
by_name lowercase s a b =
    let m = lowercase (label s a.user) in
    let n = lowercase (label s b.user) in if text_eq m n then leb a.user b.user else text_le m n

-- `State::voice_members`
unfoldable pub voice_members : (Text → Text) → State → Ident → List VoiceState
unfolding sort_by
voice_members lowercase s channel =
    sort_by (by_name lowercase s) (filter (λ v. v.channel == channel) (values s.voice))

-- `State::is_speaking`
unfoldable pub is_speaking : State → Ident → Instant → Bool
is_speaking s user now = elim (get user s.speaking) [
  | none ↦ false
  | some at ↦ ltb (now - at) speaking_ttl
]

abbrev pub shares_of : List VoiceState → List (Ident × ScreenShare)
shares_of [] = []
shares_of (v ∷ rest) =
    let more = shares_of rest in elim v.screen [ none ↦ more | some share ↦ (v.user, share) ∷ more ]

-- `State::sharers`
unfoldable pub sharers : State → Ident → List (Ident × ScreenShare)
unfolding sort_by
sharers s channel =
    sort_by (λ a b. leb a.0 b.0) (shares_of (filter (λ v. v.channel == channel) (values s.voice)))

abbrev pub is_user : Option User → Ident → Bool
is_user none id = false
is_user (some u) id = u.id == id

-- `State::typers`
unfoldable pub typers : State → Ident → Instant → List Ident
unfolding sort_by
typers s channel now = sort_by leb (
    map (λ e. e.0.1)
      (filter (λ e. e.0.0 == channel && (not (is_user s.me e.0.1) && ltb (now - e.1) typing_ttl))
        s.typing))

-- `State::expire`
unfoldable pub expire : State → Instant → State
expire s now = record s {
  typing = filter (λ e. ltb (now - e.1) typing_ttl) s.typing;
  speaking = filter (λ e. ltb (now - e.1) speaking_ttl) s.speaking;
}

-- `State::add_pending`
unfoldable pub add_pending : State → Pending → State
add_pending s p = record s { pending = s.pending ++ (p ∷ []) }

-- `State::pending_for`
unfoldable pub pending_for : State → Ident → List Pending
pending_for s channel = filter (λ p. p.channel == channel) s.pending

-- `insert_into`. The documentation of `binary_search_by_key` fixes what it finds in a list sorted by
-- id: the place of the id, or the place before the first greater one.
unfoldable pub insert_into : List Message → Message → List Message
insert_into [] message = message ∷ []
insert_into (m ∷ rest) message =
    let later = insert_into rest message in
    if ltb m.id message.id
    then m ∷ later
    else if m.id == message.id
    then message ∷ rest
    else message ∷ m ∷ rest

-- `for message in messages`
unfoldable pub insert_all : List Message → List Message → List Message
unfolding insert_into
insert_all log [] = log
insert_all log (message ∷ rest) = insert_all (insert_into log message) rest

-- `State::insert`
abbrev pub insert_message : State → Message → State
insert_message s message =
    let log = log_of s message.channel in
    set_log s message.channel (record log { messages = insert_into log.messages message })

abbrev pub kind_order : ChannelKind → ℕ
kind_order text_kind = 0
kind_order voice_kind = 1

-- The order of the sidebar: by kind, then position, then id.
abbrev pub sidebar_order : Channel → Channel → Bool
sidebar_order a b =
    if not (kind_order a.kind == kind_order b.kind)
    then leb (kind_order a.kind) (kind_order b.kind)
    else if not (eq_ℤ a.position b.position)
    then leb_ℤ a.position b.position
    else leb a.id b.id

abbrev pub index_users : List User → Map User
index_users [] = []
index_users (u ∷ rest) =
    let m = index_users rest in elim (get u.id m) [ none ↦ insert u.id u m | some v ↦ m ]

abbrev pub index_voice : List VoiceState → Map VoiceState
index_voice [] = []
index_voice (v ∷ rest) =
    let m = index_voice rest in elim (get v.user m) [ none ↦ insert v.user v m | some w ↦ m ]

abbrev pub mark_typing : Ident → Ident → Instant → Typing → Typing
mark_typing channel user now [] = ((channel, user), now) ∷ []
mark_typing channel user now (((c, u), at) ∷ rest) =
    if c == channel && u == user
    then ((channel, user), now) ∷ rest
    else ((c, u), at) ∷ mark_typing channel user now rest

-- `pending.retain(|p| &p.nonce != nonce)`, where the message has a nonce.
abbrev pub confirm : Option Text → List Pending → List Pending
confirm none pending = pending
confirm (some nonce) pending = filter (λ p. not (text_eq p.nonce nonce)) pending

abbrev pub in_channel : Option VoiceState → Ident → Bool
in_channel none channel = false
in_channel (some state) channel = state.channel == channel

abbrev pub with_screen : Option ScreenShare → VoiceState → VoiceState
with_screen screen v = record v { screen = screen }

abbrev pub with_online : Bool → User → User
with_online online u = record u { online = online }

-- `State::apply`
unfoldable pub apply : State → ServerMsg → Instant → State
unfolding insert_all sort_by
apply s (ServerMsg.ready user server users channels voice_states) now = record empty {
  me = some user;
  server = some server;
  users = index_users users;
  channels = channels;
  voice = index_voice voice_states;
  logs = s.logs;
  pending = s.pending;
}
apply s (ServerMsg.message_create message) now =
    insert_message (record s { pending = confirm message.nonce s.pending }) message
apply s (ServerMsg.message_update message) now = insert_message s message
apply s (ServerMsg.message_delete channel id) now =
    let log = log_of s channel in
    set_log s channel (record log { messages = filter (λ m. not (m.id == id)) log.messages })
apply s (ServerMsg.history channel messages complete) now =
    let log = log_of s channel in
    set_log s channel (record log {
      loading = false;
      complete = log.complete || complete;
      messages = insert_all log.messages messages;
    })
apply s (ServerMsg.typing channel user) now = record s {
  typing = mark_typing channel user now s.typing;
}
apply s (ServerMsg.presence user online) now = record s {
  users = modify user (with_online online) s.users;
}
apply s (ServerMsg.user_update user) now = record s { users = insert user.id user s.users }
apply s (ServerMsg.channel_create channel) now =
    if any (λ c. c.id == channel.id) s.channels
    then s
    else record s { channels = sort_by sidebar_order (s.channels ++ (channel ∷ [])) }
apply s (ServerMsg.voice_state state) now = record s { voice = insert state.user state s.voice }
apply s (ServerMsg.voice_leave user channel) now = record s {
  voice = (if in_channel (get user s.voice) channel then remove user s.voice else s.voice);
  speaking = remove user s.speaking;
}
apply s (ServerMsg.speaking user speaks) now = record s {
  speaking = (if speaks then insert user now s.speaking else remove user s.speaking);
}
apply s (ServerMsg.screen_start user share) now = record s {
  voice = modify user (with_screen (some share)) s.voice;
}
apply s (ServerMsg.screen_stop user) now = record s {
  voice = modify user (with_screen none) s.voice;
}
apply s (ServerMsg.file_offer from offer) now = record s {
  offers = filter (λ e. not (text_eq e.1.code offer.code)) s.offers ++ ((from, offer) ∷ []);
}
apply s (ServerMsg.file_offer_cancelled from code) now = record s {
  offers = filter (λ e. not (e.0 == from && text_eq e.1.code code)) s.offers;
}
apply s (ServerMsg.voice_ready channel ssrc key media_port) now = s
apply s (ServerMsg.attachment_ready a) now = s
apply s (ServerMsg.screen_report from received lost want_keyframe) now = s
apply s (ServerMsg.error code message fatal) now = s
apply s (ServerMsg.pong nonce) now = s
