-- ===== src/Server/Hub.antt =====
-- crates/boa-server/src/hub.rs: who is connected, who is in which voice channel, who watches whose
-- screen. Each method of `Hub` and `State` is a function on the state that the mutex guards; what it
-- takes from outside (the clock, a random key, base64) is an argument.
pub mod Inv
pub mod Steps
pub mod Leave
pub mod Ssrc
pub mod Join
pub mod Routing
pub mod Outbox
use boa_voice.Prelude.{
  ℕ, zero, suc, ◌+◌, ◌%◌, ◌^◌, Bool, true, false, ◌&&◌, ◌||◌, not, Option, none, some, List, [],
  ◌∷◌, ◌++◌, ◌==◌, if◌then◌else◌, length, map, leb,
}
use boa_voice.Prelude.Sorting.{sort_by}
use boa_voice.Prelude.Map.{Map, get, insert, remove, modify, map_values, any_value, contains_key}
use boa_voice.Prelude.Sets.{contains, set_insert, set_remove}
use boa_voice.Proto.Model.{Ident, User, ScreenShare, VoiceState}
use boa_voice.Proto.Control.{ScreenRequest, ServerMsg}
use boa_voice.Proto.Media.{SessionKey, PacketHeader, is_screen, is_keepalive}

-- A socket address is only compared. An instant is a number of milliseconds.
abbrev pub SocketAddr : Type 0
SocketAddr = ℕ

abbrev pub Instant : Type 0
Instant = ℕ

pub data Route : Type 0 where
  register : SessionKey → Ident → Route
  forward : List SocketAddr → Route
  drop : Route

-- `UnboundedSender<ServerMsg>` with the queue behind it: a send is refused once the receiver is gone.
pub record Sender : Type 0 where
  pub alive : Bool
  pub queue : List ServerMsg

pub record Conn : Type 0 where
  pub user : Ident
  pub tx : Sender

pub record Member : Type 0 where
  pub channel : Ident
  pub voice_ssrc : ℕ
  pub screen_ssrc : ℕ
  pub muted : Bool
  pub deafened : Bool
  pub screen : Option ScreenShare
  pub watching : List Ident
  pub addr : Option SocketAddr
  pub last_seen : Instant

pub record State : Type 0 where
  pub conns : Map Conn
  pub members : Map Member
  pub by_ssrc : Map Ident
  pub keys : Map SessionKey
  pub next_conn : ℕ
  pub next_ssrc : ℕ

-- `Hub::with_stats`: the state at the start.
abbrev pub empty : State
empty = record { conns = []; members = []; by_ssrc = []; keys = []; next_conn = 1; next_ssrc = 1 }

-- Connections

abbrev pub of_user : Ident → Conn → Bool
of_user user c = c.user == user

-- `Hub::connect`
unfoldable pub connect : State → Ident → Sender → (ℕ × Bool) × State
connect s user tx = (
  (s.next_conn, not (any_value (of_user user) s.conns)),
  record s {
    conns = insert s.next_conn (record { user = user; tx = tx }) s.conns;
    next_conn = (s.next_conn + 1) % 2 ^ 64;
  },
)

-- `Hub::disconnect`
unfoldable pub disconnect : State → ℕ → Bool × State
disconnect s conn = elim (get conn s.conns) [
  | none ↦ (false, s)
  | some gone ↦
      let left = remove conn s.conns in
      (not (any_value (of_user gone.user) left), record s { conns = left })
]

-- `Hub::online`
unfoldable pub online : State → List Ident
online s = map (λ e. e.1.user) s.conns

-- `tx.send`
abbrev pub send : ServerMsg → Sender → Sender
send msg tx = if tx.alive then record tx { queue = tx.queue ++ (msg ∷ []) } else tx

abbrev pub deliver : ServerMsg → Conn → Conn
deliver msg c = record c { tx = send msg c.tx }

-- `Hub::broadcast`
unfoldable pub broadcast : State → ServerMsg → State
broadcast s msg = record s { conns = map_values (deliver msg) s.conns }

-- The loop of `Hub::broadcast_except`.
unfoldable pub deliver_except : ℕ → ServerMsg → Map Conn → Map Conn
deliver_except except msg [] = []
deliver_except except msg ((i, c) ∷ m) =
    (i, if i == except then c else deliver msg c) ∷ deliver_except except msg m

-- `Hub::broadcast_except`
unfoldable pub broadcast_except : State → ℕ → ServerMsg → State
broadcast_except s except msg = record s { conns = deliver_except except msg s.conns }

abbrev pub deliver_to : Ident → ServerMsg → Conn → Conn
deliver_to user msg c = if c.user == user then deliver msg c else c

-- `Hub::send_to_user`
unfoldable pub send_to_user : State → Ident → ServerMsg → Bool × State
send_to_user s user msg = (
  any_value (λ c. c.user == user && c.tx.alive) s.conns,
  record s { conns = map_values (deliver_to user msg) s.conns },
)

-- `Hub::send_to_conn`
unfoldable pub send_to_conn : State → ℕ → ServerMsg → State
send_to_conn s conn msg = record s { conns = modify conn (deliver msg) s.conns }

abbrev pub mark_online : List Ident → User → User
mark_online ids u = record u { online = contains ids u.id }

-- `Hub::decorate_presence`
unfoldable pub decorate_presence : State → List User → List User
decorate_presence s = map (mark_online (online s))

-- Voice membership

-- `State::take_ssrc`, the loop: `fuel` rounds from `next`.
unfoldable pub take_from : ℕ → ℕ → Map Ident → Option (ℕ × ℕ)
take_from zero next taken = none
take_from (suc fuel) next taken =
    let rest = take_from fuel ((next + 1) % 2 ^ 32) taken in
    if not (next == 0) && not (contains_key next taken)
    then some (next, (next + 1) % 2 ^ 32)
    else rest

-- `State::take_ssrc`. Every round but one passes over zero or a stream id in use.
unfoldable pub take_ssrc : State → Option (ℕ × State)
unfolding take_from
take_ssrc s = elim (take_from (length s.by_ssrc + 2) s.next_ssrc s.by_ssrc) [
  | none ↦ none
  | some (ssrc, next) ↦ some (ssrc, record s { next_ssrc = next })
]

abbrev pub stop_watching : Ident → Member → Member
stop_watching user m = record m { watching = set_remove user m.watching }

abbrev pub is_in : Ident → Member → Bool
is_in channel m = m.channel == channel

-- The state that `State::remove_member` leaves, for a member who was there.
abbrev pub without : State → Ident → Member → State
without s user member =
    let others = map_values (stop_watching user) (remove user s.members) in
    record s {
      members = others;
      by_ssrc = remove member.screen_ssrc (remove member.voice_ssrc s.by_ssrc);
      keys =
          (if any_value (is_in member.channel) others
            then s.keys
            else remove member.channel s.keys);
    }

-- `State::remove_member`
unfoldable pub remove_member : State → Ident → Option Ident × State
remove_member s user = elim (get user s.members) [
  | none ↦ (none, s)
  | some member ↦ (some member.channel, without s user member)
]

-- `Member::state`
abbrev pub member_state : Ident → Member → VoiceState
member_state user m = record {
  user = user;
  channel = m.channel;
  muted = m.muted;
  deafened = m.deafened;
  ssrc = m.voice_ssrc;
  screen = m.screen;
}

abbrev pub new_member : Ident → ℕ → ℕ → Instant → Member
new_member channel voice_ssrc screen_ssrc now = record {
  channel = channel;
  voice_ssrc = voice_ssrc;
  screen_ssrc = screen_ssrc;
  muted = false;
  deafened = false;
  screen = none;
  watching = [];
  addr = none;
  last_seen = now;
}

-- `keys.entry(channel).or_insert_with(SessionKey::random)`
abbrev pub key_for : Map SessionKey → Ident → SessionKey → SessionKey
key_for keys channel fresh = elim (get channel keys) [ none ↦ fresh | some key ↦ key ]

-- What `join_voice` does once both stream ids are taken.
unfoldable pub admit : State → Ident → Ident → ℕ → ℕ → Instant → SessionKey → State
admit s user channel voice_ssrc screen_ssrc now fresh = record s {
  members = insert user (new_member channel voice_ssrc screen_ssrc now) s.members;
  by_ssrc = insert screen_ssrc user (insert voice_ssrc user s.by_ssrc);
  keys = insert channel (key_for s.keys channel fresh) s.keys;
}

-- What `join_voice` returns beside the new state: the voice state, the key and the channel left.
pub record Joined : Type 0 where
  pub state : VoiceState
  pub key : SessionKey
  pub previous : Option Ident

infixl 5 ◌>>=◌
abbrev ◌>>=◌ {ℓ κ} : {A : Type ℓ} {B : Type κ} → Option A → (A → Option B) → Option B
none >>= f = none
some a >>= f = f a

-- `Hub::join_voice`; `none` where `take_ssrc` finds no free stream id.
unfoldable pub join_voice : State → Ident → Ident → Instant → SessionKey → Option (Joined × State)
join_voice s user channel now fresh =
    let (previous, s₁) = remove_member s user in
    (do
      (voice_ssrc, s₂) ← take_ssrc s₁
      (screen_ssrc, s₃) ← take_ssrc s₂
      some (
        record {
          state = member_state user (new_member channel voice_ssrc screen_ssrc now);
          key = key_for s₃.keys channel fresh;
          previous = previous;
        },
        admit s₃ user channel voice_ssrc screen_ssrc now fresh,
      ))

-- `Hub::leave_voice`
abbrev pub leave_voice : State → Ident → Option Ident × State
leave_voice = remove_member

-- `members.get_mut(&user)?`, a write through it, and the new value.
unfoldable pub with_member : State → Ident → (Member → Member) → Option Member × State
with_member s user f = elim (get user s.members) [
  | none ↦ (none, s)
  | some m ↦ (some (f m), record s { members = modify user f s.members })
]

abbrev pub with_flags : Bool → Bool → Member → Member
with_flags muted deafened m = record m { muted = muted; deafened = deafened }

-- `Hub::set_voice_flags`
unfoldable pub set_voice_flags : State → Ident → Bool → Bool → Option VoiceState × State
unfolding with_member
set_voice_flags s user muted deafened =
    let (m, s') = with_member s user (with_flags muted deafened) in
    (m >>= λ m. some (member_state user m), s')

abbrev pub share_of : ScreenRequest → Member → ScreenShare
share_of request m = record {
  ssrc = m.screen_ssrc;
  width = request.width;
  height = request.height;
  fps = request.fps;
  kbps = request.kbps;
  with_audio = request.with_audio;
}

abbrev pub start_sharing : ScreenRequest → Member → Member
start_sharing request m = record m { screen = some (share_of request m) }

-- `Hub::start_screen`
unfoldable pub start_screen : State → Ident → ScreenRequest → Option ScreenShare × State
unfolding with_member
start_screen s user request =
    let (m, s') = with_member s user (start_sharing request) in (m >>= λ m. m.screen, s')

abbrev pub stop_sharing : Member → Member
stop_sharing m = record m { screen = none }

-- `Hub::stop_screen`
unfoldable pub stop_screen : State → Ident → Option Ident × State
stop_screen s user = elim (get user s.members) [
  | none ↦ (none, s)
  | some m ↦ (
    some m.channel,
    record s { members = map_values (stop_watching user) (modify user stop_sharing s.members) },
  )
]

abbrev pub start_watching : Ident → Member → Member
start_watching target m = record m { watching = set_insert target m.watching }

-- `Hub::watch`
unfoldable pub watch : State → Ident → Ident → Bool × State
watch s viewer target = elim (get target s.members) [
  | none ↦ (false, s)
  | some t ↦ elim (get viewer s.members) [
    | none ↦ (false, s)
    | some v ↦
        if v.channel == t.channel
        then (true, record s { members = modify viewer (start_watching target) s.members })
        else (false, s)
  ]
]

-- `Hub::unwatch`
unfoldable pub unwatch : State → Ident → Ident → State
unwatch s viewer target = record s { members = modify viewer (stop_watching target) s.members }

abbrev pub is_some {ℓ} : {A : Type ℓ} → Option A → Bool
is_some none = false
is_some (some a) = true

abbrev pub some_and {ℓ} : {A : Type ℓ} → Option A → (A → Bool) → Bool
some_and none p = false
some_and (some a) p = p a

-- `Hub::is_watching`
unfoldable pub is_watching : State → Ident → Ident → Bool
is_watching s viewer target =
    some_and (get target s.members) (λ m. is_some m.screen)
    && some_and (get viewer s.members) (λ m. contains m.watching target)

abbrev pub by_user : VoiceState → VoiceState → Bool
by_user a b = leb a.user b.user

-- `Hub::voice_states`
unfoldable pub voice_states : State → List VoiceState
unfolding sort_by
voice_states s = sort_by by_user (map (λ e. member_state e.0 e.1) s.members)

-- `Hub::voice_channel_of`
unfoldable pub voice_channel_of : State → Ident → Option Ident
voice_channel_of s user = get user s.members >>= λ m. some m.channel

-- `.filter(|(other, m)| …).filter_map(…)` over `members`.
unfoldable pub collect {ℓ} :
    {A : Type ℓ} → (Ident → Member → Bool) → (Ident → Member → Option A) → Map Member → List A
collect keep value [] = []
collect keep value ((u, m) ∷ rest) =
    let others = collect keep value rest in
    if keep u m then (elim (value u m) [ none ↦ others | some a ↦ a ∷ others ]) else others

-- `Hub::voice_peers`
unfoldable pub voice_peers : State → Ident → List Ident
voice_peers s user = elim (get user s.members) [
  | none ↦ []
  | some me ↦
      collect (λ other m. not (other == user) && m.channel == me.channel) (λ other m. some other)
        s.members
]

-- The relay's side

abbrev pub addr_is : Option SocketAddr → SocketAddr → Bool
addr_is none from = false
addr_is (some a) from = a == from

-- Who hears a stream of `user`, who is the member `sender`.
abbrev pub hears_screen : Ident → Member → Ident → Member → Bool
hears_screen user sender other m =
    not (other == user) && (m.channel == sender.channel && contains m.watching user)

abbrev pub hears_voice : Ident → Member → Ident → Member → Bool
hears_voice user sender other m =
    not (other == user) && (m.channel == sender.channel && not m.deafened)

-- `Hub::route` past the test for a keepalive.
unfoldable pub route_media : State → PacketHeader → SocketAddr → Ident → Member → Route
route_media s header from user member =
    if not (addr_is member.addr from)
    then drop
    else if is_screen header.kind
    then (if not (header.ssrc == member.screen_ssrc)
        then drop
        else forward (collect (hears_screen user member) (λ other m. m.addr) s.members))
    else if not (header.ssrc == member.voice_ssrc)
    then drop
    else forward (collect (hears_voice user member) (λ other m. m.addr) s.members)

-- `Hub::route`
unfoldable pub route : State → PacketHeader → SocketAddr → Route
route s header from = elim (get header.ssrc s.by_ssrc) [
  | none ↦ drop
  | some user ↦ elim (get user s.members) [
    | none ↦ drop
    | some member ↦
        if is_keepalive header.kind
        then (elim (get member.channel s.keys) [ none ↦ drop | some key ↦ register key user ])
        else route_media s header from user member
  ]
]

abbrev pub with_addr : SocketAddr → Instant → Member → Member
with_addr addr now m = record m { addr = some addr; last_seen = now }

-- `Hub::bind_media_address`
unfoldable pub bind_media_address : State → Ident → SocketAddr → Instant → Option SocketAddr × State
unfolding with_member
bind_media_address s user addr now =
    let (m, s') = with_member s user (with_addr addr now) in (m >>= λ m. some addr, s')

-- `Hub::media_registered`
unfoldable pub media_registered : State → ℕ
media_registered s = length (collect (λ u m. true) (λ u m. m.addr) s.members)
