-- ===== src/Tests/Hub.antt =====
-- The hub and the relay at a call of two, crates/boa-server/src/hub.rs and relay.rs.
use boa_voice.Prelude.{
  ℕ, ◌+◌, ◌^◌, ◌<◌, ◌≡◌, refl, ◌↔◌, ◌⊎◌, inl, Bool, true, false, Option, none, some, List, [], ◌∷◌,
  arith, length, In,
}
use boa_voice.Prelude.Map.{get, modify, insert, contains_key, Distinct}
use boa_voice.Proto.Model.{Ident}
use boa_voice.Proto.Media.{PacketHeader, voice, decode, ok, is_screen, is_keepalive}
use boa_voice.Server.Hub.{
  State, admit, Member, Conn, forward, SocketAddr, Instant, empty, Joined, join_voice, take_ssrc,
  remove_member, new_member, bind_media_address, route, disconnect, connect, with_addr, route_media,
  collect,
}
use boa_voice.Server.Hub.Inv.{Inv}
use boa_voice.Server.Hub.Steps.{empty-Inv, bind_media_address-Inv}
use boa_voice.Server.Hub.Leave.{remove_member-Inv}
use boa_voice.Server.Hub.Ssrc.{Free, take_ssrc-Free}
use boa_voice.Server.Hub.Join.{Joins, join_voice-Joins}
use boa_voice.Server.Hub.Routing.{Admitted, Entitled, route-forward, route-Reaches}
use boa_voice.Server.Hub.Outbox.{disconnect-last, connect-Inv}
use boa_voice.Server.Relay.{Stats, Sent, turn, act, sends}
use boa_voice.Server.Relay.Sends.{Registers, Rightful, turn-sends, turn-hub, turn-Registers}
use boa_voice.Tests.Media.{open_cipher, key7, hello, hello_packet, hello_packet-verified}

-- Accounts 1 and 2 in channel 9, the first with its media address known.
abbrev member : ℕ → ℕ → Option SocketAddr → Instant → Member
member vs ss addr seen = record {
  channel = 9;
  voice_ssrc = vs;
  screen_ssrc = ss;
  muted = false;
  deafened = false;
  screen = none;
  watching = [];
  addr = addr;
  last_seen = seen;
}

abbrev joined : State → Ident → State
joined s user = elim (join_voice s user 9 100 key7) [ none ↦ s | some r ↦ r.1 ]

abbrev pub alone : State
alone = joined empty 1

abbrev pub both : State
both = joined alone 2

abbrev pub known : State
known = (bind_media_address (bind_media_address both 1 501 200).1 2 502 201).1

joined-Inv :
    (s : State) (user : Ident) → length s.by_ssrc + 2 < 2 ^ 32 → Inv s → Inv (joined s user)
joined-Inv s user room v =
    let (j, t, e, joins) = join_voice-Joins s user 9 100 key7 v room in rw (joined, e) joins.valid

pub alone-Inv : Inv alone
alone-Inv = joined-Inv empty 1 (omega arith) empty-Inv

pub both-Inv : Inv both
unfolding join_voice take_ssrc remove_member get contains_key admit insert
both-Inv = joined-Inv alone 2 (omega arith) alone-Inv

pub known-Inv : Inv known
known-Inv =
    bind_media_address-Inv (bind_media_address both 1 501 200).1 2 502 201
      (bind_media_address-Inv both 1 501 200 both-Inv)

abbrev first : Member
first = with_addr 501 200 (new_member 9 1 2 100)

known-first : get 1 known.members ≡ some first
unfolding join_voice bind_media_address take_ssrc remove_member get contains_key admit insert modify
known-first = refl

abbrev said : PacketHeader
said = record { kind = voice; ssrc = 1; seq = 0; timestamp = 0 }

said-forwarded : route known said 501 ≡ forward (502 ∷ [])
unfolding join_voice bind_media_address take_ssrc remove_member get contains_key admit insert modify
    route route_media collect is_keepalive is_screen
said-forwarded = refl

route-forward_example :
    (user : Ident) × (sender : Member) × Admitted known said 501 user sender
    × ((target : SocketAddr) → In target (502 ∷ []) ↔ Entitled known said user sender target)
route-forward_example = route-forward known said 501 (502 ∷ []) known-Inv said-forwarded

said-Admitted : Admitted known said 501 1 first
unfolding join_voice bind_media_address take_ssrc remove_member get contains_key admit insert modify
    is_keepalive is_screen
said-Admitted = record {
  owner = refl;
  member = refl;
  registered = refl;
  is_media = refl;
  own_stream = refl;
}

route-Reaches_example :
    (targets : List SocketAddr) × (route known said 501 ≡ forward targets)
    × ((target : SocketAddr) → In target targets ↔ Entitled known said 1 first target)
route-Reaches_example = route-Reaches known said 501 1 first known-Inv said-Admitted

known-owner : get 1 known.by_ssrc ≡ some 1
unfolding join_voice bind_media_address take_ssrc remove_member get contains_key admit insert modify
known-owner = refl

room : length known.by_ssrc + 3 < 2 ^ 32
unfolding join_voice bind_media_address take_ssrc remove_member get contains_key admit insert modify
room = omega arith

small : known.next_ssrc < 2 ^ 32
unfolding join_voice bind_media_address take_ssrc remove_member get contains_key admit insert modify
small = omega arith

take_ssrc-Free_example :
    (ssrc after : ℕ) × (take_ssrc known ≡ some (ssrc, record known { next_ssrc = after }))
    × Free (length known.by_ssrc + 2) known.next_ssrc known.by_ssrc ssrc after
take_ssrc-Free_example = take_ssrc-Free known small (omega (arith, room))

-- Account 2 moves to channel 8.
join_voice-Joins_example :
    (j : Joined) × (t : State) × (join_voice known 2 8 300 key7 ≡ some (j, t))
    × Joins known 2 8 300 key7 j t
join_voice-Joins_example = join_voice-Joins known 2 8 300 key7 known-Inv (omega (arith, room))

remove_member-Inv_example : Inv (remove_member known 1).1
remove_member-Inv_example = remove_member-Inv known 1 known-Inv

-- Account 1 connects twice.
abbrev pub twice : State
twice =
    (connect (connect known 1 (record { alive = true; queue = [] })).1 1
      (record { alive = true; queue = [] })).1

pub twice-Inv : Inv twice
twice-Inv =
    connect-Inv (connect known 1 (record { alive = true; queue = [] })).1 1
      (record { alive = true; queue = [] })
      (connect-Inv known 1 (record { alive = true; queue = [] }) known-Inv)

pub twice-room : length twice.by_ssrc + 2 < 2 ^ 32
unfolding join_voice bind_media_address take_ssrc remove_member get contains_key admit insert modify
    connect
twice-room = omega arith

twice-Distinct : Distinct twice.conns
unfolding join_voice bind_media_address take_ssrc remove_member get contains_key admit insert modify
    connect
twice-Distinct = ground arith

disconnect-last_example : ((disconnect twice 1).0 ≡ true) ↔ (
    (gone : Conn) × (get 1 twice.conns ≡ some gone)
    × ((i : ℕ) (c : Conn) → get i twice.conns ≡ some c → c.user ≡ gone.user → i ≡ 1))
disconnect-last_example = disconnect-last twice 1 twice-Distinct

abbrev none_yet : Stats
none_yet = record { received = 0; forwarded = 0; dropped = 0 }

abbrev everyone : SocketAddr → Bool
everyone addr = true

abbrev said_packet : List ℕ
said_packet = 0xb0 ∷ 0xa1 ∷ 1 ∷ 0 ∷ 0 ∷ 0 ∷ 0 ∷ 1 ∷ 0 ∷ 0 ∷ 0 ∷ 0 ∷ 0 ∷ 0 ∷ 0 ∷ 0 ∷ 42 ∷ []

abbrev forwarded_copy : Sent
forwarded_copy = record { bytes = said_packet; target = 502 }

forwarded_copy-sent :
    In forwarded_copy (turn open_cipher everyone known none_yet said_packet 501 400).sent
unfolding join_voice bind_media_address take_ssrc remove_member get contains_key admit insert modify
    route route_media collect turn act decode sends is_keepalive is_screen
forwarded_copy-sent = inl refl

turn-sends_example :
    (forwarded_copy.bytes ≡ said_packet)
    × Rightful open_cipher known said_packet 501 forwarded_copy.target
turn-sends_example =
    turn-sends open_cipher everyone known none_yet said_packet 501 400 forwarded_copy known-Inv
      forwarded_copy-sent

turn-hub_example :
    ((turn open_cipher everyone known none_yet hello_packet 777 400).hub ≡ known)
    ⊎ ((user : Ident) × (m : Member) × Registers open_cipher known hello_packet user m
        × ((turn open_cipher everyone known none_yet hello_packet 777 400).hub
            ≡ record known { members = modify user (with_addr 777 400) known.members }))
turn-hub_example = turn-hub open_cipher everyone known none_yet hello_packet 777 400

known-key : get 9 known.keys ≡ some key7
unfolding join_voice bind_media_address take_ssrc remove_member get contains_key admit insert modify
known-key = refl

hello_packet-decoded : decode hello_packet ≡ ok hello
unfolding decode
hello_packet-decoded = refl

hello_packet-Registers : Registers open_cipher known hello_packet 1 first
unfolding is_keepalive
hello_packet-Registers = record {
  header = hello;
  decoded = hello_packet-decoded;
  is_registration = refl;
  owner = known-owner;
  member = known-first;
  key = key7;
  key_of_channel = known-key;
  verified = hello_packet-verified;
}

turn-Registers_example :
    (get 1 (turn open_cipher everyone known none_yet hello_packet 777 400).hub.members
      ≡ some (with_addr 777 400 first))
    × ((turn open_cipher everyone known none_yet hello_packet 777 400).sent
        ≡ record { bytes = hello_packet; target = 777 } ∷ [])
turn-Registers_example =
    turn-Registers open_cipher everyone known none_yet hello_packet 1 first 777 400 (omega arith)
      (omega arith) hello_packet-Registers
