-- ===== src/Server/Relay.antt =====
-- crates/boa-server/src/relay.rs: the loop around `Hub::route`. One turn takes a datagram that was
-- received and its source, and gives what goes out on the socket.
pub mod Sends
use boa_voice.Prelude.{
  ℕ, ◌+◌, ◌%◌, ◌^◌, Bool, true, false, not, ◌&&◌, ◌||◌, List, [], ◌∷◌, ltb, if◌then◌else◌, length,
  ◌==◌,
}
use boa_voice.Proto.Media.{
  Aead, header_len, max_datagram, decode, ok, err, verify_registration, PacketHeader, SessionKey,
}
use boa_voice.Server.Hub.{
  State, Route, register, forward, drop, SocketAddr, Instant, route, bind_media_address,
}

-- `Stats`, three `AtomicU64`.
pub record Stats : Type 0 where
  pub received : ℕ
  pub forwarded : ℕ
  pub dropped : ℕ

-- `fetch_add(1, Relaxed)`
abbrev pub bump : ℕ → ℕ
bump n = (n + 1) % 2 ^ 64

-- A call of `send_to`: the bytes and the address.
pub record Sent : Type 0 where
  pub bytes : List ℕ
  pub target : SocketAddr

-- What one turn of the loop leaves: the hub, the counters, and the sends tried, in order.
pub record Turn : Type 0 where
  pub hub : State
  pub stats : Stats
  pub sent : List Sent

abbrev pub dropped_one : Stats → Stats
dropped_one st = record st { dropped = bump st.dropped }

abbrev pub forwarded_one : Stats → Stats
forwarded_one st = record st { forwarded = bump st.forwarded }

-- `for target in targets`. `reaches` says which calls of `send_to` succeed.
unfoldable pub count_sends : (SocketAddr → Bool) → List SocketAddr → Stats → Stats
count_sends reaches [] st = st
count_sends reaches (target ∷ rest) st =
    count_sends reaches rest (if reaches target then forwarded_one st else dropped_one st)

unfoldable pub sends : List ℕ → List SocketAddr → List Sent
sends datagram [] = []
sends datagram (target ∷ rest) = record { bytes = datagram; target = target } ∷ sends datagram rest

module _ (c : Aead) (reaches : SocketAddr → Bool) where
  -- `match hub.route(&header, from)`
  unfoldable pub act : State → Stats → List ℕ → SocketAddr → Instant → Route → Turn
  act s st datagram from now (register key user) =
      if not (verify_registration c key datagram)
      then record { hub = s; stats = dropped_one st; sent = [] }
      else record {
        hub = (bind_media_address s user from now).1;
        stats = st;
        sent = record { bytes = datagram; target = from } ∷ [];
      }
  act s st datagram from now (forward targets) = record {
    hub = s;
    stats = count_sends reaches targets st;
    sent = sends datagram targets;
  }
  act s st datagram from now drop = record { hub = s; stats = dropped_one st; sent = [] }

  -- `serve`, one turn after a successful `recv_from`.
  unfoldable pub turn : State → Stats → List ℕ → SocketAddr → Instant → Turn
  unfolding act
  turn s st datagram from now =
      let st₁ = record st { received = bump st.received } in
      if ltb (length datagram) header_len || ltb max_datagram (length datagram)
      then record { hub = s; stats = dropped_one st₁; sent = [] }
      else elim (decode datagram) [
        | err e ↦ record { hub = s; stats = dropped_one st₁; sent = [] }
        | ok header ↦ act s st₁ datagram from now (route s header from)
      ]

-- `io::ErrorKind`, as far as `is_transient` tells its values apart.
pub data ErrorKind : Type 0 where
  connection_reset connection_refused connection_aborted interrupted other_kind : ErrorKind

unfoldable pub is_transient : ErrorKind → Bool
is_transient connection_reset = true
is_transient connection_refused = true
is_transient connection_aborted = true
is_transient interrupted = true
is_transient other_kind = false
