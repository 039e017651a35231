-- ===== src/Server/Relay/Sends.antt =====
-- What one turn of the relay sends and changes, crates/boa-server/src/relay.rs.
use boa_voice.Prelude.{
  ℕ, ◌≡◌, refl, ◌≤◌, ◌⊎◌, inl, inr, Bool, true, false, ◌||◌, some, List, [], ◌∷◌, ltb, arith, In,
  Bool-cases, Option-cases, sym, ap, ◌∙◌, subst, length,
}
use boa_voice.Prelude.Map.{get, modify, get-modify}
use boa_voice.Proto.Model.{Ident}
use boa_voice.Proto.Media.{
  Aead, PacketHeader, SessionKey, Result, ok, err, decode, verify_registration, is_keepalive,
  header_len, max_datagram,
}
use boa_voice.Server.Hub.{
  State, Member, Route, register, forward, drop, SocketAddr, Instant, route, route_media,
  bind_media_address, with_addr,
}
use boa_voice.Server.Hub.Inv.{Inv}
use boa_voice.Server.Hub.Steps.{bind_media_address-Inv}
use boa_voice.Server.Hub.Routing.{Admitted, Entitled, route-forward}
use boa_voice.Server.Relay.{Stats, Sent, Turn, act, turn, sends, dropped_one, bump}

-- A registration that the key of the channel vouches for.
pub record Registers (c : Aead) (s : State) (datagram : List ℕ) (user : Ident) (m : Member)
    : Type 0 where
  pub header : PacketHeader
  pub decoded : decode datagram ≡ ok header
  pub is_registration : is_keepalive header.kind ≡ true
  pub owner : get header.ssrc s.by_ssrc ≡ some user
  pub member : get user s.members ≡ some m
  pub key : SessionKey
  pub key_of_channel : get m.channel s.keys ≡ some key
  pub verified : verify_registration c key datagram ≡ true

route-register_parts :
    (s : State) (header : PacketHeader) (from : SocketAddr) (key : SessionKey) (user : Ident)
    → route s header from ≡ register key user
    → (m : Member) × (get header.ssrc s.by_ssrc ≡ some user)
      × (get user s.members ≡ some m)
      × (is_keepalive header.kind ≡ true)
      × (get m.channel s.keys ≡ some key)
unfolding route route_media
route-register_parts s header from key user e = elim (Option-cases (get header.ssrc s.by_ssrc)) [
  | inl x ↦ absurd (ground arith)
  | inr (u, o) ↦ elim (Option-cases (get u s.members)) [
    | inl x ↦ absurd (ground arith)
    | inr (m, em) ↦ (m, ground arith, ground arith, ground arith, ground arith)
  ]
]

-- What a turn may come to: nothing sent and nothing changed; a registration; a packet passed on.
pub data Outcome (c : Aead) (s : State) (datagram : List ℕ) (from : SocketAddr) (now : Instant)
    (t : Turn) : Type 0 where
  ignored : t.hub ≡ s → t.sent ≡ [] → Outcome c s datagram from now t
  bound :
      (user : Ident) (m : Member)
      → Registers c s datagram user m
      → t.hub ≡ (bind_media_address s user from now).1
      → t.sent ≡ record { bytes = datagram; target = from } ∷ []
      → Outcome c s datagram from now t
  passed_on :
      (header : PacketHeader) (targets : List SocketAddr)
      → decode datagram ≡ ok header
      → route s header from ≡ forward targets
      → t.hub ≡ s
      → t.sent ≡ sends datagram targets
      → Outcome c s datagram from now t

module _ (c : Aead) (reaches : SocketAddr → Bool) (s : State) (datagram : List ℕ)
    (from : SocketAddr) (now : Instant) where
  act-Outcome :
      (st : Stats) (header : PacketHeader) (r : Route)
      → decode datagram ≡ ok header
      → route s header from ≡ r
      → Outcome c s datagram from now (act c reaches s st datagram from now r)
  unfolding act
  act-Outcome st header (register key user) d e =
      elim (Bool-cases (verify_registration c key datagram)) [
        | inr forged ↦ rw forged (ignored refl refl)
        | inl good ↦ rw good (
            let (m, o, em, k, ek) = route-register_parts s header from key user e in
            bound user m
              (record {
                header = header;
                decoded = d;
                is_registration = k;
                owner = o;
                member = em;
                key = key;
                key_of_channel = ek;
                verified = good;
              })
              refl refl)
      ]
  act-Outcome st header (forward targets) d e = passed_on header targets d e refl refl
  act-Outcome st header drop d e = ignored refl refl

  after_decode :
      (st : Stats) (r : Result PacketHeader)
      → decode datagram ≡ r
      → Outcome c s datagram from now (elim r [
        | err e ↦ record { hub = s; stats = dropped_one st; sent = [] }
        | ok header ↦ act c reaches s st datagram from now (route s header from)
      ])
  after_decode st (err x) d = ignored refl refl
  after_decode st (ok header) d = act-Outcome st header (route s header from) d refl

  pub turn-Outcome :
      (st : Stats) → Outcome c s datagram from now (turn c reaches s st datagram from now)
  unfolding turn
  turn-Outcome st =
      elim (Bool-cases (ltb (length datagram) header_len || ltb max_datagram (length datagram))) [
        | inl bad ↦ rw bad (ignored refl refl)
        | inr good ↦
            rw good
              (after_decode (record st { received = bump st.received }) (decode datagram) refl)
      ]

In-sends :
    (datagram : List ℕ) (targets : List SocketAddr) (x : Sent)
    → In x (sends datagram targets)
    → (x.bytes ≡ datagram) × In x.target targets
unfolding sends
In-sends datagram [] x i = absurd i
In-sends datagram (t ∷ rest) x (inl e) =
    (ap (λ (y : Sent). y.bytes) e, inl (ap (λ (y : Sent). y.target) e))
In-sends datagram (t ∷ rest) x (inr later) =
    let (b, i) = In-sends datagram rest x later in (b, inr i)

-- Why something may be sent to an address: it registers from there, or the packet is for it.
abbrev pub Rightful : Aead → State → List ℕ → SocketAddr → SocketAddr → Type 0
Rightful c s datagram from target =
    ((target ≡ from) × (user : Ident) × (m : Member) × Registers c s datagram user m)
    ⊎ ((header : PacketHeader) × (user : Ident) × (sender : Member) × (decode datagram ≡ ok header)
        × Admitted s header from user sender
        × Entitled s header user sender target)

Outcome-sends :
    (c : Aead) (s : State) (datagram : List ℕ) (from : SocketAddr) (now : Instant) (x : Sent)
    {t : Turn}
    → Inv s
    → Outcome c s datagram from now t
    → In x t.sent
    → (x.bytes ≡ datagram) × Rightful c s datagram from x.target
Outcome-sends c s datagram from now x v (ignored _ e) i = absurd (subst (In x) e i)
Outcome-sends c s datagram from now x v (bound user m r _ e) i = elim (subst (In x) e i) [
  | inl q ↦ (ap (λ (y : Sent). y.bytes) q, inl (ap (λ (y : Sent). y.target) q, user, m, r))
  | inr q ↦ absurd q
]
Outcome-sends c s datagram from now x v (passed_on header targets d e _ q) i =
    let (b, it) = In-sends datagram targets x (subst (In x) q i) in
    let (user, sender, a, who) = route-forward s header from targets v e in
    (b, inr (header, user, sender, d, a, (who x.target).0 it))

-- Under the invariant, whatever a turn sends is the datagram as it came. It goes back to its source when it was a
-- verified registration, or else to somebody whom the packet is for.
pub turn-sends :
    (c : Aead) (reaches : SocketAddr → Bool) (s : State) (st : Stats) (datagram : List ℕ)
    (from : SocketAddr) (now : Instant) (x : Sent)
    → Inv s
    → In x (turn c reaches s st datagram from now).sent
    → (x.bytes ≡ datagram) × Rightful c s datagram from x.target
turn-sends c reaches s st datagram from now x v i =
    Outcome-sends c s datagram from now x v (turn-Outcome c reaches s datagram from now st) i

bind_media_address-member :
    (s : State) (user : Ident) (m : Member) (from : SocketAddr) (now : Instant)
    → get user s.members ≡ some m
    → (bind_media_address s user from now).1
      ≡ record s { members = modify user (with_addr from now) s.members }
unfolding bind_media_address
bind_media_address-member s user m from now e = ground (arith, e)

route-Registers :
    (s : State) (header : PacketHeader) (from : SocketAddr) (user : Ident) (m : Member)
    (key : SessionKey)
    → get header.ssrc s.by_ssrc ≡ some user
    → get user s.members ≡ some m
    → is_keepalive header.kind ≡ true
    → get m.channel s.keys ≡ some key
    → route s header from ≡ register key user
unfolding route
route-Registers s header from user m key o e k ek = ground arith

Outcome-hub :
    (c : Aead) (s : State) (datagram : List ℕ) (from : SocketAddr) (now : Instant) {t : Turn}
    → Outcome c s datagram from now t
    → (t.hub ≡ s)
      ⊎ ((user : Ident) × (m : Member) × Registers c s datagram user m
          × (t.hub ≡ record s { members = modify user (with_addr from now) s.members }))
Outcome-hub c s datagram from now (ignored e _) = inl e
Outcome-hub c s datagram from now (bound user m r e _) =
    inr (user, m, r, e ∙ bind_media_address-member s user m from now r.member)
Outcome-hub c s datagram from now (passed_on header targets d e q _) = inl q

-- A turn changes the hub only for a registration that verifies under the key of the owner's channel,
-- and then it writes the owner's media address and time alone.
pub turn-hub :
    (c : Aead) (reaches : SocketAddr → Bool) (s : State) (st : Stats) (datagram : List ℕ)
    (from : SocketAddr) (now : Instant)
    → ((turn c reaches s st datagram from now).hub ≡ s)
      ⊎ ((user : Ident) × (m : Member) × Registers c s datagram user m
          × ((turn c reaches s st datagram from now).hub
              ≡ record s { members = modify user (with_addr from now) s.members }))
turn-hub c reaches s st datagram from now =
    Outcome-hub c s datagram from now (turn-Outcome c reaches s datagram from now st)

Outcome-Inv :
    (c : Aead) (s : State) (datagram : List ℕ) (from : SocketAddr) (now : Instant) {t : Turn}
    → Inv s
    → Outcome c s datagram from now t
    → Inv t.hub
Outcome-Inv c s datagram from now v (ignored e _) = subst Inv (sym e) v
Outcome-Inv c s datagram from now v (bound user m r e _) =
    subst Inv (sym e) (bind_media_address-Inv s user from now v)
Outcome-Inv c s datagram from now v (passed_on header targets d e q _) = subst Inv (sym q) v

-- A turn keeps the hub's invariant.
pub turn-Inv :
    (c : Aead) (reaches : SocketAddr → Bool) (s : State) (st : Stats) (datagram : List ℕ)
    (from : SocketAddr) (now : Instant)
    → Inv s
    → Inv (turn c reaches s st datagram from now).hub
turn-Inv c reaches s st datagram from now v =
    Outcome-Inv c s datagram from now v (turn-Outcome c reaches s datagram from now st)

act-Registers :
    (c : Aead) (reaches : SocketAddr → Bool) (s : State) (st : Stats) (datagram : List ℕ)
    (user : Ident) (m : Member) (from : SocketAddr) (now : Instant) (key : SessionKey)
    → get user s.members ≡ some m
    → verify_registration c key datagram ≡ true
    → (get user (act c reaches s st datagram from now (register key user)).hub.members
        ≡ some (with_addr from now m))
      × ((act c reaches s st datagram from now (register key user)).sent
          ≡ record { bytes = datagram; target = from } ∷ [])
unfolding act
act-Registers c reaches s st datagram user m from now key e good =
    rw (good, bind_media_address-member s user m from now e)
      (ground (arith, get-modify user user (with_addr from now) s.members), refl)

-- Nothing ties a registration to an address: the same datagram, of a length the relay takes, from any source at any time, moves
-- the owner's media address there and is echoed there.
pub turn-Registers :
    (c : Aead) (reaches : SocketAddr → Bool) (s : State) (st : Stats) (datagram : List ℕ)
    (user : Ident) (m : Member) (from : SocketAddr) (now : Instant)
    → header_len ≤ length datagram
    → length datagram ≤ max_datagram
    → Registers c s datagram user m
    → (get user (turn c reaches s st datagram from now).hub.members ≡ some (with_addr from now m))
      × ((turn c reaches s st datagram from now).sent
          ≡ record { bytes = datagram; target = from } ∷ [])
unfolding turn
turn-Registers c reaches s st datagram user m from now long short r =
    rw
      (
        sized,
        r.decoded,
        route-Registers s r.header from user m r.key r.owner r.member r.is_registration
            r.key_of_channel,
        turn,
      )
      (act-Registers c reaches s (record st { received = bump st.received }) datagram user m from
        now r.key r.member r.verified)
  where
    sized : (ltb (length datagram) header_len || ltb max_datagram (length datagram)) ≡ false
    sized = ground arith
