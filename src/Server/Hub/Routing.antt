-- ===== src/Server/Hub/Routing.antt =====
-- `Hub::route` of crates/boa-server/src/hub.rs: who a datagram goes to.
use boa_voice.Prelude.{
  ◌≡◌, refl, ◌≢◌, ◌↔◌, ◌⊎◌, inl, inr, Bool, true, false, not, Option, none, some, List, [], ◌∷◌,
  if◌then◌else◌, arith, In, Bool-cases, sym, ap, ◌∙◌, subst,
}
use boa_voice.Prelude.Map.{Map, get, Distinct}
use boa_voice.Prelude.Sets.{contains}
use boa_voice.Proto.Model.{Ident}
use boa_voice.Proto.Media.{PacketHeader, SessionKey, keepalive, is_screen, is_keepalive}
use boa_voice.Server.Hub.{
  State, Member, register, forward, SocketAddr, route, route_media, collect, addr_is, hears_screen,
  hears_voice,
}
use boa_voice.Server.Hub.Inv.{Inv}

-- What a `filter` and `filter_map` over the members gathers.
abbrev Gathers :
    {A : Type 0} → Map Member → (Ident → Member → Bool) → (Ident → Member → Option A) → A → Type 0
Gathers members keep value a =
    (u : Ident) × (m : Member) × (get u members ≡ some m) × (keep u m ≡ true) × (value u m ≡ some a)

module _ {A : Type 0} (keep : Ident → Member → Bool) (value : Ident → Member → Option A) where
  collect_sound :
      (members : Map Member) (a : A)
      → Distinct members
      → In a (collect keep value members)
      → Gathers members keep value a
  unfolding collect get
  collect_sound [] a d h = absurd h
  collect_sound ((u, m) ∷ rest) a d h = elim (here_or_later (keep u m) refl (value u m) refl) [
    | inl (k, e) ↦ (u, m, ground arith, k, e)
    | inr later ↦ let (w, n, e, k, q) = collect_sound rest a d.1 later in (w, n, ground arith, k, q)
  ]
    where
      here_or_later :
          (b : Bool)
          → keep u m ≡ b
          → (o : Option A) → value u m ≡ o
          → ((keep u m ≡ true) × (value u m ≡ some a)) ⊎ In a (collect keep value rest)
      here_or_later false k o e = inr (rw k at h)
      here_or_later true k none e = inr (rw (k, e) at h)
      here_or_later true k (some b) e =
          elim (let h' : (a ≡ b) ⊎ In a (collect keep value rest) = rw (k, e) at h in h') [
            | inl same ↦ inl (k, e ∙ ap some (sym same))
            | inr later ↦ inr later
          ]

  collect_complete :
      (members : Map Member) (a : A) (u : Ident) (m : Member)
      → get u members ≡ some m
      → keep u m ≡ true
      → value u m ≡ some a
      → In a (collect keep value members)
  unfolding collect get
  collect_complete [] a u m e k q = absurd (ground arith)
  collect_complete ((i, n) ∷ rest) a u m e k q = ground (arith, collect_complete rest a u m)

-- What the relay requires of a packet that is passed on: it comes from the address that the owner of
-- the stream registered, it is no keepalive, and the stream is the one for its kind of media.
pub record Admitted (s : State) (header : PacketHeader) (from : SocketAddr) (user : Ident)
    (sender : Member) : Type 0 where
  pub owner : get header.ssrc s.by_ssrc ≡ some user
  pub member : get user s.members ≡ some sender
  pub registered : sender.addr ≡ some from
  pub is_media : is_keepalive header.kind ≡ false
  pub own_stream :
      header.ssrc ≡ (if is_screen header.kind then sender.screen_ssrc else sender.voice_ssrc)

-- Who a packet is for: the others in the channel; for screen media those who watch the sharer, for
-- voice those who are not deafened.
abbrev pub Entitled : State → PacketHeader → Ident → Member → SocketAddr → Type 0
Entitled s header user sender target =
    (other : Ident) × (m : Member) × (get other s.members ≡ some m)
    × (other ≢ user)
    × (m.channel ≡ sender.channel)
    × ((if is_screen header.kind then contains m.watching user else not m.deafened) ≡ true)
    × (m.addr ≡ some target)

addr_is→eq : (o : Option SocketAddr) (a : SocketAddr) → addr_is o a ≡ true → o ≡ some a
addr_is→eq none a e = cc
addr_is→eq (some b) a e = ground arith

route_media-Admitted :
    (s : State) (header : PacketHeader) (from : SocketAddr) (user : Ident) (sender : Member)
    (targets : List SocketAddr)
    → route_media s header from user sender ≡ forward targets
    → (sender.addr ≡ some from)
      × (header.ssrc ≡ (if is_screen header.kind then sender.screen_ssrc else sender.voice_ssrc))
      × (targets ≡ (
          if is_screen header.kind
          then collect (hears_screen user sender) (λ other m. m.addr) s.members
          else collect (hears_voice user sender) (λ other m. m.addr) s.members))
unfolding route_media
route_media-Admitted s header from user sender targets e =
    ground (arith, addr_is→eq sender.addr from)

route-forward_parts :
    (s : State) (header : PacketHeader) (from : SocketAddr) (targets : List SocketAddr)
    → route s header from ≡ forward targets
    → (user : Ident) × (sender : Member) × (get header.ssrc s.by_ssrc ≡ some user)
      × (get user s.members ≡ some sender)
      × (is_keepalive header.kind ≡ false)
      × (route_media s header from user sender ≡ forward targets)
unfolding route
route-forward_parts s header from targets e = ground arith

voice_targets :
    (s : State) (header : PacketHeader) (user : Ident) (sender : Member) (a : SocketAddr)
    → Distinct s.members
    → In a (
        if is_screen header.kind
        then collect (hears_screen user sender) (λ other m. m.addr) s.members
        else collect (hears_voice user sender) (λ other m. m.addr) s.members)
      ↔ Entitled s header user sender a
voice_targets s header user sender a d = elim (Bool-cases (is_screen header.kind)) [
  | inl screen ↦ rw screen (
    λ i.
        let (u, m, e, k, q) =
          collect_sound (hears_screen user sender) (λ other m. m.addr) s.members a d i in
        (u, m, e, ground arith, ground arith, ground arith, q),
    λ (u, m, e, ne, same, w, q).
        collect_complete (hears_screen user sender) (λ other m. m.addr) s.members a u m e
          (ground arith) q,
  )
  | inr voice ↦ rw voice (
    λ i.
        let (u, m, e, k, q) =
          collect_sound (hears_voice user sender) (λ other m. m.addr) s.members a d i in
        (u, m, e, ground arith, ground arith, ground arith, q),
    λ (u, m, e, ne, same, w, q).
        collect_complete (hears_voice user sender) (λ other m. m.addr) s.members a u m e
          (ground arith) q,
  )
]

-- Under the invariant, a packet that is passed on is admitted, and goes exactly to the addresses of those it is for.
pub route-forward :
    (s : State) (header : PacketHeader) (from : SocketAddr) (targets : List SocketAddr)
    → Inv s
    → route s header from ≡ forward targets
    → (user : Ident) × (sender : Member) × Admitted s header from user sender
      × ((target : SocketAddr) → In target targets ↔ Entitled s header user sender target)
route-forward s header from targets v e =
    let (user, sender, o, m, k, r) = route-forward_parts s header from targets e in
    let (addr, own, same) = route_media-Admitted s header from user sender targets r in
    (
      user,
      sender,
      record { owner = o; member = m; registered = addr; is_media = k; own_stream = own },
      λ target.
          subst (λ l. In target l ↔ Entitled s header user sender target) (sym same)
            (voice_targets s header user sender target v.distinct),
    )

-- No check drops an admitted packet.
route-Admitted :
    (s : State) (header : PacketHeader) (from : SocketAddr) (user : Ident) (sender : Member)
    → Admitted s header from user sender
    → (targets : List SocketAddr) × (route s header from ≡ forward targets)
unfolding route route_media
route-Admitted s header from user sender a = elim (Bool-cases (is_screen header.kind)) [
  | inl screen ↦
      (collect (hears_screen user sender) (λ other m. m.addr) s.members, ground (arith, a))
  | inr voice ↦ (collect (hears_voice user sender) (λ other m. m.addr) s.members, ground (arith, a))
]

Admitted-unique :
    (s : State) (header : PacketHeader) (from : SocketAddr) (u v : Ident) (m n : Member)
    → Admitted s header from u m
    → Admitted s header from v n
    → (v ≡ u) × (n ≡ m)
Admitted-unique s header from u v m n a b =
    let same : v ≡ u = same_some (sym b.owner ∙ a.owner) in
    (same, same_some (sym b.member ∙ (ap (λ i. get i s.members) same ∙ a.member)))
  where
    same_some : {A : Type 0} {x y : A} → some x ≡ some y → x ≡ y
    same_some e = cc

-- Under the invariant, an admitted packet is passed on, and reaches everybody it is for and nobody else.
pub route-Reaches :
    (s : State) (header : PacketHeader) (from : SocketAddr) (user : Ident) (sender : Member)
    → Inv s
    → Admitted s header from user sender
    → (targets : List SocketAddr) × (route s header from ≡ forward targets)
      × ((target : SocketAddr) → In target targets ↔ Entitled s header user sender target)
route-Reaches s header from user sender v a =
    let (targets, sent) = route-Admitted s header from user sender a in
    let (user', sender', b, exactly) = route-forward s header from targets v sent in
    let (same, same') = Admitted-unique s header from user user' sender sender' a b in
    (
      targets,
      sent,
      λ target.
          subst (λ u. In target targets ↔ Entitled s header u sender target) same
            (subst (λ m. In target targets ↔ Entitled s header user' m target) same'
              (exactly target)),
    )

-- Under the invariant, a keepalive on any live stream is put to the key of the channel that the stream's owner is in,
-- wherever it comes from.
pub route-keepalive :
    (s : State) (header : PacketHeader) (from : SocketAddr) (user : Ident)
    → Inv s
    → header.kind ≡ keepalive
    → get header.ssrc s.by_ssrc ≡ some user
    → (m : Member) × (key : SessionKey) × (get user s.members ≡ some m)
      × (get m.channel s.keys ≡ some key)
      × (route s header from ≡ register key user)
unfolding route is_keepalive
route-keepalive s header from user v k e =
    let (m, em, side) = v.owners header.ssrc user e in
    let (key, ek) = v.keyed user m em in (m, key, em, ek, ground (arith, e, em, k, ek))
