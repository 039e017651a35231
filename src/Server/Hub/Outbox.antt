-- ===== src/Server/Hub/Outbox.antt =====
-- Connections and what is sent to them, crates/boa-server/src/hub.rs.
use boa_voice.Prelude.{
  ℕ, ◌≡◌, refl, ◌↔◌, inl, inr, true, not, Option, none, some, [], ◌∷◌, ◌==◌, if◌then◌else◌, arith,
  Bool-cases, Option-cases,
}
use boa_voice.Prelude.Map.{
  Map, get, remove, modify, map_values, any_value, Distinct, get-modify, get-map_values, get-remove,
  any_value-get, any_value-true, remove-Distinct,
}
use boa_voice.Proto.Model.{Ident}
use boa_voice.Proto.Control.{ServerMsg}
use boa_voice.Server.Hub.{
  State, Conn, Sender, deliver, deliver_except, deliver_to, of_user, connect, disconnect, broadcast,
  broadcast_except, send_to_user, send_to_conn,
}
use boa_voice.Server.Hub.Inv.{Inv, apply}

-- The invariant says nothing of connections.
pub conns-Inv :
    (s : State) (conns : Map Conn) (next : ℕ)
    → Inv s
    → Inv (record s { conns = conns; next_conn = next })
conns-Inv s conns next v = record {
  distinct = v.distinct;
  voice_owned = v.voice_owned;
  screen_owned = v.screen_owned;
  apart = v.apart;
  owners = v.owners;
  nonzero = v.nonzero;
  keyed = v.keyed;
  occupied = v.occupied;
  watched = v.watched;
  next_small = v.next_small;
}

pub broadcast-Inv : (s : State) (msg : ServerMsg) → Inv s → Inv (broadcast s msg)
unfolding broadcast
broadcast-Inv s msg v = conns-Inv s (map_values (deliver msg) s.conns) s.next_conn v

pub broadcast_except-Inv :
    (s : State) (conn : ℕ) (msg : ServerMsg) → Inv s → Inv (broadcast_except s conn msg)
unfolding broadcast_except
broadcast_except-Inv s conn msg v = conns-Inv s (deliver_except conn msg s.conns) s.next_conn v

pub send_to_conn-Inv :
    (s : State) (conn : ℕ) (msg : ServerMsg) → Inv s → Inv (send_to_conn s conn msg)
unfolding send_to_conn
send_to_conn-Inv s conn msg v = conns-Inv s (modify conn (deliver msg) s.conns) s.next_conn v

pub send_to_user-Inv :
    (s : State) (user : Ident) (msg : ServerMsg) → Inv s → Inv (send_to_user s user msg).1
unfolding send_to_user
send_to_user-Inv s user msg v = conns-Inv s (map_values (deliver_to user msg) s.conns) s.next_conn v

pub connect-Inv : (s : State) (user : Ident) (tx : Sender) → Inv s → Inv (connect s user tx).1
unfolding connect
connect-Inv s user tx v = conns-Inv s (connect s user tx).1.conns (connect s user tx).1.next_conn v

pub disconnect-Inv : (s : State) (conn : ℕ) → Inv s → Inv (disconnect s conn).1
unfolding disconnect
disconnect-Inv s conn v = elim (Option-cases (get conn s.conns)) [
  | inl e ↦ rw (e, disconnect) v
  | inr (c, e) ↦ rw (e, disconnect) (conns-Inv s (remove conn s.conns) s.next_conn v)
]

-- What each connection holds after each kind of send.
pub get-broadcast :
    (s : State) (msg : ServerMsg) (i : ℕ)
    → get i (broadcast s msg).conns ≡ apply (deliver msg) (get i s.conns)
unfolding broadcast
get-broadcast s msg i = go (get i s.conns) refl
  where
    go :
        (o : Option Conn)
        → get i s.conns ≡ o
        → get i (map_values (deliver msg) s.conns) ≡ apply (deliver msg) (get i s.conns)
    go none e = ground (arith, get-map_values i (deliver msg) s.conns)
    go (some c) e = ground (arith, get-map_values i (deliver msg) s.conns)

pub get-deliver_except :
    (except i : ℕ) (msg : ServerMsg) (conns : Map Conn)
    → get i (deliver_except except msg conns)
      ≡ (if i == except then get i conns else apply (deliver msg) (get i conns))
unfolding get deliver_except
get-deliver_except except i msg [] = ground arith
get-deliver_except except i msg ((j, c) ∷ conns) =
    ground (arith, get-deliver_except except i msg conns)

pub get-broadcast_except :
    (s : State) (except : ℕ) (msg : ServerMsg) (i : ℕ)
    → get i (broadcast_except s except msg).conns
      ≡ (if i == except then get i s.conns else apply (deliver msg) (get i s.conns))
unfolding broadcast_except
get-broadcast_except s except msg i = get-deliver_except except i msg s.conns

pub get-send_to_conn :
    (s : State) (conn : ℕ) (msg : ServerMsg) (i : ℕ)
    → get i (send_to_conn s conn msg).conns
      ≡ (if conn == i then apply (deliver msg) (get i s.conns) else get i s.conns)
unfolding send_to_conn
get-send_to_conn s conn msg i = go (get i s.conns) refl
  where
    go :
        (o : Option Conn)
        → get i s.conns ≡ o
        → get i (modify conn (deliver msg) s.conns)
          ≡ (if conn == i then apply (deliver msg) (get i s.conns) else get i s.conns)
    go none e = ground (arith, get-modify conn i (deliver msg) s.conns)
    go (some c) e = ground (arith, get-modify conn i (deliver msg) s.conns)

-- Where no connection is listed twice, `disconnect` reports the account's last connection exactly when the connection was there and
-- no other connection of its account is left.
pub disconnect-last :
    (s : State) (conn : ℕ)
    → Distinct s.conns
    → ((disconnect s conn).0 ≡ true) ↔ (
        (gone : Conn) × (get conn s.conns ≡ some gone)
        × ((i : ℕ) (c : Conn) → get i s.conns ≡ some c → c.user ≡ gone.user → i ≡ conn))
unfolding disconnect
disconnect-last s conn d = elim (Option-cases (get conn s.conns)) [
  | inl e ↦ (λ h. absurd (absent e h), λ (gone, g, all). absurd (ground arith))
  | inr (gone, e) ↦ (
    λ h. (gone, e, λ i c ei same. only gone e h i c ei same),
    λ (g, eg, all).
        rw (e, disconnect) (none_left gone e (λ i c ei same. all i c ei (ground arith))),
  )
]
  where
    absent : get conn s.conns ≡ none → (disconnect s conn).0 ≡ true → ⊥
    absent e h = ground arith

    left_any :
        (gone : Conn)
        → get conn s.conns ≡ some gone
        → (disconnect s conn).0 ≡ not (any_value (of_user gone.user) (remove conn s.conns))
    left_any gone e = rw (e, disconnect)

    only :
        (gone : Conn)
        → get conn s.conns ≡ some gone
        → (disconnect s conn).0 ≡ true
        → (i : ℕ) (c : Conn) → get i s.conns ≡ some c
        → c.user ≡ gone.user
        → i ≡ conn
    only gone e h i c ei same = elim (Bool-cases (conn == i)) [
      | inl here ↦ ground arith
      | inr other ↦ absurd (
          ground (
            arith,
            left_any gone e,
            any_value-get (of_user gone.user) (remove conn s.conns) i c
                (rw (get-remove conn i s.conns, other) ei) (ground arith),
          ))
    ]

    none_left :
        (gone : Conn)
        → get conn s.conns ≡ some gone
        → ((i : ℕ) (c : Conn) → get i s.conns ≡ some c → c.user ≡ gone.user → i ≡ conn)
        → not (any_value (of_user gone.user) (remove conn s.conns)) ≡ true
    none_left gone e all = elim (Bool-cases (any_value (of_user gone.user) (remove conn s.conns))) [
      | inr nobody ↦ rw nobody
      | inl somebody ↦
          let (i, c, ei, u) =
            any_value-true (of_user gone.user) (remove conn s.conns)
              (remove-Distinct conn s.conns d) somebody in
          absurd (ground (arith, get-remove conn i s.conns, all i c))
    ]
