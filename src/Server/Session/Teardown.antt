-- ===== src/Server/Session/Teardown.antt =====
-- How `run` of crates/boa-server/src/session.rs ends a connection.
use boa_voice.Prelude.{
  ℕ, ◌≡◌, refl, ap, ◌∙◌, ◌⊎◌, inl, inr, Bool, true, false, Option, none, some, if◌then◌else◌, arith,
  Bool-cases, Option-cases,
}
use boa_voice.Prelude.Map.{get, get-remove}
use boa_voice.Proto.Model.{Ident, User}
use boa_voice.Proto.Control.{ServerMsg}
use boa_voice.Server.Hub
use boa_voice.Server.Hub.{State, Conn, deliver}
use boa_voice.Server.Hub.Inv.{Inv, apply}
use boa_voice.Server.Hub.Outbox.{get-broadcast}
use boa_voice.Server.Session.{leave, teardown}
use boa_voice.Server.Session.Keeps.{teardown-Inv}
use boa_voice.Server.Session.Requests.{teardown-absent}

disconnect-gone : (s : State) (conn : ℕ) → get conn (Hub.disconnect s conn).1.conns ≡ none
unfolding Hub.disconnect
disconnect-gone s conn = elim (Option-cases (get conn s.conns)) [
  | inl e ↦ rw (e, Hub.disconnect) e
  | inr (c, e) ↦ rw (e, Hub.disconnect) (ground (arith, get-remove conn conn s.conns))
]

conns-stop_screen : (s : State) (user : Ident) → (Hub.stop_screen s user).1.conns ≡ s.conns
unfolding Hub.stop_screen
conns-stop_screen s user = elim (Option-cases (get user s.members)) [
  | inl e ↦ rw (e, Hub.stop_screen) refl
  | inr (m, e) ↦ rw (e, Hub.stop_screen) refl
]

conns-remove_member : (s : State) (user : Ident) → (Hub.remove_member s user).1.conns ≡ s.conns
unfolding Hub.remove_member
conns-remove_member s user = elim (Option-cases (get user s.members)) [
  | inl e ↦ rw (e, Hub.remove_member) refl
  | inr (m, e) ↦ rw (e, Hub.remove_member) refl
]

-- A broadcast reaches no connection that is not there.
broadcast-gone :
    (s : State) (msg : ServerMsg) (conn : ℕ)
    → get conn s.conns ≡ none
    → get conn (Hub.broadcast s msg).conns ≡ none
broadcast-gone s msg conn e = get-broadcast s msg conn ∙ ap (apply (deliver msg)) e

leave-gone :
    (s : State) (user : Ident) (conn : ℕ)
    → get conn s.conns ≡ none
    → get conn (leave s user).conns ≡ none
unfolding leave
leave-gone s user conn e =
    told (Hub.stop_screen s user).0 (Hub.leave_voice (Hub.stop_screen s user).1 user).0
  where
    left : State
    left = (Hub.leave_voice (Hub.stop_screen s user).1 user).1

    silent : get conn (Hub.leave_voice (Hub.stop_screen s user).1 user).1.conns ≡ none
    silent =
        ap (get conn)
          (conns-remove_member (Hub.stop_screen s user).1 user ∙ conns-stop_screen s user)
        ∙ e

    told :
        (stopped channel : Option Ident)
        → get conn
            (let r : State = elim channel [
              | none ↦ (Hub.leave_voice (Hub.stop_screen s user).1 user).1
              | some c ↦
                  Hub.broadcast
                    (if Hub.is_some stopped
                      then Hub.broadcast
                          (Hub.leave_voice (Hub.stop_screen s user).1 user).1
                          (ServerMsg.screen_stop user)
                      else (Hub.leave_voice (Hub.stop_screen s user).1 user).1)
                    (ServerMsg.voice_leave user c)
            ] in
              r).conns
          ≡ none
    told stopped none = silent
    told none (some c) = broadcast-gone _ (ServerMsg.voice_leave user c) conn silent
    told (some b) (some c) =
        broadcast-gone _ (ServerMsg.voice_leave user c) conn
          (broadcast-gone _ (ServerMsg.screen_stop user) conn silent)

-- The account was on its last connection: it is in no voice channel, and the last thing that everybody
-- who is left is told is that it is offline.
abbrev pub WentOffline : State → User → Type 0
WentOffline t user =
    (Hub.voice_channel_of t user.id ≡ none)
    × ((before : State) × (t ≡ Hub.broadcast before (ServerMsg.presence user.id false)))

-- In a sound hub, ending a connection keeps the hub's invariant and takes the connection out. Where it was the account's
-- last one, the account leaves voice and everybody left is told that it is offline; where it was not,
-- nothing else changes.
pub teardown-Ends :
    (s : State) (conn : ℕ) (user : User)
    → Inv s
    → Inv (teardown s conn user)
      × (get conn (teardown s conn user).conns ≡ none)
      × ((((Hub.disconnect s conn).0 ≡ true) × WentOffline (teardown s conn user) user)
          ⊎ (((Hub.disconnect s conn).0 ≡ false)
              × (teardown s conn user ≡ (Hub.disconnect s conn).1)))
unfolding teardown
teardown-Ends s conn user v = elim (Bool-cases (Hub.disconnect s conn).0) [
  | inr more ↦ (
    teardown-Inv s conn user v,
    rw (more, teardown) (disconnect-gone s conn),
    inr (more, rw (more, teardown) refl),
  )
  | inl last ↦ (
    teardown-Inv s conn user v,
    rw (last, teardown)
        (broadcast-gone _ (ServerMsg.presence user.id false) conn
          (out (Hub.is_some (Hub.voice_channel_of (Hub.disconnect s conn).1 user.id)))),
    inl (
      last,
      (
        teardown-absent s conn user last,
        (
          if Hub.is_some (Hub.voice_channel_of (Hub.disconnect s conn).1 user.id)
              then leave (Hub.disconnect s conn).1 user.id
              else (Hub.disconnect s conn).1,
          rw (last, teardown) refl,
        ),
      ),
    ),
  )
]
  where
    out :
        (b : Bool)
        → get conn
            (if b then leave (Hub.disconnect s conn).1 user.id else (Hub.disconnect s conn).1).conns
          ≡ none
    out true = leave-gone (Hub.disconnect s conn).1 user.id conn (disconnect-gone s conn)
    out false = disconnect-gone s conn
