-- ===== src/System/Roster/Mirrors.antt =====
-- The client behind a connection next to the hub, over the calls of crates/boa-server/src/hub.rs that
-- change the flags, the share and the subscriptions of members.
use boa_voice.Prelude.{
  ℕ, ◌≡◌, refl, Bool, false, none, some, ◌==◌, sym, subst, Option-cases, Bool-cases, inl, inr,
}
use boa_voice.Prelude.Map.{Map, get, modify, map_values}
use boa_voice.Proto.Model.{Ident, VoiceState}
use boa_voice.Proto.Control.{ServerMsg, ScreenRequest}
use boa_voice.Server.Hub
use boa_voice.Server.Hub.{
  State, Member, Joined, Conn, member_state, new_member, with_flags, start_sharing, stop_sharing,
  stop_watching, start_watching, share_of, with_addr,
}
use boa_voice.Server.Session.Induct.{tells_voice, announced}
use boa_voice.Client.State
use boa_voice.Client.State.{with_screen}
use boa_voice.System.Roster.{Agrees, Hears, Quiet, voice_step, broadcast-Hears}
use boa_voice.System.Roster.Changes.{
  modify-Agrees, modify-screen, stop_watching-Agrees, watching-Agrees,
}

pub tells_voice-Quiet : (msg : ServerMsg) → tells_voice msg ≡ false → Quiet msg
unfolding voice_step
tells_voice-Quiet (ServerMsg.ready user server users channels voice_states) e v = cc
tells_voice-Quiet (ServerMsg.voice_state state) e v = cc
tells_voice-Quiet (ServerMsg.voice_leave user channel) e v = cc
tells_voice-Quiet (ServerMsg.screen_start user share) e v = cc
tells_voice-Quiet (ServerMsg.screen_stop user) e v = cc
tells_voice-Quiet _ e v = refl

-- The client behind connection `i` will have the roster that the hub has, once it has applied what is
-- queued for it.
pub record Mirrors (i : ℕ) (now : ℕ) (c : State.State) (s : State) : Type 0 where
  pub roster : Map VoiceState
  pub hears : Hears i now c s.conns roster
  pub agrees : Agrees s.members roster

module _ {i : ℕ} {now : ℕ} {c : State.State} where
  -- A change of the members, and its announcement to everybody.
  pub tells :
      (s : State) (members : Map Member) (msg : ServerMsg) (k : Mirrors i now c s)
      → Agrees members (voice_step k.roster msg)
      → Mirrors i now c (Hub.broadcast (record s { members = members }) msg)
  unfolding Hub.broadcast
  tells s members msg k a = record {
    roster = voice_step k.roster msg;
    hears = broadcast-Hears s k.roster msg k.hears;
    agrees = a;
  }

  -- A change of the members that a roster does not show.
  pub unseen :
      (s : State) (members : Map Member) (k : Mirrors i now c s)
      → Agrees members k.roster
      → Mirrors i now c (record s { members = members })
  unseen s members k a = record { roster = k.roster; hears = k.hears; agrees = a }

  pub stopped-Mirrors :
      (s : State) (user : Ident)
      → Mirrors i now c s
      → Mirrors i now c (announced (Hub.stop_screen s user) (λ channel. ServerMsg.screen_stop user))
  unfolding Hub.stop_screen voice_step
  stopped-Mirrors s user k = elim (Option-cases (get user s.members)) [
    | inl e ↦ rw (e, Hub.stop_screen) k
    | inr (m, e) ↦
        rw (e, Hub.stop_screen)
          (tells s (map_values (stop_watching user) (modify user stop_sharing s.members))
            (ServerMsg.screen_stop user) k
            (stop_watching-Agrees (modify user stop_sharing s.members)
              (modify user (with_screen none) k.roster)
              (modify-screen s.members k.roster k.agrees user m stop_sharing none e refl) user))
  ]

  pub flags-Mirrors :
      (s : State) (user : Ident) (muted deafened : Bool)
      → Mirrors i now c s
      → Mirrors i now c
          (announced (Hub.set_voice_flags s user muted deafened) ServerMsg.voice_state)
  unfolding Hub.set_voice_flags Hub.with_member
  flags-Mirrors s user muted deafened k = elim (Option-cases (get user s.members)) [
    | inl e ↦ rw (e, Hub.set_voice_flags, Hub.with_member, announced) k
    | inr (m, e) ↦
        rw (e, Hub.set_voice_flags, Hub.with_member, announced)
          (tells s (modify user (with_flags muted deafened) s.members)
            (ServerMsg.voice_state (member_state user (with_flags muted deafened m))) k
            (modify-Agrees s.members k.roster k.agrees user m (with_flags muted deafened) e))
  ]

  pub started-Mirrors :
      (s : State) (user : Ident) (request : ScreenRequest)
      → Mirrors i now c s
      → Mirrors i now c (announced (Hub.start_screen s user request) (ServerMsg.screen_start user))
  unfolding Hub.start_screen Hub.with_member voice_step
  started-Mirrors s user request k = elim (Option-cases (get user s.members)) [
    | inl e ↦ rw (e, Hub.start_screen, Hub.with_member, announced) k
    | inr (m, e) ↦
        rw (e, Hub.start_screen, Hub.with_member, announced)
          (tells s (modify user (start_sharing request) s.members)
            (ServerMsg.screen_start user (share_of request m)) k
            (modify-screen s.members k.roster k.agrees user m (start_sharing request)
              (some (share_of request m)) e refl))
  ]

  pub watch-Mirrors :
      (s : State) (viewer target : Ident)
      → Mirrors i now c s
      → Mirrors i now c (Hub.watch s viewer target).1
  unfolding Hub.watch
  watch-Mirrors s viewer target k = elim (Option-cases (get target s.members)) [
    | inl e ↦ rw (e, Hub.watch) k
    | inr (t, e) ↦ elim (Option-cases (get viewer s.members)) [
      | inl e₁ ↦ rw (e, e₁, Hub.watch) k
      | inr (m, e₁) ↦ elim (Bool-cases (m.channel == t.channel)) [
        | inr apart ↦ rw (e, e₁, apart, Hub.watch) k
        | inl same ↦
            rw (e, e₁, same, Hub.watch)
              (unseen s (modify viewer (start_watching target) s.members) k (
                watching-Agrees s.members k.roster k.agrees viewer (start_watching target)
                  (λ u m. refl)))
      ]
    ]
  ]

  pub unwatch-Mirrors :
      (s : State) (viewer target : Ident)
      → Mirrors i now c s
      → Mirrors i now c (Hub.unwatch s viewer target)
  unfolding Hub.unwatch
  unwatch-Mirrors s viewer target k =
      unseen s (modify viewer (stop_watching target) s.members) k
        (watching-Agrees s.members k.roster k.agrees viewer (stop_watching target) (λ u m. refl))

  pub bound-Mirrors :
      (s : State) (user : Ident) (addr at : ℕ)
      → Mirrors i now c s
      → Mirrors i now c (Hub.bind_media_address s user addr at).1
  unfolding Hub.bind_media_address Hub.with_member
  bound-Mirrors s user addr at k = elim (Option-cases (get user s.members)) [
    | inl e ↦ rw (e, Hub.bind_media_address, Hub.with_member) k
    | inr (m, e) ↦
        rw (e, Hub.bind_media_address, Hub.with_member)
          (unseen s (modify user (with_addr addr at) s.members) k
            (watching-Agrees s.members k.roster k.agrees user (with_addr addr at) (λ u m. refl)))
  ]

pub quiet_step :
    {i now : ℕ} {c : State.State} (s t : State) (k : Mirrors i now c s)
    → t.members ≡ s.members
    → Hears i now c t.conns k.roster
    → Mirrors i now c t
quiet_step s t k e h = record {
  roster = k.roster;
  hears = h;
  agrees = subst (λ ms. Agrees ms k.roster) (sym e) k.agrees;
}
