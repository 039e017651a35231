-- ===== src/System/Roster/Moves.antt =====
-- The client behind a connection next to the hub, where an account joins or leaves a voice channel:
-- crates/boa-server/src/session.rs and hub.rs.
use boa_voice.Prelude.{
  ℕ, ◌≡◌, refl, false, Option, none, some, if◌then◌else◌, arith, sym, ap, ◌∙◌, subst, ◌+◌, ◌<◌, ◌^◌,
  Option-cases, inl, inr, length,
}
use boa_voice.Prelude.Map.{get, insert, remove, modify, map_values, get-map_values, get-modify}
use boa_voice.Proto.Model.{Ident}
use boa_voice.Proto.Control.{ServerMsg}
use boa_voice.Proto.Media.{SessionKey}
use boa_voice.Server.Hub
use boa_voice.Server.Hub.{
  State, Member, Joined, Conn, member_state, new_member, with_flags, start_sharing, stop_sharing,
  stop_watching, start_watching, share_of, with_addr,
}
use boa_voice.Server.Hub.Inv.{Inv}
use boa_voice.Server.Hub.Join.{join_voice-Joins}
use boa_voice.Server.Session.{leave}
use boa_voice.Server.Session.Induct.{tells_voice, left_first, announced}
use boa_voice.Client.State
use boa_voice.Client.State.{with_screen}
use boa_voice.System.Roster.{Agrees, Hears, voice_step, broadcast-Hears, send_to_conn-Quiet}
use boa_voice.System.Roster.Changes.{stop_watching-Agrees, remove-Agrees, insert-Agrees}
use boa_voice.System.Roster.Mirrors.{tells_voice-Quiet, stopped-Mirrors, Mirrors}

-- What `leave` makes of what its two calls return.
abbrev leave_after : Option Ident → Option Ident × State → Ident → State
leave_after stopped r user = elim r.0 [
  | none ↦ r.1
  | some channel ↦
      Hub.broadcast
        (if Hub.is_some stopped then Hub.broadcast r.1 (ServerMsg.screen_stop user) else r.1)
        (ServerMsg.voice_leave user channel)
]

leave-leave_after :
    (s : State) (user : Ident) (r : Option Ident × State) (r₁ : Option Ident × State)
    → Hub.stop_screen s user ≡ r
    → Hub.remove_member r.1 user ≡ r₁
    → leave s user ≡ leave_after r.0 r₁ user
unfolding leave Hub.leave_voice
leave-leave_after s user r r₁ e e₁ =
    ap (λ q. leave_after q.0 (Hub.remove_member q.1 user) user) e
    ∙ ap (λ q. leave_after r.0 q user) e₁

removed_none :
    (s : State) (user : Ident) → get user s.members ≡ none → Hub.remove_member s user ≡ (none, s)
unfolding Hub.remove_member
removed_none s user e = rw (e, Hub.remove_member) refl

removed_some :
    (s : State) (user : Ident) (m : Member)
    → get user s.members ≡ some m
    → Hub.remove_member s user ≡ (some m.channel, Hub.without s user m)
unfolding Hub.remove_member
removed_some s user m e = rw (e, Hub.remove_member) refl

leave_absent : (s : State) (user : Ident) → get user s.members ≡ none → leave s user ≡ s
unfolding Hub.stop_screen
leave_absent s user e =
    leave-leave_after s user (none, s) (none, s) (stopped e) (removed_none s user e)
  where
    stopped : get user s.members ≡ none → Hub.stop_screen s user ≡ (none, s)
    stopped e = rw (e, Hub.stop_screen) refl

-- Leaving as two announced calls: of the share that stops, and of the member who goes.
leave_announced :
    (s s₁ : State) (channel user : Ident) (m : Member)
    → Hub.stop_screen s user ≡ (some channel, s₁)
    → get user s₁.members ≡ some m
    → leave s user
      ≡ left_first
          (Hub.remove_member (Hub.broadcast s₁ (ServerMsg.screen_stop user)) user).1
          user
          (Hub.remove_member (Hub.broadcast s₁ (ServerMsg.screen_stop user)) user).0
unfolding Hub.broadcast
leave_announced s s₁ channel user m e₀ e₁ =
    leave-leave_after s user (some channel, s₁) (some m.channel, Hub.without s₁ user m) e₀
      (removed_some s₁ user m e₁)
    ∙ sym (
        ap (λ r. left_first r.1 user r.0)
          (removed_some (Hub.broadcast s₁ (ServerMsg.screen_stop user)) user m e₁))

pub left_first-members :
    (s : State) (user : Ident) (previous : Option Ident)
    → (left_first s user previous).members ≡ s.members
unfolding Hub.broadcast
left_first-members s user none = refl
left_first-members s user (some p) = refl

module _ {i : ℕ} {now : ℕ} {c : State.State} where
  -- Somebody leaves, and everybody is told.
  pub removed-Mirrors :
      (s : State) (user : Ident)
      → Mirrors i now c s
      → Mirrors i now c (left_first (Hub.remove_member s user).1 user (Hub.remove_member s user).0)
  unfolding Hub.remove_member Hub.broadcast
  removed-Mirrors s user k = elim (Option-cases (get user s.members)) [
    | inl e ↦ rw (e, Hub.remove_member) k
    | inr (m, e) ↦
        rw (e, Hub.remove_member)
          (record {
            roster = voice_step k.roster (ServerMsg.voice_leave user m.channel);
            hears = broadcast-Hears s k.roster (ServerMsg.voice_leave user m.channel) k.hears;
            agrees =
                stop_watching-Agrees (remove user s.members)
                  (voice_step k.roster (ServerMsg.voice_leave user m.channel))
                  (remove-Agrees s.members k.roster k.agrees user m e) user;
          })
  ]

  -- Where somebody leaves a channel for another, what everybody has heard before the newcomer is told.
  pub half_way :
      (r t : State) (user : Ident) (previous : Option Ident)
      → t.conns ≡ r.conns
      → (k : Mirrors i now c (left_first r user previous))
      → Hears i now c (left_first t user previous).conns k.roster
  unfolding Hub.broadcast
  half_way r t user none ec k = subst (λ cs. Hears i now c cs k.roster) (sym ec) k.hears
  half_way r t user (some p) ec k =
      subst
        (λ cs. Hears i now c (map_values (Hub.deliver (ServerMsg.voice_leave user p)) cs) k.roster)
        (sym ec) k.hears

  pub arrived-Mirrors :
      (r x : State) (user : Ident) (previous : Option Ident) (m : Member)
      → x.members ≡ insert user m r.members
      → (k : Mirrors i now c (left_first r user previous)) → Hears i now c x.conns k.roster
      → Mirrors i now c (Hub.broadcast x (ServerMsg.voice_state (member_state user m)))
  unfolding Hub.broadcast
  arrived-Mirrors r x user previous m em k h = record {
    roster = voice_step k.roster (ServerMsg.voice_state (member_state user m));
    hears = broadcast-Hears x k.roster (ServerMsg.voice_state (member_state user m)) h;
    agrees =
        subst (λ ms. Agrees ms (voice_step k.roster (ServerMsg.voice_state (member_state user m))))
          (sym em)
          (insert-Agrees r.members k.roster
            (subst (λ ms. Agrees ms k.roster) (left_first-members r user previous) k.agrees) user
            m);
  }

  pub joined-Mirrors :
      (s : State) (user channel : Ident) (at : ℕ) (fresh : SessionKey)
      → length s.by_ssrc + 2 < 2 ^ 32
      → Inv s
      → Mirrors i now c s
      → (j : Joined) × (t : State) × (Hub.join_voice s user channel at fresh ≡ some (j, t))
        × Inv t
        × ((conn : ℕ) (msg : ServerMsg)
            → tells_voice msg ≡ false
            → Mirrors i now c (
                Hub.broadcast
                  (Hub.send_to_conn (left_first t user j.previous) conn msg)
                  (ServerMsg.voice_state j.state)))
  unfolding Hub.send_to_conn
  joined-Mirrors s user channel at fresh room v k =
      let (j, t, e, joins) = join_voice-Joins s user channel at fresh v room in
      let r = (Hub.remove_member s user).1 in
      let k₁ =
        subst (λ p. Mirrors i now c (left_first r user p)) (sym joins.previous)
          (removed-Mirrors s user k) in
      let m = new_member channel j.state.ssrc joins.screen_ssrc at in
      (
        j,
        t,
        e,
        joins.valid,
        λ conn msg quiet.
            subst
              (λ st. Mirrors i now c (
                Hub.broadcast (Hub.send_to_conn (left_first t user j.previous) conn msg)
                  (ServerMsg.voice_state st)))
              (sym joins.announced)
              (arrived-Mirrors r (Hub.send_to_conn (left_first t user j.previous) conn msg) user
                j.previous m (left_first-members t user j.previous ∙ joins.members) k₁
                (send_to_conn-Quiet (left_first t user j.previous) k₁.roster conn msg
                  (tells_voice-Quiet msg quiet) (half_way r t user j.previous joins.conns k₁))),
      )

  pub left-Mirrors : (s : State) (user : Ident) → Mirrors i now c s → Mirrors i now c (leave s user)
  left-Mirrors s user k = elim (Option-cases (get user s.members)) [
    | inl e ↦ subst (Mirrors i now c) (sym (leave_absent s user e)) k
    | inr (m, e) ↦
        let s₁ = record s {
          members = map_values (stop_watching user) (modify user stop_sharing s.members);
        } in
        let m₁ : Member = stop_watching user (stop_sharing m) in
        let e₀ : Hub.stop_screen s user ≡ (some m.channel, s₁) =
          unfold Hub.stop_screen in rw (e, Hub.stop_screen) refl in
        let e₁ : get user s₁.members ≡ some m₁ = ground (
          arith,
          get-map_values user (stop_watching user) (modify user stop_sharing s.members),
          get-modify user user stop_sharing s.members,
        ) in
        subst (Mirrors i now c) (sym (leave_announced s s₁ m.channel user m₁ e₀ e₁)) (
          removed-Mirrors (Hub.broadcast s₁ (ServerMsg.screen_stop user)) user (
            subst (λ r. Mirrors i now c (announced r (λ channel. ServerMsg.screen_stop user))) e₀
              (stopped-Mirrors s user k)))
  ]
