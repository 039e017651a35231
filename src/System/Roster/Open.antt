-- ===== src/System/Roster/Open.antt =====
-- Connections that open and close, next to what a client knows of the voice channels:
-- crates/boa-server/src/session.rs.
use boa_voice.Prelude.{
  ℕ, ◌≡◌, refl, Bool, true, false, none, some, List, if◌then◌else◌, arith, Bool-cases, Option-cases,
  inl, inr, ◌≢◌, sym, ap, ◌∙◌,
}
use boa_voice.Prelude.Map.{get, remove, get-insert, get-remove}
use boa_voice.Proto.Model.{Ident, User, Channel}
use boa_voice.Proto.Control.{ServerMsg}
use boa_voice.Server.Hub
use boa_voice.Server.Hub.{State, Conn, Sender}
use boa_voice.Server.Hub.Inv.{Inv}
use boa_voice.Server.Hub.Outbox.{
  connect-Inv, send_to_conn-Inv, broadcast_except-Inv, get-send_to_conn,
}
use boa_voice.Server.Session.Serve.{new_session, open_session}
use boa_voice.Server.Session.{Db, World, Env, leave, teardown, send_ready}
use boa_voice.Client.State
use boa_voice.Client.State.{index_voice}
use boa_voice.System.Roster.{
  Hears-same, Hears-deliver, broadcast-Quiet, broadcast_except-Quiet, Quiet, voice_step, hear,
}
use boa_voice.System.Roster.Ready.{voice_states-Agrees}
use boa_voice.System.Roster.Mirrors.{Mirrors, quiet_step}
use boa_voice.System.Roster.Moves.{left-Mirrors}

module _ {i now : ℕ} {c : State.State} where
  -- A new connection takes a number that is not in use.
  connect-Mirrors :
      (s : State) (user : Ident) (tx : Sender)
      → get s.next_conn s.conns ≡ none
      → Mirrors i now c s
      → Mirrors i now c (Hub.connect s user tx).1
  unfolding Hub.connect
  connect-Mirrors s user tx free k = quiet_step s (Hub.connect s user tx).1 k refl (
      Hears-same s.conns (Hub.connect s user tx).1.conns k.roster k.hears (
        ground (
          arith,
          get-insert s.next_conn i (record { user = user; tx = tx }) s.conns,
          k.hears.held,
        )))

  disconnect-Mirrors :
      (s : State) (conn : ℕ)
      → conn ≢ i
      → Mirrors i now c s
      → Mirrors i now c (Hub.disconnect s conn).1
  unfolding Hub.disconnect
  disconnect-Mirrors s conn ne k = elim (Option-cases (get conn s.conns)) [
    | inl e ↦ rw (e, Hub.disconnect) k
    | inr (gone, e) ↦
        rw (e, Hub.disconnect)
          (quiet_step s (record s { conns = remove conn s.conns }) k refl
            (Hears-same s.conns (remove conn s.conns) k.roster k.hears
              (ground (arith, get-remove conn i s.conns))))
  ]

  pub teardown-Mirrors :
      (s : State) (conn : ℕ) (user : User)
      → conn ≢ i
      → Mirrors i now c s
      → Mirrors i now c (teardown s conn user)
  unfolding teardown Hub.broadcast voice_step
  teardown-Mirrors s conn user ne k = elim (Bool-cases (Hub.disconnect s conn).0) [
    | inr more ↦ rw (more, teardown) gone
    | inl last ↦
        rw (last, teardown)
          (told _ (left (Hub.is_some (Hub.voice_channel_of (Hub.disconnect s conn).1 user.id))))
  ]
    where
      gone : Mirrors i now c (Hub.disconnect s conn).1
      gone = disconnect-Mirrors s conn ne k

      left :
          (b : Bool)
          → Mirrors i now c
              (if b then leave (Hub.disconnect s conn).1 user.id else (Hub.disconnect s conn).1)
      left true = left-Mirrors (Hub.disconnect s conn).1 user.id gone
      left false = gone

      told :
          (t : State)
          → Mirrors i now c t
          → Mirrors i now c (Hub.broadcast t (ServerMsg.presence user.id false))
      told t k =
          quiet_step t (Hub.broadcast t (ServerMsg.presence user.id false)) k refl
            (broadcast-Quiet t k.roster (ServerMsg.presence user.id false) (λ v. refl) k.hears)

  -- The connection that gets `ready` mirrors the hub, whatever its client believed before.
  ready-Mirrors :
      {D : Type 0} (db : Db D) (env : Env) (w : World D) (conn : Conn) (users : List User)
      (channels : List Channel)
      → w.conn ≡ i
      → Inv w.hub
      → get i w.hub.conns ≡ some conn
      → conn.tx.alive ≡ true
      → db.users w.db ≡ some users
      → db.channels w.db ≡ some channels
      → Mirrors i now c (send_ready db env w).hub
  unfolding send_ready Hub.send_to_conn voice_step
  ready-Mirrors db env w conn users channels same v held open_yet eu ec =
      rw (eu, ec, send_ready)
        (record {
          roster = index_voice (Hub.voice_states w.hub);
          hears =
              Hears-deliver w.hub.conns (Hub.send_to_conn w.hub w.conn ready).conns
                (hear now c conn.tx.queue).voice ready
                (record { conn = conn; held = held; open_yet = open_yet; heard = refl })
                (ground (arith, get-send_to_conn w.hub w.conn ready i));
          agrees = voice_states-Agrees w.hub v.distinct;
        })
    where
      ready : ServerMsg
      ready =
          ServerMsg.ready (record w.user { online = true }) env.server
            (Hub.decorate_presence w.hub users) channels (Hub.voice_states w.hub)

ready_sent-Inv :
    {D : Type 0} (db : Db D) (env : Env) (w : World D) → Inv w.hub → Inv (send_ready db env w).hub
unfolding send_ready
ready_sent-Inv db env w v = elim (Option-cases (db.users w.db)) [
  | inl e ↦ rw (e, send_ready) (send_to_conn-Inv w.hub w.conn _ v)
  | inr (users, e) ↦ elim (Option-cases (db.channels w.db)) [
    | inl e₁ ↦ rw (e, e₁, send_ready) (send_to_conn-Inv w.hub w.conn _ v)
    | inr (channels, e₁) ↦ rw (e, e₁, send_ready) (send_to_conn-Inv w.hub w.conn _ v)
  ]
]

module _ {i now : ℕ} {c : State.State} where
  -- What another connection is sent alone.
  elsewhere-Mirrors :
      (s : State) (conn : ℕ) (msg : ServerMsg)
      → conn ≢ i
      → Mirrors i now c s
      → Mirrors i now c (Hub.send_to_conn s conn msg)
  unfolding Hub.send_to_conn
  elsewhere-Mirrors s conn msg ne k = quiet_step s (Hub.send_to_conn s conn msg) k refl (
      Hears-same s.conns (Hub.send_to_conn s conn msg).conns k.roster k.hears
        (ground (arith, get-send_to_conn s conn msg i)))

  other_ready-Mirrors :
      {D : Type 0} (db : Db D) (env : Env) (w : World D)
      → w.conn ≢ i
      → Mirrors i now c w.hub
      → Mirrors i now c (send_ready db env w).hub
  unfolding send_ready
  other_ready-Mirrors db env w ne k = elim (Option-cases (db.users w.db)) [
    | inl e ↦ rw (e, send_ready) (elsewhere-Mirrors w.hub w.conn _ ne k)
    | inr (users, e) ↦ elim (Option-cases (db.channels w.db)) [
      | inl e₁ ↦ rw (e, e₁, send_ready) (elsewhere-Mirrors w.hub w.conn _ ne k)
      | inr (channels, e₁) ↦ rw (e, e₁, send_ready) (elsewhere-Mirrors w.hub w.conn _ ne k)
    ]
  ]

  presence-Mirrors :
      (first : Bool) (s : State) (conn : ℕ) (msg : ServerMsg)
      → Quiet msg
      → Mirrors i now c s
      → Mirrors i now c (if first then Hub.broadcast_except s conn msg else s)
  unfolding Hub.broadcast_except
  presence-Mirrors true s conn msg quiet k =
      quiet_step s (Hub.broadcast_except s conn msg) k refl
        (broadcast_except-Quiet s k.roster conn msg quiet k.hears)
  presence-Mirrors false s conn msg quiet k = k

presence-Inv :
    (first : Bool) (s : State) (conn : ℕ) (msg : ServerMsg)
    → Inv s
    → Inv (if first then Hub.broadcast_except s conn msg else s)
presence-Inv true s conn msg v = broadcast_except-Inv s conn msg v
presence-Inv false s conn msg v = v

module _ {D : Type 0} (db : Db D) (env : Env) (s : State) (d : D) (user : User) (tx : Sender) where
  -- What a connection gets as it opens, told apart: `ready`, then the others' notice.
  opened-hub : (open_session db env s d user tx).hub ≡ (
      if (Hub.connect s user.id tx).0.1
      then Hub.broadcast_except
          (send_ready db env (new_session db env s d user tx)).hub
          (send_ready db env (new_session db env s d user tx)).conn
          (ServerMsg.presence user.id true)
      else (send_ready db env (new_session db env s d user tx)).hub)
  unfolding open_session
  opened-hub = elim (Bool-cases (Hub.connect s user.id tx).0.1) [
    | inl e ↦ rw (e, open_session) refl
    | inr e ↦ rw (e, open_session) refl
  ]

  pub opened-Inv : Inv s → Inv (open_session db env s d user tx).hub
  opened-Inv v = rw opened-hub (
      presence-Inv (Hub.connect s user.id tx).0.1 _ _ _
        (ready_sent-Inv db env (new_session db env s d user tx) (connect-Inv s user.id tx v)))

  -- Another connection opens.
  pub other_opened-Mirrors :
      {i now : ℕ} {c : State.State}
      → get s.next_conn s.conns ≡ none
      → Mirrors i now c s
      → Mirrors i now c (open_session db env s d user tx).hub
  unfolding voice_step Hub.connect
  other_opened-Mirrors {i} free k = rw opened-hub (
      presence-Mirrors (Hub.connect s user.id tx).0.1 _ _ (ServerMsg.presence user.id true)
        (λ v. refl)
        (other_ready-Mirrors db env (new_session db env s d user tx) apart
          (connect-Mirrors s user.id tx free k)))
    where
      apart : (new_session db env s d user tx).conn ≢ i
      apart e = clash (sym free ∙ (ap (λ n. get n s.conns) e ∙ k.hears.held))
        where
          clash : none ≡ some k.hears.conn → ⊥
          clash e = cc

  -- The connection that opens mirrors the hub.
  pub opened-Mirrors :
      {now : ℕ} {c : State.State} (users : List User) (channels : List Channel)
      → Inv s
      → tx.alive ≡ true
      → db.users d ≡ some users
      → db.channels d ≡ some channels
      → Mirrors s.next_conn now c (open_session db env s d user tx).hub
  unfolding Hub.connect voice_step
  opened-Mirrors users channels v alive eu ec = rw opened-hub (
      presence-Mirrors (Hub.connect s user.id tx).0.1 _ _ (ServerMsg.presence user.id true)
        (λ v. refl)
        (ready-Mirrors db env (new_session db env s d user tx) (record { user = user.id; tx = tx })
          users channels refl (connect-Inv s user.id tx v)
          (ground (
            arith,
            get-insert s.next_conn s.next_conn (record { user = user.id; tx = tx }) s.conns,
          ))
          alive eu ec))
