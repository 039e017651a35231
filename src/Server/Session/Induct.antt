-- ===== src/Server/Session/Induct.antt =====
-- What a handler does to the hub, as a chain of a few kinds of calls: a predicate that each of these
-- keeps holds after every message, crates/boa-server/src/session.rs.
use boa_voice.Prelude.{
  ℕ, ◌+◌, ◌^◌, ◌<◌, ◌≡◌, refl, Bool, true, false, ◌&&◌, ◌||◌, Option, none, some, List, [], ◌∷◌,
  ltb, if◌then◌else◌, length, take, min, Option-cases, inl, inr,
}
use boa_voice.Prelude.Map.{get}
use boa_voice.Prelude.Text.{Text, is_empty, trim}
use boa_voice.Proto.Model.{Ident, ChannelKind}
use boa_voice.Proto.Media.{SessionKey}
use boa_voice.Proto.Control.{ClientMsg, ServerMsg, ErrorCode, ScreenRequest}
use boa_voice.Server.Hub
use boa_voice.Server.Hub.{State, Joined, Instant}
use boa_voice.Server.Session.{
  Db, World, Env, Flow, handle, leave, tell_each, send, send_message, store_message, edit_message,
  refused, carry_on, broadcast, delete_message, typing, create_channel, set_display_name,
  enter_voice, join_voice, is_voice, is_fresh, history_max, max_content, max_attachments,
  max_display_name, normalise_channel_name, check_screen_request,
}

-- Whether a message tells of the members of voice channels.
abbrev pub tells_voice : ServerMsg → Bool
tells_voice (ServerMsg.ready user server users channels voice_states) = true
tells_voice (ServerMsg.voice_state state) = true
tells_voice (ServerMsg.voice_leave user channel) = true
tells_voice (ServerMsg.screen_start user share) = true
tells_voice (ServerMsg.screen_stop user) = true
tells_voice _ = false

-- What is announced after a call of the hub that may return nothing.
abbrev pub announced : {A : Type 0} → Option A × State → (A → ServerMsg) → State
announced (none, s) msg = s
announced (some a, s) msg = Hub.broadcast s (msg a)

-- What is sent when somebody joins: to everybody that they left, to them the credentials, to everybody
-- that they came.
abbrev pub left_first : State → Ident → Option Ident → State
left_first s user none = s
left_first s user (some previous) = Hub.broadcast s (ServerMsg.voice_leave user previous)

-- A predicate on the hub that the calls of a handler keep.
pub record Closed (P : State → Type 0) : Type 0 where
  pub to_conn :
      (s : State) (conn : ℕ) (msg : ServerMsg)
      → tells_voice msg ≡ false
      → P s
      → P (Hub.send_to_conn s conn msg)
  pub to_user :
      (s : State) (user : Ident) (msg : ServerMsg)
      → tells_voice msg ≡ false
      → P s
      → P (Hub.send_to_user s user msg).1
  pub to_all :
      (s : State) (msg : ServerMsg) → tells_voice msg ≡ false → P s → P (Hub.broadcast s msg)
  pub to_others :
      (s : State) (conn : ℕ) (msg : ServerMsg)
      → tells_voice msg ≡ false
      → P s
      → P (Hub.broadcast_except s conn msg)
  pub leaves : (s : State) (user : Ident) → P s → P (leave s user)
  pub flags :
      (s : State) (user : Ident) (muted deafened : Bool)
      → P s
      → P (announced (Hub.set_voice_flags s user muted deafened) ServerMsg.voice_state)
  pub starts :
      (s : State) (user : Ident) (request : ScreenRequest)
      → P s
      → P (announced (Hub.start_screen s user request) (ServerMsg.screen_start user))
  pub stops :
      (s : State) (user : Ident)
      → P s
      → P (announced (Hub.stop_screen s user) (λ channel. ServerMsg.screen_stop user))
  pub watches : (s : State) (viewer target : Ident) → P s → P (Hub.watch s viewer target).1
  pub unwatches : (s : State) (viewer target : Ident) → P s → P (Hub.unwatch s viewer target)
  pub enters :
      (s : State) (user channel : Ident) (now : Instant) (fresh : SessionKey)
      → length s.by_ssrc + 2 < 2 ^ 32
      → P s
      → (j : Joined) × (t : State) × (Hub.join_voice s user channel now fresh ≡ some (j, t))
        × ((conn : ℕ) (msg : ServerMsg)
            → tells_voice msg ≡ false
            → P (
                Hub.broadcast
                  (Hub.send_to_conn (left_first t user j.previous) conn msg)
                  (ServerMsg.voice_state j.state)))

-- The handler came to its end, and the predicate holds.
abbrev pub Lands : {D : Type 0} → (State → Type 0) → Option (Flow × World D) → Type 0
Lands P none = ⊥
Lands P (some (flow, w)) = P w.hub

module _ (P : State → Type 0) (closed : Closed P) where
  if_Lands :
      {D : Type 0} (b : Bool) (x y : Option (Flow × World D))
      → Lands P x
      → Lands P y
      → Lands P (if b then x else y)
  if_Lands true x y kx ky = kx
  if_Lands false x y kx ky = ky

  option_Lands :
      {D A : Type 0} (o : Option A) (x : Option (Flow × World D)) (f : A → Option (Flow × World D))
      → Lands P x
      → ((a : A) → Lands P (f a))
      → Lands P (elim o [ none ↦ x | some a ↦ f a ])
  option_Lands none x f kx kf = kx
  option_Lands (some a) x f kx kf = kf a

  -- The three answers of the database: an error, nothing there, a value.
  answer_Lands :
      {D A : Type 0} (o : Option (Option A)) (x y : Option (Flow × World D))
      (f : A → Option (Flow × World D))
      → Lands P x
      → Lands P y
      → ((a : A) → Lands P (f a))
      → Lands P (elim o [ none ↦ x | some none ↦ y | some (some a) ↦ f a ])
  answer_Lands none x y f kx ky kf = kx
  answer_Lands (some none) x y f kx ky kf = ky
  answer_Lands (some (some a)) x y f kx ky kf = kf a

  tell_each-P :
      (peers : List Ident) (hub : State) (msg : ServerMsg)
      → tells_voice msg ≡ false
      → P hub
      → P (tell_each hub peers msg)
  unfolding tell_each
  tell_each-P [] hub msg quiet v = v
  tell_each-P (peer ∷ rest) hub msg quiet v =
      tell_each-P rest (Hub.send_to_user hub peer msg).1 msg quiet
        (closed.to_user hub peer msg quiet v)

  -- Where nothing is returned, the sender is told so.
  announced-Lands :
      {D A : Type 0} (db : Db D) (env : Env) (w : World D) (r : Option A × State)
      (msg : A → ServerMsg) (code : ErrorCode) (why : Text)
      → P (announced r msg)
      → Lands P (elim r.0 [
        | none ↦ refused (record w { hub = r.1 }) code why
        | some a ↦ carry_on (broadcast (record w { hub = r.1 }) (msg a))
      ])
  announced-Lands db env w (none, s) msg code why p = closed.to_conn s w.conn _ refl p
  announced-Lands db env w (some a, s) msg code why p = p

  stopped-Lands :
      {D : Type 0} (db : Db D) (env : Env) (w : World D) (r : Option Ident × State)
      → P (announced r (λ channel. ServerMsg.screen_stop w.user.id))
      → Lands P (
          if Hub.is_some r.0
          then carry_on (broadcast (record w { hub = r.1 }) (ServerMsg.screen_stop w.user.id))
          else carry_on (record w { hub = r.1 }))
  stopped-Lands db env w (none, s) p = p
  stopped-Lands db env w (some c, s) p = p

  module _ {D : Type 0} (db : Db D) (env : Env) (w : World D) (v : P w.hub) where
    sent : (msg : ServerMsg) → tells_voice msg ≡ false → P (send w msg).hub
    sent msg quiet = closed.to_conn w.hub w.conn msg quiet v

    store_message-Lands :
        (channel : Ident) (content : Text) (nonce : Option Text) (attachments : List Ident)
        → P (store_message db env w channel content nonce attachments).hub
    unfolding store_message
    store_message-Lands channel content nonce attachments =
        elim (Option-cases (db.insert_message w.db channel w.user.id content nonce attachments).0) [
          | inl e ↦ rw (e, store_message) (sent _ refl)
          | inr (message, e) ↦
              rw (e, store_message)
                (closed.to_conn _ w.conn _ refl (closed.to_others w.hub w.conn _ refl v))
        ]

    send_message-Lands :
        (channel : Ident) (raw nonce : Text) (attachments : List Ident)
        → Lands P (send_message db env w channel raw nonce attachments)
    unfolding send_message
    send_message-Lands channel raw nonce attachments =
        if_Lands (ltb max_content (length (trim raw))) _ _ (sent _ refl) (
          if_Lands (ltb max_attachments (length attachments)) _ _ (sent _ refl) (
            if_Lands (is_empty (trim raw) && is_empty attachments) _ _ (sent _ refl) (
              answer_Lands (db.channel w.db channel) _ _ _ (sent _ refl) (sent _ refl) (λ c.
                store_message-Lands channel (trim raw) (if is_empty nonce then none else some nonce)
                  attachments))))

    edit_message-Lands : (id : Ident) (raw : Text) → Lands P (edit_message db env w id raw)
    unfolding edit_message
    edit_message-Lands id raw =
        if_Lands (is_empty (trim raw) || ltb max_content (length (trim raw))) _ _ (sent _ refl) (
          answer_Lands (db.edit_message w.db id w.user.id (trim raw)).0 _ _ _ (sent _ refl)
            (sent _ refl)
            (λ message. closed.to_all w.hub (ServerMsg.message_update message) refl v))

    delete_message-Lands : (id : Ident) → Lands P (delete_message db env w id)
    unfolding delete_message
    delete_message-Lands id =
        answer_Lands (db.delete_message w.db id w.user.id).0 _ _ _ (sent _ refl) (sent _ refl)
          (λ channel. closed.to_all w.hub (ServerMsg.message_delete channel id) refl v)

    typing-Lands : (channel : Ident) → Lands P (typing db env w channel)
    unfolding typing
    typing-Lands channel =
        if_Lands (is_fresh db env (get channel w.last_typing)) _ _
          (closed.to_others w.hub w.conn (ServerMsg.typing channel w.user.id) refl v) v

    create_channel-Lands :
        (raw : Text) (kind : ChannelKind) → Lands P (create_channel db env w raw kind)
    unfolding create_channel
    create_channel-Lands raw kind =
        if_Lands (is_empty (normalise_channel_name raw)) _ _ (sent _ refl) (
          option_Lands (db.create_channel w.db (normalise_channel_name raw) kind).0 _ _
            (sent _ refl)
            (λ channel. closed.to_all w.hub (ServerMsg.channel_create channel) refl v))

    set_display_name-Lands : (raw : Text) → Lands P (set_display_name db env w raw)
    unfolding set_display_name
    set_display_name-Lands raw =
        option_Lands (db.set_display_name w.db w.user.id (take max_display_name (trim raw))).0 _ _
          (sent _ refl) (λ _. closed.to_all w.hub _ refl v)

    module _ (room : length w.hub.by_ssrc + 2 < 2 ^ 32) where
      enter_voice-Lands : (channel : Ident) → Lands P (enter_voice db env w channel)
      unfolding enter_voice
      enter_voice-Lands channel =
          let (j, t, e, told) = closed.enters w.hub w.user.id channel env.now env.fresh room v in
          rw (e, enter_voice) (told_first j t (told w.conn))
        where
          told_first :
              (j : Joined) (t : State)
              → ((msg : ServerMsg)
                  → tells_voice msg ≡ false
                  → P (
                      Hub.broadcast
                        (Hub.send_to_conn (left_first t w.user.id j.previous) w.conn msg)
                        (ServerMsg.voice_state j.state)))
              → P (
                  Hub.broadcast
                    (Hub.send_to_conn
                      (elim j.previous [
                        | none ↦ t
                        | some c ↦ Hub.broadcast t (ServerMsg.voice_leave w.user.id c)
                      ])
                      w.conn
                      (ServerMsg.voice_ready channel j.state.ssrc
                        (env.base64 j.key.bytes)
                        env.server.media_port))
                    (ServerMsg.voice_state j.state))
          told_first j t told =
              elim j.previous
                  as (λ previous.
                    ((msg : ServerMsg)
                      → tells_voice msg ≡ false
                      → P (
                          Hub.broadcast
                            (Hub.send_to_conn (left_first t w.user.id previous) w.conn msg)
                            (ServerMsg.voice_state j.state)))
                    → P (
                        Hub.broadcast
                          (Hub.send_to_conn
                            (elim previous [
                              | none ↦ t
                              | some c ↦ Hub.broadcast t (ServerMsg.voice_leave w.user.id c)
                            ])
                            w.conn
                            (ServerMsg.voice_ready channel j.state.ssrc (env.base64 j.key.bytes)
                              env.server.media_port))
                          (ServerMsg.voice_state j.state))) [
                            | none ↦ λ h. h _ refl
                            | some c ↦ λ h. h _ refl
                          ]
                told

      join_voice-Lands : (channel : Ident) → Lands P (join_voice db env w channel)
      unfolding join_voice
      join_voice-Lands channel =
          answer_Lands (db.channel w.db channel) _ _ _ (sent _ refl) (sent _ refl)
            (λ c. if_Lands (is_voice db env c.kind) _ _ (enter_voice-Lands channel) (sent _ refl))

      -- Every message a client can send is handled to the end, and keeps the predicate.
      pub handle-Lands : (msg : ClientMsg) → Lands P (handle db env w msg)
      unfolding handle
      handle-Lands (ClientMsg.identify token version agent) = sent _ refl
      handle-Lands (ClientMsg.ping nonce) = sent _ refl
      handle-Lands (ClientMsg.history channel before limit) =
          option_Lands (db.history w.db channel before (min limit history_max)) _ _ (sent _ refl)
            (λ r. sent _ refl)
      handle-Lands (ClientMsg.send_message channel content nonce attachments) =
          send_message-Lands channel content nonce attachments
      handle-Lands (ClientMsg.edit_message id content) = edit_message-Lands id content
      handle-Lands (ClientMsg.delete_message id) = delete_message-Lands id
      handle-Lands (ClientMsg.typing channel) = typing-Lands channel
      handle-Lands (ClientMsg.create_channel name kind) = create_channel-Lands name kind
      handle-Lands (ClientMsg.set_display_name name) = set_display_name-Lands name
      handle-Lands (ClientMsg.join_voice channel) = join_voice-Lands channel
      handle-Lands ClientMsg.leave_voice = closed.leaves w.hub w.user.id v
      handle-Lands (ClientMsg.update_voice_state muted deafened) =
          announced-Lands db env w (Hub.set_voice_flags w.hub w.user.id muted deafened)
            ServerMsg.voice_state ErrorCode.bad_request _
            (closed.flags w.hub w.user.id muted deafened v)
      handle-Lands (ClientMsg.speaking speaks) =
          tell_each-P (Hub.voice_peers w.hub w.user.id) w.hub (ServerMsg.speaking w.user.id speaks)
            refl v
      handle-Lands (ClientMsg.start_screen request) =
          option_Lands (check_screen_request request) _ _
            (announced-Lands db env w (Hub.start_screen w.hub w.user.id request)
              (ServerMsg.screen_start w.user.id) ErrorCode.bad_request _
              (closed.starts w.hub w.user.id request v))
            (λ message. sent _ refl)
      handle-Lands ClientMsg.stop_screen =
          stopped-Lands db env w (Hub.stop_screen w.hub w.user.id) (closed.stops w.hub w.user.id v)
      handle-Lands (ClientMsg.watch_screen target) =
          let kept = closed.watches w.hub w.user.id target v in
          if_Lands (Hub.watch w.hub w.user.id target).0 _ _ kept
            (closed.to_conn _ w.conn _ refl kept)
      handle-Lands (ClientMsg.unwatch_screen target) = closed.unwatches w.hub w.user.id target v
      handle-Lands (ClientMsg.screen_report target received lost want_keyframe) =
          if_Lands (Hub.is_watching w.hub w.user.id target) _ _
            (closed.to_user w.hub target _ refl v) v
      handle-Lands (ClientMsg.offer_file to offer) =
          let kept = closed.to_user w.hub to (ServerMsg.file_offer w.user.id offer) refl v in
          if_Lands (Hub.send_to_user w.hub to (ServerMsg.file_offer w.user.id offer)).0 _ _ kept
            (closed.to_conn _ w.conn _ refl kept)
      handle-Lands (ClientMsg.cancel_file_offer to code) = closed.to_user w.hub to _ refl v
