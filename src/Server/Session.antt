-- ===== src/Server/Session.antt =====
-- crates/boa-server/src/session.rs: one control connection. A handler runs from its message to its
-- end on the state of the hub, the database and the session. The database (crates/boa-server/src/db.rs,
-- SQL over SQLite) is the interface `Db`; serde_json, base64, the clock and fresh keys are arguments.
pub mod Requests
pub mod Induct
pub mod Keeps
pub mod Serve
pub mod Teardown
use boa_voice.Prelude.{
  ℕ, ◌-◌, ◌≤◌, Bool, true, false, not, ◌&&◌, ◌||◌, Option, none, some, List, [], ◌∷◌, ◌++◌, ◌==◌,
  ltb, leb, if◌then◌else◌, length, take, min, ◌⊎◌, inl, inr,
}
use boa_voice.Prelude.Text.{Text, text, is_empty, trim, trim_start, split_whitespace, join, decimal}
use boa_voice.Prelude.Map.{Map, get, insert}
use boa_voice.Proto.Model.{
  Ident, User, Channel, ChannelKind, text_kind, voice_kind, Message, ServerInfo,
}
use boa_voice.Proto.Control
use boa_voice.Proto.Control.{
  ScreenRequest, ClientMsg, ServerMsg, ErrorCode, unauthorised, version_mismatch, not_found,
  forbidden, bad_request, internal, error_msg, fatal_msg,
}
use boa_voice.Proto.Media.{SessionKey}
use boa_voice.Server.Hub
use boa_voice.Server.Hub.{State, Sender, Instant, Joined}

abbrev pub max_content : ℕ
max_content = 4000

abbrev pub max_attachments : ℕ
max_attachments = 10

abbrev pub typing_interval : ℕ
typing_interval = 3000

abbrev pub max_display_name : ℕ
max_display_name = 48

abbrev pub protocol_version : ℕ
protocol_version = 2

abbrev pub min_protocol_version : ℕ
min_protocol_version = 1

abbrev pub history_max : ℕ
history_max = 200

-- The methods of `Db` that a session calls; `none` on the outside is an error of the database.
pub record Db (D : Type 0) : Type 0 where
  pub users : D → Option (List User)
  pub channels : D → Option (List Channel)
  pub channel : D → Ident → Option (Option Channel)
  pub history : D → Ident → Option Ident → ℕ → Option (List Message × Bool)
  pub insert_message : D → Ident → Ident → Text → Option Text → List Ident → Option Message × D
  pub edit_message : D → Ident → Ident → Text → Option (Option Message) × D
  pub delete_message : D → Ident → Ident → Option (Option Ident) × D
  pub create_channel : D → Text → ChannelKind → Option Channel × D
  pub set_display_name : D → Ident → Text → Option (Unit {0}) × D
  pub user_for_token : D → Text → Option (Option User)

-- The hub, the database and this connection's `Session`.
pub record World (D : Type 0) : Type 0 where
  pub hub : State
  pub db : D
  pub conn : ℕ
  pub user : User
  pub last_typing : Map Instant

-- `ControlFlow<()>`
pub data Flow : Type 0 where
  go_on break : Flow

-- What a handler takes from outside: the clock, a random key, base64, the server's description.
pub record Env : Type 0 where
  pub now : Instant
  pub fresh : SessionKey
  pub base64 : List ℕ → Text
  pub server : ServerInfo

-- `normalise_channel_name`
unfoldable pub normalise_channel_name : Text → Text
unfolding trim trim_start split_whitespace join
normalise_channel_name name =
    take 48 (join (text "-") (split_whitespace (trim_start (λ c. c == b'#') (trim name))))

-- `check_screen_request`: `none` is `Ok(())`.
unfoldable pub check_screen_request : ScreenRequest → Option Text
check_screen_request r =
    if r.width == 0 || r.height == 0
    then some (text "a share needs a size")
    else if ltb 16384 r.width || ltb 16384 r.height
    then some (text "that is not a screen size")
    else if r.fps == 0 || ltb 240 r.fps
    then some (text "frame rate must be between 1 and 240")
    else if r.kbps == 0
    then some (text "bitrate must be greater than zero")
    else none

-- `hub.stop_screen` and `hub.leave_voice`, with what is announced.
unfoldable pub leave : State → Ident → State
leave hub user =
    let (stopped, h₁) = Hub.stop_screen hub user in
    let (left, h₂) = Hub.leave_voice h₁ user in
    elim left [
      | none ↦ h₂
      | some channel ↦
          Hub.broadcast
            (if Hub.is_some stopped then Hub.broadcast h₂ (ServerMsg.screen_stop user) else h₂)
            (ServerMsg.voice_leave user channel)
    ]

-- `for peer in hub.voice_peers(user)`
unfoldable pub tell_each : State → List Ident → ServerMsg → State
tell_each hub [] msg = hub
tell_each hub (peer ∷ rest) msg = tell_each (Hub.send_to_user hub peer msg).1 rest msg

module _ {D : Type 0} where
  -- `Session::send`
  abbrev pub send : World D → ServerMsg → World D
  send w msg = record w { hub = Hub.send_to_conn w.hub w.conn msg }

  -- `Session::fail`
  abbrev pub fail : World D → ErrorCode → Text → World D
  fail w code message = send w (error_msg code message)

  -- `Session::internal`
  abbrev pub internal_error : World D → World D
  internal_error w = fail w internal (text "the server could not do that")

  abbrev pub broadcast : World D → ServerMsg → World D
  broadcast w msg = record w { hub = Hub.broadcast w.hub msg }

  abbrev pub broadcast_except : World D → ServerMsg → World D
  broadcast_except w msg = record w { hub = Hub.broadcast_except w.hub w.conn msg }

  abbrev pub refused : World D → ErrorCode → Text → Option (Flow × World D)
  refused w code message = some (go_on, fail w code message)

  abbrev pub carry_on : World D → Option (Flow × World D)
  carry_on w = some (go_on, w)

module _ {D : Type 0} (db : Db D) (env : Env) where
  -- `Session::send_ready`
  unfoldable pub send_ready : World D → World D
  send_ready w = elim (db.users w.db) [
    | none ↦ internal_error w
    | some users ↦ elim (db.channels w.db) [
      | none ↦ internal_error w
      | some channels ↦ send w (
          ServerMsg.ready (record w.user { online = true }) env.server
            (Hub.decorate_presence w.hub users) channels (Hub.voice_states w.hub))
    ]
  ]

  -- `ClientMsg::SendMessage`, past the checks.
  unfoldable pub store_message : World D → Ident → Text → Option Text → List Ident → World D
  store_message w channel content nonce attachments =
      let (stored, d) = db.insert_message w.db channel w.user.id content nonce attachments in
      let w' = record w { db = d } in
      elim stored [
        | none ↦ internal_error w'
        | some message ↦
            send (broadcast_except w' (ServerMsg.message_create (record message { nonce = none })))
              (ServerMsg.message_create message)
      ]

  unfoldable pub send_message : World D → Ident → Text → Text → List Ident → Option (Flow × World D)
  unfolding store_message
  send_message w channel raw nonce attachments =
      let content = trim raw in
      if ltb max_content (length content)
      then refused w bad_request (text "messages are limited to 4000 characters")
      else if ltb max_attachments (length attachments)
      then refused w bad_request (text "at most 10 attachments")
      else if is_empty content && is_empty attachments
      then refused w bad_request (text "nothing to send")
      else elim (db.channel w.db channel) [
        | none ↦ carry_on (internal_error w)
        | some none ↦ refused w not_found (text "no such channel")
        | some (some c) ↦ carry_on (
            store_message w channel content (if is_empty nonce then none else some nonce)
              attachments)
      ]

  unfoldable pub edit_message : World D → Ident → Text → Option (Flow × World D)
  edit_message w id raw =
      let content = trim raw in
      if is_empty content || ltb max_content (length content)
      then refused w bad_request (text "an edit needs between 1 and 4000 characters")
      else (let (edited, d) = db.edit_message w.db id w.user.id content in
          let w' = record w { db = d } in
          elim edited [
            | none ↦ carry_on (internal_error w')
            | some none ↦ refused w' forbidden (text "that is not your message")
            | some (some message) ↦ carry_on (broadcast w' (ServerMsg.message_update message))
          ])

  unfoldable pub delete_message : World D → Ident → Option (Flow × World D)
  delete_message w id =
      let (deleted, d) = db.delete_message w.db id w.user.id in
      let w' = record w { db = d } in
      elim deleted [
        | none ↦ carry_on (internal_error w')
        | some none ↦ refused w' forbidden (text "that is not your message")
        | some (some channel) ↦ carry_on (broadcast w' (ServerMsg.message_delete channel id))
      ]

  -- Whether a typing notice is due: `is_none_or(|last| now.duration_since(*last) >= TYPING_INTERVAL)`.
  abbrev pub is_fresh : Option Instant → Bool
  is_fresh none = true
  is_fresh (some last) = leb typing_interval (env.now - last)

  unfoldable pub typing : World D → Ident → Option (Flow × World D)
  typing w channel =
      if is_fresh (get channel w.last_typing)
      then carry_on (
          broadcast_except (record w { last_typing = insert channel env.now w.last_typing })
            (ServerMsg.typing channel w.user.id))
      else carry_on w

  unfoldable pub create_channel : World D → Text → ChannelKind → Option (Flow × World D)
  create_channel w raw kind =
      let name = normalise_channel_name raw in
      if is_empty name
      then refused w bad_request (text "a channel needs a name")
      else (let (created, d) = db.create_channel w.db name kind in
          let w' = record w { db = d } in
          elim created [
            | none ↦ carry_on (internal_error w')
            | some channel ↦ carry_on (broadcast w' (ServerMsg.channel_create channel))
          ])

  unfoldable pub set_display_name : World D → Text → Option (Flow × World D)
  set_display_name w raw =
      let name = take max_display_name (trim raw) in
      let (done, d) = db.set_display_name w.db w.user.id name in
      elim done [
        | none ↦ carry_on (internal_error (record w { db = d }))
        | some _ ↦ carry_on (
            broadcast (record w { db = d; user = record w.user { display_name = name } })
              (ServerMsg.user_update (record w.user { display_name = name; online = true })))
      ]

  -- `ClientMsg::JoinVoice`, past the checks.
  unfoldable pub enter_voice : World D → Ident → Option (Flow × World D)
  enter_voice w channel = elim (Hub.join_voice w.hub w.user.id channel env.now env.fresh) [
    | none ↦ none
    | some (joined, hub) ↦
        let w₁ = record w {
          hub = elim joined.previous [
            | none ↦ hub
            | some previous ↦ Hub.broadcast hub (ServerMsg.voice_leave w.user.id previous)
          ];
        } in
        let w₂ = send w₁ (
          ServerMsg.voice_ready channel joined.state.ssrc (env.base64 joined.key.bytes)
            env.server.media_port) in
        carry_on (broadcast w₂ (ServerMsg.voice_state joined.state))
  ]

  abbrev pub is_voice : ChannelKind → Bool
  is_voice text_kind = false
  is_voice voice_kind = true

  unfoldable pub join_voice : World D → Ident → Option (Flow × World D)
  unfolding enter_voice
  join_voice w channel = elim (db.channel w.db channel) [
    | none ↦ carry_on (internal_error w)
    | some none ↦ refused w not_found (text "no such channel")
    | some (some c) ↦
        let entered = enter_voice w channel in
        if is_voice c.kind then entered else refused w bad_request (text "that is a text channel")
  ]

  -- `Session::handle`; `none` only where `Hub::join_voice` finds no stream id.
  unfoldable pub handle : World D → ClientMsg → Option (Flow × World D)
  handle w (ClientMsg.identify token version agent) =
      some (break, send w (fatal_msg unauthorised (text "already identified")))
  handle w (ClientMsg.ping nonce) = carry_on (send w (ServerMsg.pong nonce))
  handle w (ClientMsg.history channel before limit) =
      elim (db.history w.db channel before (min limit history_max)) [
        | none ↦ carry_on (internal_error w)
        | some (messages, complete) ↦
            carry_on (send w (ServerMsg.history channel messages complete))
      ]
  handle w (ClientMsg.send_message channel content nonce attachments) =
      send_message w channel content nonce attachments
  handle w (ClientMsg.edit_message id content) = edit_message w id content
  handle w (ClientMsg.delete_message id) = delete_message w id
  handle w (ClientMsg.typing channel) = typing w channel
  handle w (ClientMsg.create_channel name kind) = create_channel w name kind
  handle w (ClientMsg.set_display_name name) = set_display_name w name
  handle w (ClientMsg.join_voice channel) = join_voice w channel
  handle w ClientMsg.leave_voice = carry_on (record w { hub = leave w.hub w.user.id })
  handle w (ClientMsg.update_voice_state muted deafened) =
      let (state, hub) = Hub.set_voice_flags w.hub w.user.id muted deafened in
      let w' = record w { hub = hub } in
      elim state [
        | none ↦ refused w' bad_request (text "you are not in a voice channel")
        | some state ↦ carry_on (broadcast w' (ServerMsg.voice_state state))
      ]
  handle w (ClientMsg.speaking speaks) = carry_on (record w {
    hub = tell_each w.hub (Hub.voice_peers w.hub w.user.id) (ServerMsg.speaking w.user.id speaks);
  })
  handle w (ClientMsg.start_screen request) = elim (check_screen_request request) [
    | some message ↦ refused w bad_request message
    | none ↦
        let (share, hub) = Hub.start_screen w.hub w.user.id request in
        let w' = record w { hub = hub } in
        elim share [
          | none ↦ refused w' bad_request (text "join a voice channel first")
          | some share ↦ carry_on (broadcast w' (ServerMsg.screen_start w.user.id share))
        ]
  ]
  handle w ClientMsg.stop_screen =
      let (stopped, hub) = Hub.stop_screen w.hub w.user.id in
      let w' = record w { hub = hub } in
      if Hub.is_some stopped
      then carry_on (broadcast w' (ServerMsg.screen_stop w.user.id))
      else carry_on w'
  handle w (ClientMsg.watch_screen target) =
      let (watching, hub) = Hub.watch w.hub w.user.id target in
      let w' = record w { hub = hub } in
      if watching
      then carry_on w'
      else refused w' not_found (text "they are not in your voice channel")
  handle w (ClientMsg.unwatch_screen target) =
      carry_on (record w { hub = Hub.unwatch w.hub w.user.id target })
  handle w (ClientMsg.screen_report target received lost want_keyframe) =
      if Hub.is_watching w.hub w.user.id target
      then carry_on (record w {
        hub =
            (Hub.send_to_user w.hub target
              (ServerMsg.screen_report w.user.id received lost want_keyframe)).1;
      })
      else carry_on w
  handle w (ClientMsg.offer_file to offer) =
      let (delivered, hub) = Hub.send_to_user w.hub to (ServerMsg.file_offer w.user.id offer) in
      let w' = record w { hub = hub } in
      if delivered then carry_on w' else refused w' not_found (text "they are not online")
  handle w (ClientMsg.cancel_file_offer to code) = carry_on (record w {
    hub = (Hub.send_to_user w.hub to (ServerMsg.file_offer_cancelled w.user.id code)).1;
  })

-- `run`, the teardown after the loop over frames, on the hub.
unfoldable pub teardown : State → ℕ → User → State
unfolding leave
teardown hub conn user =
    let (last, h₁) = Hub.disconnect hub conn in
    if last
    then Hub.broadcast
        (if Hub.is_some (Hub.voice_channel_of h₁ user.id) then leave h₁ user.id else h₁)
        (ServerMsg.presence user.id false)
    else h₁

-- What `identify` may meet while it waits: a text frame, a ping or pong, its deadline, or anything
-- else (a close, an error, a binary frame, the end of the stream).
pub data Arrival : Type 0 where
  text_frame : Text → Arrival
  ping_pong : Arrival
  deadline : Arrival
  anything_else : Arrival

module _ {D : Type 0} (db : Db D) (parse : Text → ClientMsg ⊎ Text) where
  -- `identify` on a frame that parsed: the account, or what is sent before hanging up.
  unfoldable pub check_identity : D → ClientMsg → User ⊎ List ServerMsg
  check_identity d (ClientMsg.identify token version agent) =
      if not (leb min_protocol_version version && leb version protocol_version)
      then inr (
          fatal_msg version_mismatch
            (text "this server speaks protocol 1–2, the client speaks " ++ decimal version)
          ∷ [])
      else elim (db.user_for_token d token) [
        | none ↦ inr (fatal_msg internal (text "could not check that token") ∷ [])
        | some none ↦ inr (fatal_msg unauthorised (text "that token is not valid") ∷ [])
        | some (some user) ↦ inl user
      ]
  check_identity d _ = inr (fatal_msg unauthorised (text "identify first") ∷ [])

  -- `identify`
  unfoldable pub identify : D → List Arrival → User ⊎ List ServerMsg
  unfolding check_identity
  identify d [] = inr []
  identify d (text_frame t ∷ rest) = elim (parse t) [
    | inr message ↦ inr (fatal_msg bad_request message ∷ [])
    | inl msg ↦ check_identity d msg
  ]
  identify d (ping_pong ∷ rest) = identify d rest
  identify d (deadline ∷ rest) = inr []
  identify d (anything_else ∷ rest) = inr []
