-- ===== src/Server/Session/Requests.antt =====
-- What single requests are answered with, crates/boa-server/src/session.rs.
use boa_voice.Prelude.{
  ℕ, ◌≤◌, ◌<◌, ◌≡◌, refl, ◌≢◌, ◌↔◌, ◌⊎◌, inl, inr, Bool, true, false, ◌&&◌, Option, none, some,
  List, [], ◌∷◌, ltb, ◌==◌, if◌then◌else◌, arith, length, length-take, Bool-cases, ap, ◌∙◌,
}
use boa_voice.Prelude.Map.{get}
use boa_voice.Prelude.Text.{Text, text, is_empty, trim, trim_start, split_whitespace, join}
use boa_voice.Proto.Model.{Ident, User, Message, Channel}
use boa_voice.Proto.Control.{ClientMsg, ServerMsg, ErrorCode, ScreenRequest}
use boa_voice.Server.Hub
use boa_voice.Server.Hub.{State, Member, Conn, deliver}
use boa_voice.Server.Hub.Inv.{apply}
use boa_voice.Server.Hub.Join.{remove_member-absent}
use boa_voice.Server.Hub.Outbox.{get-broadcast_except, get-send_to_conn}
use boa_voice.Server.Session.{
  Db, World, Env, go_on, handle, leave, send_message, store_message, teardown, max_content,
  max_attachments, normalise_channel_name, check_screen_request,
}

-- A share request passes exactly when it has a size up to 16384 each way, 1 to 240 frames a second
-- and a bitrate; no bitrate is too high.
pub check_screen_request_iff :
    (r : ScreenRequest)
    → (check_screen_request r ≡ none) ↔ (
        (0 < r.width)
        × (r.width ≤ 16384)
        × (0 < r.height)
        × (r.height ≤ 16384)
        × (0 < r.fps)
        × (r.fps ≤ 240)
        × (0 < r.kbps))
unfolding check_screen_request
check_screen_request_iff r = (
  λ e. (
    ground arith,
    ground arith,
    ground arith,
    ground arith,
    ground arith,
    ground arith,
    ground arith,
  ),
  λ h. ground arith,
)

pub length-normalise_channel_name : (name : Text) → length (normalise_channel_name name) ≤ 48
unfolding normalise_channel_name
length-normalise_channel_name name = omega (
  arith,
  length-take 48 (join (text "-") (split_whitespace (trim_start (λ c. c == b'#') (trim name)))),
)

-- What `stop_screen` returns says only that the account is in a voice channel, not that a screen
-- was being shared.
pub stop_screen-voice_channel_of :
    (s : State) (user : Ident) → (Hub.stop_screen s user).0 ≡ Hub.voice_channel_of s user
unfolding Hub.stop_screen Hub.voice_channel_of
stop_screen-voice_channel_of s user = ground arith

module _ {D : Type 0} (db : Db D) (env : Env) (w : World D) where
  -- What the database is asked to store, and what each connection gets.
  store_message_parts :
      (channel : Ident) (content : Text) (nonce : Option Text) (attachments : List Ident)
      (m : Message)
      → (db.insert_message w.db channel w.user.id content nonce attachments).0 ≡ some m
      → (i : ℕ)
      → get i (store_message db env w channel content nonce attachments).hub.conns ≡ (
          if w.conn == i
          then apply (deliver (ServerMsg.message_create m)) (get i w.hub.conns)
          else apply
              (deliver (ServerMsg.message_create (record m { nonce = none })))
              (get i w.hub.conns))
  unfolding store_message
  store_message_parts channel content mark attachments m e i =
      rw (e, store_message)
        (ground (
          arith,
          get-send_to_conn
              (Hub.broadcast_except w.hub w.conn
                (ServerMsg.message_create (record m { nonce = none })))
              w.conn (ServerMsg.message_create m) i,
          get-broadcast_except w.hub w.conn (ServerMsg.message_create (record m { nonce = none }))
              i,
        ))

  -- A message that is too long, has too many attachments or has nothing in it is answered with an
  -- error to its sender; nothing is stored, and nobody else hears of it.
  pub send_message-refused :
      (channel : Ident) (raw tag : Text) (attachments : List Ident)
      → ((max_content < length (trim raw))
          ⊎ (max_attachments < length attachments)
          ⊎ ((trim raw ≡ []) × (attachments ≡ [])))
      → (why : Text) × (handle db env w (ClientMsg.send_message channel raw tag attachments)
          ≡ some (
            go_on,
            record w {
              hub = Hub.send_to_conn w.hub w.conn (ServerMsg.error ErrorCode.bad_request why false);
            },
          ))
  unfolding handle send_message
  send_message-refused channel raw tag attachments (inl long) =
      (text "messages are limited to 4000 characters", ground arith)
  send_message-refused channel raw tag attachments (inr (inl many)) =
      elim (Bool-cases (ltb max_content (length (trim raw)))) [
        | inl long ↦ (text "messages are limited to 4000 characters", ground arith)
        | inr short ↦ (text "at most 10 attachments", ground arith)
      ]
  send_message-refused channel raw tag attachments (inr (inr (nothing, none_attached))) =
      (text "nothing to send", rw (nothing, none_attached) refl)

  -- A message that passes the checks, in a channel that exists, goes to the database with the trimmed
  -- text. Its sender gets the message that the database answers; every other connection gets it without
  -- a nonce.
  pub send_message-stored :
      (channel : Ident) (raw tag : Text) (attachments : List Ident) (c : Channel) (m : Message)
      → length (trim raw) ≤ max_content
      → length attachments ≤ max_attachments
      → ((trim raw ≢ []) ⊎ (attachments ≢ []))
      → db.channel w.db channel ≡ some (some c)
      → (db.insert_message w.db channel w.user.id
          (trim raw)
          (if is_empty tag then none else some tag)
          attachments).0
        ≡ some m
      → (w' : World D) × (handle db env w (ClientMsg.send_message channel raw tag attachments)
          ≡ some (go_on, w'))
        × (w'.db
            ≡ (db.insert_message w.db channel w.user.id
                (trim raw)
                (if is_empty tag then none else some tag)
                attachments).1)
        × ((i : ℕ)
            → get i w'.hub.conns ≡ (
                if w.conn == i
                then apply (deliver (ServerMsg.message_create m)) (get i w.hub.conns)
                else apply
                    (deliver (ServerMsg.message_create (record m { nonce = none })))
                    (get i w.hub.conns)))
  unfolding handle send_message
  send_message-stored channel raw tag attachments c m short few some_thing here stored = (
    store_message db env w channel (trim raw) (if is_empty tag then none else some tag) attachments,
    rw (fits, counts, full, here) refl,
    stores channel (trim raw) (if is_empty tag then none else some tag) attachments,
    store_message_parts channel (trim raw) (if is_empty tag then none else some tag) attachments m
        stored,
  )
    where
      fits : ltb max_content (length (trim raw)) ≡ false
      fits = ground arith

      counts : ltb max_attachments (length attachments) ≡ false
      counts = ground arith

      not_empty : (xs ys : List ℕ) → ((xs ≢ []) ⊎ (ys ≢ [])) → (is_empty xs && is_empty ys) ≡ false
      not_empty [] [] (inl ne) = absurd (ne refl)
      not_empty [] [] (inr ne) = absurd (ne refl)
      not_empty [] (y ∷ ys) ne = refl
      not_empty (x ∷ xs) ys ne = refl

      full : (is_empty (trim raw) && is_empty attachments) ≡ false
      full = not_empty (trim raw) attachments some_thing

      stores :
          (channel : Ident) (content : Text) (mark : Option Text) (attachments : List Ident)
          → (store_message db env w channel content mark attachments).db
            ≡ (db.insert_message w.db channel w.user.id content mark attachments).1
      stores channel content mark attachments = unfold store_message in ground arith

voice_channel_of-absent :
    (s : State) (user : Ident) → get user s.members ≡ none → Hub.voice_channel_of s user ≡ none
unfolding Hub.voice_channel_of
voice_channel_of-absent s user e = rw e

voice_channel_of-none :
    (s : State) (user : Ident)
    → Hub.is_some (Hub.voice_channel_of s user) ≡ false
    → get user s.members ≡ none
unfolding Hub.voice_channel_of
voice_channel_of-none s user e = ground arith

members-broadcast : (s : State) (msg : ServerMsg) → (Hub.broadcast s msg).members ≡ s.members
unfolding Hub.broadcast
members-broadcast s msg = refl

leave-absent : (s : State) (user : Ident) → get user (leave s user).members ≡ none
unfolding leave Hub.broadcast
leave-absent s user =
    told (Hub.stop_screen s user).0 (Hub.leave_voice (Hub.stop_screen s user).1 user).0
      (remove_member-absent (Hub.stop_screen s user).1 user)
  where
    told :
        (stopped left : Option Ident)
        → get user (Hub.leave_voice (Hub.stop_screen s user).1 user).1.members ≡ none
        → get user
            (let r : State = elim left [
              | none ↦ (Hub.leave_voice (Hub.stop_screen s user).1 user).1
              | some channel ↦
                  Hub.broadcast
                    (if Hub.is_some stopped
                      then Hub.broadcast
                          (Hub.leave_voice (Hub.stop_screen s user).1 user).1
                          (ServerMsg.screen_stop user)
                      else (Hub.leave_voice (Hub.stop_screen s user).1 user).1)
                    (ServerMsg.voice_leave user channel)
            ] in
              r).members
          ≡ none
    told stopped none e = e
    told none (some channel) e = e
    told (some c) (some channel) e = e

-- Whoever's last connection closes is in no voice channel afterwards.
pub teardown-absent :
    (hub : State) (conn : ℕ) (user : User)
    → (Hub.disconnect hub conn).0 ≡ true
    → Hub.voice_channel_of (teardown hub conn user) user.id ≡ none
unfolding teardown
teardown-absent hub conn user last = rw last (
    voice_channel_of-absent _ user.id (
      ap (get user.id) (members-broadcast _ (ServerMsg.presence user.id false))
      ∙ out (Hub.disconnect hub conn).1
          (Hub.is_some (Hub.voice_channel_of (Hub.disconnect hub conn).1 user.id)) refl))
  where
    out :
        (s : State) (b : Bool)
        → Hub.is_some (Hub.voice_channel_of s user.id) ≡ b
        → get user.id (if b then leave s user.id else s).members ≡ none
    out s true e = leave-absent s user.id
    out s false e = voice_channel_of-none s user.id e
