-- ===== src/Tests/Shown.antt =====
-- What a client shows, crates/boa-client/src/state.rs, by itself and next to the hub.
use boa_voice.Prelude.{
  ℕ, ◌^◌, ◌<◌, ◌+◌, ◌≡◌, refl, sym, ap, ◌∙◌, ◌↔◌, inl, inr, false, ◌⊎◌, true, none, some, List, [],
  ◌∷◌, arith, ◌==◌, if◌then◌else◌, In, length,
}
use boa_voice.Prelude.Int.{pos}
use boa_voice.Prelude.Map.{get, insert, modify, any_value, remove, contains_key, map_values}
use boa_voice.Prelude.Text.{Text, text}
use boa_voice.Proto.Model.{Ident, User, Message, Channel, voice_kind}
use boa_voice.Proto.Control.{ClientMsg, ServerMsg}
use boa_voice.Server.Hub
use boa_voice.Server.Hub.{Conn}
use boa_voice.Server.Hub.Steps.{empty-Inv}
use boa_voice.Server.Session.{Db, World, go_on, handle, send_ready, join_voice, enter_voice}
use boa_voice.Client.State
use boa_voice.Client.State.{Instant, insert_all}
use boa_voice.Client.State.Log.{Agreeing, insert_all-same}
use boa_voice.Client.State.Frames.{Tidy, play, play-Tidy}
use boa_voice.System.Roster.Mirrors.{Mirrors}
use boa_voice.System.Roster.Run.{still, and_then, taken, opened, roster_follows}
use boa_voice.Server.Session.Serve.{take_frame, open_session, text_message}
use boa_voice.Tests.Session.{ana, env}

abbrev said : Ident → Message
said id = record {
  id = id;
  channel = 4;
  author = 1;
  content = text "hi";
  created_at = 5;
  edited_at = none;
  attachments = [];
  nonce = none;
}

new-Tidy : Tidy State.empty
unfolding get
new-Tidy channel = tt

-- A message and a page of history that has it again.
abbrev frames : List (ServerMsg × Instant)
frames =
    (ServerMsg.message_create (said 7), 10)
    ∷ (ServerMsg.history 4 (said 5 ∷ said 7 ∷ []) true, 11)
    ∷ []

play-Tidy_example : Tidy (play State.empty frames)
play-Tidy_example = play-Tidy State.empty frames new-Tidy

apart : ◌≡◌ {A = ℕ} 7 5 → ⊥
apart e = omega (arith, e)

two-Agreeing : Agreeing (said 7 ∷ said 5 ∷ [])
two-Agreeing a b (inl p) (inl q) e = p ∙ sym q
two-Agreeing a b (inl p) (inr (inl q)) e =
    absurd (apart (sym (ap (λ (m : Message). m.id) p) ∙ (e ∙ ap (λ (m : Message). m.id) q)))
two-Agreeing a b (inl p) (inr (inr k)) e = absurd k
two-Agreeing a b (inr (inl p)) (inl q) e =
    absurd (apart (sym (ap (λ (m : Message). m.id) q) ∙ (sym e ∙ ap (λ (m : Message). m.id) p)))
two-Agreeing a b (inr (inl p)) (inr (inl q)) e = p ∙ sym q
two-Agreeing a b (inr (inl p)) (inr (inr k)) e = absurd k
two-Agreeing a b (inr (inr k)) j e = absurd k

two-same : (m : Message) → In m (said 7 ∷ said 5 ∷ []) ↔ In m (said 5 ∷ said 7 ∷ said 5 ∷ [])
two-same m = (
  λ i. elim i [ inl e ↦ inr (inl e) | inr j ↦ elim j [ inl e ↦ inl e | inr k ↦ absurd k ] ],
  λ i. elim i [
    | inl e ↦ inr (inl e)
    | inr j ↦ elim j [ inl e ↦ inl e | inr k ↦ elim k [ inl e ↦ inr (inl e) | inr l ↦ absurd l ] ]
  ],
)

insert_all-same_example :
    insert_all (said 6 ∷ []) (said 7 ∷ said 5 ∷ [])
    ≡ insert_all (said 6 ∷ []) (said 5 ∷ said 7 ∷ said 5 ∷ [])
insert_all-same_example =
    insert_all-same (said 6 ∷ []) (said 7 ∷ said 5 ∷ []) (said 5 ∷ said 7 ∷ said 5 ∷ []) (tt, tt)
      two-Agreeing two-same

abbrev lounge : Channel
lounge = record { id = 9; name = text "Lounge"; kind = voice_kind; position = pos 0; topic = [] }

-- A database with one voice channel.
abbrev quiet : Db (Unit {0})
quiet = record {
  users = λ d. some (ana ∷ []);
  channels = λ d. some (lounge ∷ []);
  channel = λ d c. some (if c == 9 then some lounge else none);
  history = λ d c before limit. some ([], true);
  insert_message = λ d c author content nonce attachments. (none, d);
  edit_message = λ d id author content. (some none, d);
  delete_message = λ d id author. (some none, d);
  create_channel = λ d name kind. (some lounge, d);
  set_display_name = λ d user name. (some tt, d);
  user_for_token = λ d token. some none;
}

abbrev line : Conn
line = record { user = 1; tx = record { alive = true; queue = [] } }

abbrev bo : User
bo = record { id = 2; name = text "bo"; display_name = []; online = false }

-- Account 1 connects, asks to join the lounge, and then account 2 connects.
abbrev greeted : World (Unit {0})
greeted = open_session quiet env Hub.empty tt ana line.tx

abbrev reads_join : Text → ClientMsg ⊎ Text
reads_join t = inl (ClientMsg.join_voice 9)

abbrev in_lounge : World (Unit {0})
in_lounge = elim (take_frame quiet env reads_join greeted (text_message (text "join"))) [
  | none ↦ greeted
  | some r ↦ r.1
]

joins_lounge :
    take_frame quiet env reads_join greeted (text_message (text "join")) ≡ some (go_on, in_lounge)
unfolding take_frame open_session handle join_voice enter_voice Hub.join_voice Hub.take_ssrc
    Hub.remove_member Hub.admit send_ready Hub.connect Hub.send_to_conn Hub.broadcast_except get
    insert contains_key remove modify any_value
joins_lounge = refl

few_ids : length greeted.hub.by_ssrc + 2 < 2 ^ 32
unfolding open_session send_ready Hub.connect Hub.send_to_conn Hub.broadcast_except any_value
few_ids = omega arith

number_free : get in_lounge.hub.next_conn in_lounge.hub.conns ≡ none
unfolding take_frame open_session handle join_voice enter_voice Hub.join_voice Hub.take_ssrc
    Hub.remove_member Hub.admit send_ready Hub.connect Hub.send_to_conn Hub.broadcast_except get
    insert contains_key remove modify any_value Hub.broadcast map_values Hub.deliver_except
number_free = refl

roster_follows_example :
    Mirrors 1 0 State.empty (open_session quiet env in_lounge.hub tt bo line.tx).hub
roster_follows_example =
    roster_follows quiet 0 State.empty env Hub.empty tt ana line.tx (ana ∷ []) (lounge ∷ [])
      (open_session quiet env in_lounge.hub tt bo line.tx).hub empty-Inv refl refl refl
      (and_then
        (and_then (still greeted.hub) (
          taken env reads_join greeted in_lounge (text_message (text "join")) go_on few_ids
            joins_lounge))
        (opened env in_lounge.hub tt bo line.tx number_free))
