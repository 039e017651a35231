-- ===== src/Tests/Session.antt =====
-- Requests of a connected account, crates/boa-server/src/session.rs.
use boa_voice.Prelude.{
  ◌≤◌, ◌≡◌, refl, ◌⊎◌, true, false, Option, none, some, List, [], ◌∷◌, arith, length, ◌==◌,
  if◌then◌else◌,
}
use boa_voice.Prelude.Int.{pos}
use boa_voice.Prelude.Map.{get}
use boa_voice.Prelude.Text.{Text, text, trim, is_whitespace}
use boa_voice.Proto.Model.{Ident, User, Message, Channel, text_kind}
use boa_voice.Proto.Control.{ClientMsg}
use boa_voice.Server.Hub
use boa_voice.Server.Hub.{State, deliver}
use boa_voice.Server.Hub.Inv.{Inv}
use boa_voice.Server.Session.{Db, World, Env, handle, teardown, max_content}
use boa_voice.Server.Session.Keeps.{Keeps, handle-Keeps}
use boa_voice.Server.Session.Teardown.{WentOffline, teardown-Ends}
use boa_voice.Server.Hub.Outbox.{disconnect-Inv}
use boa_voice.Tests.Media.{key7}
use boa_voice.Tests.Hub.{twice, twice-Inv, twice-room}

abbrev stored : Ident → Ident → Text → Option Text → Message
stored channel author content nonce = record {
  id = 1;
  channel = channel;
  author = author;
  content = content;
  created_at = 5;
  edited_at = none;
  attachments = [];
  nonce = nonce;
}

abbrev general : Channel
general = record { id = 4; name = text "general"; kind = text_kind; position = pos 0; topic = [] }

-- A database that keeps its messages in a list, with one channel.
abbrev in_memory : Db (List Message)
in_memory = record {
  users = λ d. some [];
  channels = λ d. some (general ∷ []);
  channel = λ d c. some (if c == 4 then some general else none);
  history = λ d c before limit. some (d, false);
  insert_message = λ d c author content nonce attachments.
      (some (stored c author content nonce), stored c author content nonce ∷ d);
  edit_message = λ d id author content. (some none, d);
  delete_message = λ d id author. (some none, d);
  create_channel = λ d name kind. (some general, d);
  set_display_name = λ d user name. (some tt, d);
  user_for_token = λ d token. some none;
}

abbrev pub ana : User
ana = record { id = 1; name = text "ana"; display_name = []; online = true }

abbrev pub env : Env
env = record {
  now = 1000;
  fresh = key7;
  base64 = λ bytes. bytes;
  server = record {
    name = text "boa";
    media_port = 7788;
    protocol_version = 2;
    attachment_ttl_secs = 0;
    max_upload_bytes = 0;
    wormhole_rendezvous = none;
    wormhole_transit = none;
  };
}

abbrev world : World (List Message)
world = record { hub = twice; db = []; conn = 1; user = ana; last_typing = [] }

handle-Keeps_example : Keeps (handle in_memory env world (ClientMsg.join_voice 4))
handle-Keeps_example =
    handle-Keeps in_memory env world twice-Inv twice-room (ClientMsg.join_voice 4)

-- The last of two connections.
abbrev on_one : State
on_one = (Hub.disconnect twice 2).1

teardown-Ends_example :
    Inv (teardown on_one 1 ana)
    × (get 1 (teardown on_one 1 ana).conns ≡ none)
    × ((((Hub.disconnect on_one 1).0 ≡ true) × WentOffline (teardown on_one 1 ana) ana)
        ⊎ (((Hub.disconnect on_one 1).0 ≡ false)
            × (teardown on_one 1 ana ≡ (Hub.disconnect on_one 1).1)))
teardown-Ends_example = teardown-Ends on_one 1 ana (disconnect-Inv twice 2 twice-Inv)

hi-trimmed : trim (text "hi") ≡ text "hi"
unfolding trim is_whitespace
hi-trimmed = refl

hi-short : length (trim (text "hi")) ≤ max_content
unfolding trim is_whitespace
hi-short = omega arith
