-- ===== src/Client/State/Frames.antt =====
-- What frames do to the client's state, crates/boa-client/src/state.rs.
use boa_voice.Prelude.{Bool, true, false, List, [], ◌∷◌, ◌++◌, ◌==◌, if◌then◌else◌, arith, not}
use boa_voice.Prelude.Map.{get, insert, get-insert}
use boa_voice.Prelude.Lists.{any}
use boa_voice.Proto.Model.{Ident}
use boa_voice.Prelude.Sorting.{sort_by}
use boa_voice.Proto.Control.{ServerMsg}
use boa_voice.Client.State.{State, ChannelLog, Instant, apply, log_of, or_default, sidebar_order}
use boa_voice.Client.State.Log.{
  Ascending, insert_into-Ascending, insert_all-Ascending, filter-Ascending,
}

-- Every channel's log is oldest first and unique by id.
abbrev pub Tidy : State → Type 0
Tidy s = (channel : Ident) → Ascending (log_of s channel).messages

-- One frame after another, each with the time it comes at.
unfoldable pub play : State → List (ServerMsg × Instant) → State
play s [] = s
play s ((msg, now) ∷ rest) = play (apply s msg now) rest

set_log-Tidy :
    (s : State) (channel : Ident) (log : ChannelLog)
    → Tidy s
    → Ascending log.messages
    → (c : Ident) → Ascending (or_default (get c (insert channel log s.logs))).messages
set_log-Tidy s channel log tidy h c = ground (arith, get-insert channel c log s.logs, tidy c)

pub apply-Tidy : (s : State) (msg : ServerMsg) (now : Instant) → Tidy s → Tidy (apply s msg now)
unfolding apply
apply-Tidy s (ServerMsg.ready user server users channels voice_states) now tidy = tidy
apply-Tidy s (ServerMsg.message_create message) now tidy =
    set_log-Tidy s message.channel _ tidy
      (insert_into-Ascending (log_of s message.channel).messages message (tidy message.channel))
apply-Tidy s (ServerMsg.message_update message) now tidy =
    set_log-Tidy s message.channel _ tidy
      (insert_into-Ascending (log_of s message.channel).messages message (tidy message.channel))
apply-Tidy s (ServerMsg.message_delete channel id) now tidy =
    set_log-Tidy s channel _ tidy
      (filter-Ascending (λ m. not (m.id == id)) (log_of s channel).messages (tidy channel))
apply-Tidy s (ServerMsg.history channel messages complete) now tidy =
    set_log-Tidy s channel _ tidy
      (insert_all-Ascending (log_of s channel).messages messages (tidy channel))
apply-Tidy s (ServerMsg.channel_create channel) now tidy =
    created (any (λ c. c.id == channel.id) s.channels)
  where
    created :
        (known : Bool)
        → Tidy (
            if known
            then s
            else record s { channels = sort_by sidebar_order (s.channels ++ (channel ∷ [])) })
    created true = tidy
    created false = tidy
apply-Tidy s _ now tidy = tidy

-- Whatever frames the server sends, in whatever order, every log stays oldest first and unique by id.
pub play-Tidy : (s : State) (frames : List (ServerMsg × Instant)) → Tidy s → Tidy (play s frames)
unfolding play
play-Tidy s [] tidy = tidy
play-Tidy s ((msg, now) ∷ rest) tidy = play-Tidy (apply s msg now) rest (apply-Tidy s msg now tidy)
