-- ===== src/Client/Recv/Watching.antt =====
-- What a watcher's counters come to, crates/boa-client/src/screen/recv.rs.
use boa_voice.Prelude.{ℕ, ◌+◌, ◌%◌, ◌^◌, ◌<◌, ◌≡◌, refl, Bool, true, false, List, [], ◌∷◌, arith}
use boa_voice.Client.Recv.{
  Watcher, Decoded, decoded, nothing_yet, refused, watcher_step, decode_step,
}

-- The rounds of `decode_loop` for one picture after another: whether it is a keyframe, and what the
-- decoder answers to it.
pub rounds : Watcher → List (Bool × Decoded) → Watcher
rounds w [] = w
rounds w ((keyframe, answer) ∷ rest) = rounds (watcher_step w keyframe answer) rest

-- How many pictures the decoder refuses: it is asked about those from a keyframe on, up to the first
-- one it refuses.
pub refusals : Bool → List (Bool × Decoded) → ℕ
refusals started [] = 0
refusals false ((false, answer) ∷ rest) = refusals false rest
refusals started ((keyframe, refused) ∷ rest) = refusals false rest + 1
refusals started ((keyframe, decoded) ∷ rest) = refusals true rest
refusals started ((keyframe, nothing_yet) ∷ rest) = refusals true rest

-- Whatever the decoder refuses is counted under `dropped`, and `failed` never moves.
pub rounds-failed :
    (w : Watcher) (pictures : List (Bool × Decoded))
    → w.dropped < 2 ^ 64
    → ((rounds w pictures).failed ≡ w.failed)
      × ((rounds w pictures).dropped ≡ (w.dropped + refusals w.decoding.started pictures) % 2 ^ 64)
unfolding rounds refusals watcher_step decode_step
rounds-failed w [] small = (refl, omega arith)
rounds-failed w ((keyframe, answer) ∷ rest) small = ground (
  arith,
  rounds-failed (watcher_step w keyframe answer) rest (step-small w keyframe answer small),
)
  where
    step-small :
        (w : Watcher) (keyframe : Bool) (answer : Decoded)
        → w.dropped < 2 ^ 64
        → (watcher_step w keyframe answer).dropped < 2 ^ 64
    step-small w keyframe answer small = unfold watcher_step decode_step in ground arith
