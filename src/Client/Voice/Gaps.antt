-- ===== src/Client/Voice/Gaps.antt =====
-- What `classify` of crates/boa-client/src/audio/pipeline.rs makes of sequence numbers.
use boa_voice.Prelude.{ℕ, ◌+◌, ◌%◌, ◌^◌, ◌≤◌, ◌<◌, ◌≡◌, some, arith}
use boa_voice.Client.Voice.{play, drop, classify}

-- Through the wrap of the counter: a packet that follows up to five lost ones is played after as many
-- concealed ones; one that follows more, fewer than 2^31, is played after none; and one of the 2^31 numbers before the
-- expected one is dropped.
pub classify-distance :
    (expected lost : ℕ)
    → expected < 2 ^ 32
    → (lost ≤ 5 → classify (some expected) ((expected + lost) % 2 ^ 32) ≡ play lost)
      × (5 < lost → lost < 2 ^ 31 → classify (some expected) ((expected + lost) % 2 ^ 32) ≡ play 0)
      × (2 ^ 31 ≤ lost
          → lost < 2 ^ 32
          → classify (some expected) ((expected + lost) % 2 ^ 32) ≡ drop)
unfolding classify
classify-distance expected lost small =
    (λ l. ground arith, λ l h. ground arith, λ l h. ground arith)
