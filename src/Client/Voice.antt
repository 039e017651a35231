-- ===== src/Client/Voice.antt =====
-- The receiving half of crates/boa-client/src/audio/pipeline.rs: the slots of the speakers, the streams
-- they belong to, and what is made of a sequence number. Volumes are not modelled; an ssrc of 0 is a slot
-- that is free.
pub mod Gaps
pub mod Slots
use boa_voice.Prelude.{
  ℕ, zero, suc, ◌+◌, ◌-◌, ◌*◌, ◌/◌, ◌%◌, ◌^◌, Bool, true, false, Option, none, some, List, [], ◌∷◌,
  ◌==◌, ltb, leb, if◌then◌else◌, map, min, max, length,
}
use boa_voice.Prelude.Map.{Map, get, insert}
use boa_voice.Client.Ring.{Ring, new, clear}

abbrev pub max_speakers : ℕ
max_speakers = 16

abbrev pub max_conceal : ℕ
max_conceal = 5

-- `seq.wrapping_sub(expected)`, before it is read as signed.
abbrev pub ahead : ℕ → ℕ → ℕ
ahead seq expected = (seq + 2 ^ 32 - expected) % 2 ^ 32

pub data SeqAction : Type 0 where
  play : ℕ → SeqAction
  drop : SeqAction

-- `classify`: a distance from 2^31 on is negative as an i32.
unfoldable pub classify : Option ℕ → ℕ → SeqAction
classify none seq = play 0
classify (some expected) seq =
    if ahead seq expected == 0
    then play 0
    else if leb (2 ^ 31) (ahead seq expected)
    then drop
    else if leb (ahead seq expected) max_conceal
    then play (ahead seq expected)
    else play 0

-- `prime_samples`
abbrev pub prime_samples : ℕ → ℕ
prime_samples jitter_ms = 48000 * min 500 (max 20 jitter_ms) / 1000 * 2

pub record Speaker (A : Type 0) : Type 0 where
  pub ssrc : ℕ
  pub user : ℕ
  pub ring : Ring A
  pub primed : Bool

-- The speakers, and what the control plane has said of the streams.
pub record Shared (A : Type 0) : Type 0 where
  pub speakers : List (Speaker A)
  pub owners : Map ℕ

abbrev pub owner_of : Option ℕ → ℕ
owner_of none = 0
owner_of (some user) = user

-- The index of what was found in a tail.
abbrev pub one_on : Option ℕ → Option ℕ
one_on none = none
one_on (some i) = some (suc i)

module _ {A : Type 0} where
  -- The index of the first slot with an ssrc.
  unfoldable pub position : ℕ → List (Speaker A) → Option ℕ
  position ssrc [] = none
  position ssrc (s ∷ rest) =
      let later = position ssrc rest in if s.ssrc == ssrc then some 0 else one_on later

  unfoldable pub modify_at : ((Speaker A) → (Speaker A)) → ℕ → List (Speaker A) → List (Speaker A)
  modify_at f i [] = []
  modify_at f zero (s ∷ rest) = f s ∷ rest
  modify_at f (suc i) (s ∷ rest) = s ∷ modify_at f i rest

  -- `VoiceSession::attribute`
  unfoldable pub attribute : Shared A → ℕ → ℕ → Shared A
  attribute shared ssrc user = record {
    speakers = map (λ s. if s.ssrc == ssrc then record s { user = user } else s) shared.speakers;
    owners = insert ssrc user shared.owners;
  }

module _ {A : Type 0} (silence : A) where
  -- A slot that is claimed: its ring is cleared and it is not primed.
  abbrev pub claimed : ℕ → ℕ → (Speaker A) → (Speaker A)
  claimed ssrc user s = record {
    ssrc = ssrc;
    user = user;
    ring = clear silence s.ring;
    primed = false;
  }

  -- `Shared::slot_for`: the index of the slot.
  unfoldable pub slot_for : Shared A → ℕ → Option ℕ × Shared A
  unfolding position modify_at
  slot_for shared ssrc = elim (position ssrc shared.speakers) [
    | some i ↦ (some i, shared)
    | none ↦ elim (position 0 shared.speakers) [
      | none ↦ (none, shared)
      | some i ↦ (
        some i,
        record shared {
          speakers = modify_at (claimed ssrc (owner_of (get ssrc shared.owners))) i shared.speakers;
        },
      )
    ]
  ]

  -- `Shared::drop_speaker`
  unfoldable pub drop_speaker : Shared A → ℕ → Shared A
  drop_speaker shared ssrc = record shared {
    speakers =
        map (λ s. if s.ssrc == ssrc then record s { ssrc = 0; ring = clear silence s.ring } else s)
          shared.speakers;
  }
