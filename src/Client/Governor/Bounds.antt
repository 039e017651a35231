-- ===== src/Client/Governor/Bounds.antt =====
-- Where the bitrate can go, crates/boa-client/src/screen/governor.rs.
use boa_voice.Prelude.{ℕ, zero, suc, ◌+◌, ◌^◌, ◌≤◌, ◌<◌, ◌≡◌, refl, Bool, List, [], ◌∷◌, arith}
use boa_voice.Client.Governor.{Governor, report, decide, next_target, comfortable, floor}

-- The target is between the floor and what the user asked for.
pub record Within (g : Governor) : Type 0 where
  pub above : floor ≤ g.target
  pub below : g.target ≤ g.ceiling

-- What is done to a governor: a report comes in, or a second is over.
pub data Event : Type 0 where
  reported : (received lost : ℕ) (want_keyframe : Bool) → Event
  second : Event

-- Seconds in which nobody reports.
unfoldable pub quiet : ℕ → List Event
quiet zero = []
quiet (suc n) = second ∷ quiet n

module _ (back_off creep : ℕ → ℕ) where
  unfoldable pub after : Governor → List Event → Governor
  after g [] = g
  after g (reported received lost want_keyframe ∷ rest) =
      after (report g received lost want_keyframe) rest
  after g (second ∷ rest) = after (decide back_off creep g).1 rest

  decide-Within :
      (g : Governor)
      → ((t : ℕ) → back_off t ≤ t)
      → g.target + creep g.target + 1 < 2 ^ 32
      → Within g
      → Within (decide back_off creep g).1
  unfolding decide next_target
  decide-Within g less room v = record {
    above = ground (arith, v, less g.target);
    below = ground (arith, v, less g.target);
  }

  -- However watchers report, the target stays between the floor and the ceiling, and the ceiling is
  -- what was asked for, where backing off raises no rate and creeping up does not overflow.
  pub after-Within :
      (g : Governor) (events : List Event)
      → ((t : ℕ) → back_off t ≤ t)
      → ((t : ℕ) → t ≤ g.ceiling → t + creep t + 1 < 2 ^ 32)
      → Within g
      → Within (after g events) × ((after g events).ceiling ≡ g.ceiling)
  unfolding after report decide
  after-Within g [] less room v = (v, refl)
  after-Within g (reported received lost want_keyframe ∷ rest) less room v =
      after-Within (report g received lost want_keyframe) rest less room
        (record { above = v.above; below = v.below })
  after-Within g (second ∷ rest) less room v =
      after-Within (decide back_off creep g).1 rest less room
        (decide-Within g less (room g.target v.below) v)

  -- Where the target is within its bounds and no report above the comfortable loss is pending, it is back
  -- at the ceiling after as many seconds without reports as it lacks kilobits, and after any longer time,
  -- where creeping up does not overflow.
  pub after-quiet :
      (n : ℕ) (g : Governor)
      → ((t : ℕ) → t ≤ g.ceiling → t + creep t + 1 < 2 ^ 32)
      → g.worst ≤ comfortable
      → Within g
      → g.ceiling ≤ g.target + n
      → (after g (quiet n)).target ≡ g.ceiling
  unfolding after quiet decide next_target
  after-quiet zero g room calm v near = omega (arith, v.below)
  after-quiet (suc n) g room calm v near =
      after-quiet n (decide back_off creep g).1 room_after calm_after within_after near_after
    where
      room_after : (t : ℕ) → t ≤ (decide back_off creep g).1.ceiling → t + creep t + 1 < 2 ^ 32
      room_after = room

      calm_after : (decide back_off creep g).1.worst ≤ comfortable
      calm_after = omega arith

      within_after : Within (decide back_off creep g).1
      within_after = record {
        above = ground (arith, v, room g.target v.below);
        below = ground (arith, v, room g.target v.below);
      }

      near_after : (decide back_off creep g).1.ceiling ≤ (decide back_off creep g).1.target + n
      near_after = ground (arith, v, room g.target v.below)
