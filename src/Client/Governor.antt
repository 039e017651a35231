-- ===== src/Client/Governor.antt =====
-- crates/boa-client/src/screen/governor.rs: the bitrate that watchers' reports leave. The two steps
-- in floating point are parameters: `back_off t` is `(t as f32 * BACK_OFF) as u32` and `creep t` is
-- `(t as f32 * CREEP) as u32`. Sums and products of `u32` wrap, as in a release build.
pub mod Bounds
use boa_voice.Prelude.{
  ℕ, ◌+◌, ◌-◌, ◌*◌, ◌/◌, ◌%◌, ◌^◌, Bool, true, false, ◌||◌, List, [], ◌∷◌, ltb, leb, if◌then◌else◌,
  min, max,
}

abbrev pub too_much : ℕ
too_much = 10

abbrev pub comfortable : ℕ
comfortable = 2

abbrev pub floor : ℕ
floor = 400

pub record Governor : Type 0 where
  pub ceiling : ℕ
  pub target : ℕ
  pub worst : ℕ
  pub keyframe_wanted : Bool

pub record Decision : Type 0 where
  pub kbps : ℕ
  pub changed : Bool
  pub keyframe : Bool

-- `Governor::new`
unfoldable pub new_governor : ℕ → Governor
new_governor ceiling = record {
  ceiling = max ceiling floor;
  target = max ceiling floor;
  worst = 0;
  keyframe_wanted = false;
}

-- `lost.saturating_mul(100) / total` in `u32`.
abbrev pub loss_of : ℕ → ℕ → ℕ
loss_of lost total = min (lost * 100) (2 ^ 32 - 1) / total

-- `Governor::report`
unfoldable pub report : Governor → ℕ → ℕ → Bool → Governor
report g received lost want_keyframe =
    let total = (received + lost) % 2 ^ 32 in
    record g {
      worst = (if leb 5 total then max g.worst (loss_of lost total) else g.worst);
      keyframe_wanted = g.keyframe_wanted || want_keyframe;
    }

-- `u32::abs_diff`
abbrev pub abs_diff : ℕ → ℕ → ℕ
abs_diff a b = (a - b) + (b - a)

module _ (back_off creep : ℕ → ℕ) where
  -- The target that `decide` moves to.
  unfoldable pub next_target : Governor → ℕ
  next_target g =
      if leb too_much g.worst
      then max (back_off g.target) floor
      else if leb g.worst comfortable
      then min ((g.target + creep g.target + 1) % 2 ^ 32) g.ceiling
      else g.target

  -- `Governor::decide`
  unfoldable pub decide : Governor → Decision × Governor
  unfolding next_target
  decide g =
      let target = next_target g in
      (
        record {
          kbps = target;
          changed = ltb g.target (abs_diff g.target target * 20 % 2 ^ 32);
          keyframe = g.keyframe_wanted;
        },
        record g { target = target; worst = 0; keyframe_wanted = false },
      )
