-- ===== src/Tests/Governor.antt =====
-- A share on a bad link, crates/boa-client/src/screen/governor.rs.
use boa_voice.Prelude.{ℕ, ◌*◌, ◌/◌, ◌≡◌, refl, true, false, List, [], ◌∷◌, arith}
use boa_voice.Client.Governor.{Governor, decide, report, next_target}
use boa_voice.Client.Governor.Bounds.{
  Within, Event, reported, second, after, after-Within, quiet, after-quiet,
}

-- Seven tenths and a twentieth, rounded down.
abbrev seven_tenths : ℕ → ℕ
seven_tenths t = t * 7 / 10

abbrev twentieth : ℕ → ℕ
twentieth t = t / 20

abbrev fast : Governor
fast = record { ceiling = 16000; target = 16000; worst = 0; keyframe_wanted = false }

abbrev slowed : Governor
slowed = record { ceiling = 16000; target = 7840; worst = 0; keyframe_wanted = false }

abbrev losing : List Event
losing = reported 40 20 true ∷ second ∷ reported 50 10 false ∷ second ∷ []

losing-slowed : after seven_tenths twentieth fast losing ≡ slowed
unfolding after decide report next_target
losing-slowed = refl

after-Within_example :
    Within (after seven_tenths twentieth fast losing)
    × ((after seven_tenths twentieth fast losing).ceiling ≡ 16000)
after-Within_example =
    after-Within seven_tenths twentieth fast losing (λ t. omega arith) (λ t h. omega arith)
      (record { above = omega arith; below = omega arith })

after-quiet_example : (after seven_tenths twentieth slowed (quiet 9000)).target ≡ 16000
after-quiet_example =
    after-quiet seven_tenths twentieth 9000 slowed (λ t h. omega arith) (omega arith)
      (record { above = omega arith; below = omega arith }) (omega arith)
