-- ===== src/Tests/Client.antt =====
-- The client at fixed inputs: crates/boa-client/src/screen/recv.rs, audio/ring.rs and audio/pipeline.rs.
use boa_voice.Prelude.{
  ℕ, ◌+◌, ◌%◌, ◌^◌, ◌≡◌, refl, true, false, none, some, ◌≢◌, ◌<◌, List, [], ◌∷◌, arith, length,
  replicate, ◌++◌, ◌-◌, ◌≤◌, min, take, drop,
}
use boa_voice.Proto.Media.{fragment, chunks, number_from}
use boa_voice.Client.Recv.{Reassembler, Watcher, decoded, refused}
use boa_voice.Client.Recv.AnyOrder.{arrive, pick, arrive-fragment}
use boa_voice.Client.Ring.{Ring, new, capacity, push, pop}
use boa_voice.Client.Ring.Fifo.{Valid, contents, push-contents, pop-contents}
use boa_voice.Client.Ring.Size.{new-contents}
use boa_voice.Client.Voice.{Shared, classify, play, SeqAction, position, slot_for}
use boa_voice.Client.Voice.Gaps.{classify-distance}
use boa_voice.Client.Voice.Slots.{slot_for-slot}
use boa_voice.Client.Recv.Watching.{rounds, refusals, rounds-failed}

-- Three fragments, that arrive last first.
abbrev frame : List ℕ
frame = replicate 3000 5

abbrev nothing : Reassembler
nothing = record { building = []; newest = none }

arrive-fragment_example :
    (r' : Reassembler) × (arrive nothing 90 (pick (fragment frame) (2 ∷ 0 ∷ 1 ∷ [])) 0
      ≡ (frame ∷ [], r', 0))
    × (r'.building ≡ [])
unfolding fragment chunks number_from
arrive-fragment_example =
    arrive-fragment frame nothing 90 0 (2 ∷ 0 ∷ 1 ∷ []) (omega arith) (omega arith) refl
      (ground arith) (omega arith)

abbrev watcher : Watcher
watcher = record {
  decoding = record { started = false; generation = 0; frames = 0; failed = 0; latest = none };
  dropped = 3;
  failed = 0;
}

rounds-failed_example :
    ((rounds watcher ((true, decoded) ∷ (false, refused) ∷ [])).failed ≡ 0)
    × ((rounds watcher ((true, decoded) ∷ (false, refused) ∷ [])).dropped
        ≡ (3 + refusals false ((true, decoded) ∷ (false, refused) ∷ [])) % 2 ^ 64)
rounds-failed_example =
    rounds-failed watcher ((true, decoded) ∷ (false, refused) ∷ []) (omega arith)

-- A ring of four cells, whose two samples go round the end.
abbrev round_the_end : Ring ℕ
round_the_end = record { cells = 21 ∷ 0 ∷ 0 ∷ 20 ∷ []; read = 3; write = 1; mask = 3 }

round_the_end-Valid : Valid round_the_end
round_the_end-Valid = record {
  size = refl;
  laps = 2 ^ 62;
  power = refl;
  read_in = omega arith;
  write_in = omega arith;
}

pop-contents_example :
    ((pop 0 round_the_end 1).0 ≡ take 1 (contents 0 round_the_end))
    × (contents 0 (pop 0 round_the_end 1).1 ≡ drop 1 (contents 0 round_the_end))
    × Valid (pop 0 round_the_end 1).1
pop-contents_example = pop-contents 0 round_the_end 1 round_the_end-Valid

push-contents_example :
    ((push 0 round_the_end (30 ∷ 31 ∷ [])).0
      ≡ min 2 (capacity 0 round_the_end - length (contents 0 round_the_end)))
    × (contents 0 (push 0 round_the_end (30 ∷ 31 ∷ [])).1
        ≡ contents 0 round_the_end ++ take (push 0 round_the_end (30 ∷ 31 ∷ [])).0 (30 ∷ 31 ∷ []))
    × Valid (push 0 round_the_end (30 ∷ 31 ∷ [])).1
push-contents_example = push-contents 0 round_the_end (30 ∷ 31 ∷ []) round_the_end-Valid

abbrev silence : ℕ
silence = 0

new-contents_example :
    Valid (new silence 100)
    × (contents silence (new silence 100) ≡ [])
    × (100 ≤ capacity silence (new silence 100) + 1)
    × (k : ℕ) × (capacity silence (new silence 100) + 1 ≡ 2 ^ k)
new-contents_example = new-contents silence 100 (omega arith)

-- The counter wraps: the expected number is the last one.
classify-distance_example :
    (2 ≤ 5 → classify (some 0xFFFFFFFF) ((0xFFFFFFFF + 2) % 2 ^ 32) ≡ play 2)
    × (5 < 2 → 2 < 2 ^ 31 → classify (some 0xFFFFFFFF) ((0xFFFFFFFF + 2) % 2 ^ 32) ≡ play 0)
    × (2 ^ 31 ≤ 2
        → 2 < 2 ^ 32
        → classify (some 0xFFFFFFFF) ((0xFFFFFFFF + 2) % 2 ^ 32) ≡ SeqAction.drop)
classify-distance_example = classify-distance 0xFFFFFFFF 2 (omega arith)

-- One slot with stream 5, one that is free.
abbrev heard : Shared ℕ
heard = record {
  speakers =
      record { ssrc = 5; user = 1; ring = round_the_end; primed = true }
      ∷ record { ssrc = 0; user = 2; ring = round_the_end; primed = true }
      ∷ [];
  owners = (7, 3) ∷ [];
}

slot_for-slot_example :
    (position 7 (slot_for silence heard 7).1.speakers ≡ (slot_for silence heard 7).0)
    × ((y : ℕ)
        → y ≢ 7
        → y ≢ 0
        → position y (slot_for silence heard 7).1.speakers ≡ position y heard.speakers)
    × ((slot_for silence heard 7).0 ≡ none → position 0 heard.speakers ≡ none)
slot_for-slot_example = slot_for-slot silence heard 7 (omega arith)
