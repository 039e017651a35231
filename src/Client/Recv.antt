-- ===== src/Client/Recv.antt =====
-- crates/boa-client/src/screen/recv.rs: fragments back into pictures, pictures to the decoder. The
-- H.264 decoder is not in the repository: `decode_step` takes its answer as an argument.
pub mod Pieces
pub mod Delivery
pub mod AnyOrder
pub mod Watching
use boa_voice.Prelude.{
  ℕ, zero, suc, ◌+◌, ◌-◌, ◌/◌, ◌%◌, ◌^◌, Bool, true, false, not, ◌&&◌, ◌||◌, Option, none, some,
  List, [], ◌∷◌, ◌++◌, ◌==◌, ltb, leb, if◌then◌else◌, length, get_or, set, drop, replicate, map,
}
use boa_voice.Prelude.Map.{Map, get, insert, remove}
use boa_voice.Prelude.Sorting.{sort_by}
use boa_voice.Proto.Media.{PacketHeader, read_fragment, is_video, is_video_key}

abbrev pub in_flight : ℕ
in_flight = 2

abbrev pub queue : ℕ
queue = 4

-- `u32::wrapping_sub`
abbrev pub wrapping_sub : ℕ → ℕ → ℕ
wrapping_sub a b = (a + 2 ^ 32 - b) % 2 ^ 32

-- `fetch_add` on an `AtomicU64`
abbrev pub add64 : ℕ → ℕ → ℕ
add64 a b = (a + b) % 2 ^ 64

-- One slot for each fragment, and how many are filled.
pub record Partial : Type 0 where
  pub pieces : List (Option (List ℕ))
  pub have : ℕ

pub record Reassembler : Type 0 where
  pub building : Map Partial
  pub newest : Option ℕ

abbrev pub new_partial : ℕ → Partial
new_partial count = record { pieces = replicate count none; have = 0 }

-- What `entry(timestamp).or_insert_with(…)` refers to.
abbrev pub entry : Option Partial → ℕ → Partial
entry none count = new_partial count
entry (some p) count = p

abbrev pub is_none {ℓ} : {A : Type ℓ} → Option A → Bool
is_none none = true
is_none (some a) = false

-- `if partial.pieces[index].is_none() { … }`. The index is below the count, which is the length.
unfoldable pub fill : Partial → ℕ → List ℕ → Partial
fill p index chunk =
    if is_none (get_or p.pieces index none)
    then record { pieces = set p.pieces index (some chunk); have = p.have + 1 }
    else p

-- `partial.pieces.into_iter().flatten()`, each piece appended.
unfoldable pub join_pieces : List (Option (List ℕ)) → List ℕ
join_pieces [] = []
join_pieces (none ∷ rest) = join_pieces rest
join_pieces (some piece ∷ rest) = piece ++ join_pieces rest

-- `self.newest.is_none_or(|newest| timestamp.wrapping_sub(newest) < u32::MAX / 2)`
abbrev pub is_newer : Option ℕ → ℕ → Bool
is_newer none timestamp = true
is_newer (some newest) timestamp = ltb (wrapping_sub timestamp newest) ((2 ^ 32 - 1) / 2)

abbrev pub keys : Map Partial → List ℕ
keys m = map (λ e. e.0) m

-- `for stale in timestamps.into_iter().skip(IN_FLIGHT)`
unfoldable pub abandon : List ℕ → Map Partial → ℕ → Map Partial × ℕ
abandon [] building dropped = (building, dropped)
abandon (stale ∷ rest) building dropped = abandon rest (remove stale building) (add64 dropped 1)

-- The order of `sort_by_key(|t| newest.wrapping_sub(*t))`.
abbrev pub nearer : ℕ → ℕ → ℕ → Bool
nearer newest s t = leb (wrapping_sub newest s) (wrapping_sub newest t)

-- `Reassembler::note_newest`
unfoldable pub note_newest : Reassembler → ℕ → ℕ → Reassembler × ℕ
unfolding abandon sort_by
note_newest r timestamp dropped =
    let newest = (if is_newer r.newest timestamp then some timestamp else r.newest) in
    elim newest [
      | none ↦ (record r { newest = none }, dropped)
      | some n ↦
          if ltb in_flight (length r.building)
          then (let (building, dropped') =
                abandon (drop in_flight (sort_by (nearer n) (keys r.building))) r.building
                  dropped in
              (record { building = building; newest = some n }, dropped'))
          else (record r { newest = some n }, dropped)
    ]

-- What a call of `Reassembler::feed` gives: the picture, the new state, and the drop counter.
pub record Fed : Type 0 where
  pub picture : Option (List ℕ)
  pub assembler : Reassembler
  pub dropped : ℕ

-- `self.building.remove(&header.timestamp)?` and the picture put together from it.
unfoldable pub finish : Reassembler → ℕ → ℕ → Fed
unfolding join_pieces
finish r timestamp dropped = elim (get timestamp r.building) [
  | none ↦ record { picture = none; assembler = r; dropped = dropped }
  | some p ↦ record {
    picture = some (join_pieces p.pieces);
    assembler = record r { building = remove timestamp r.building };
    dropped = dropped;
  }
]

-- `Reassembler::feed`, for a fragment that `read_fragment` accepted.
unfoldable pub take_fragment : Reassembler → ℕ → ℕ × ℕ × List ℕ → ℕ → Fed
unfolding fill finish
take_fragment r timestamp (index, count, chunk) dropped =
    let partial = entry (get timestamp r.building) count in
    let filled = fill partial index chunk in
    let (noted, dropped') =
      note_newest (record r { building = insert timestamp filled r.building }) timestamp dropped in
    let (single, dropped₁) = note_newest r timestamp dropped in
    if count == 1
    then record { picture = some chunk; assembler = single; dropped = dropped₁ }
    else if not (length partial.pieces == count)
    then record {
      picture = none;
      assembler = record r { building = remove timestamp (insert timestamp partial r.building) };
      dropped = add64 dropped 1;
    }
    else if filled.have == length filled.pieces
    then finish noted timestamp dropped'
    else record { picture = none; assembler = noted; dropped = dropped' }

-- `Reassembler::feed`
unfoldable pub feed : Reassembler → PacketHeader → List ℕ → ℕ → Fed
feed r header payload dropped = elim (read_fragment payload) [
  | none ↦ record { picture = none; assembler = r; dropped = dropped }
  | some f ↦ take_fragment r header.timestamp f dropped
]

-- `Loss`
pub record Loss : Type 0 where
  pub incomplete : ℕ
  pub no_room : ℕ
  pub fragments : ℕ
  pub keyframes_lost : ℕ

-- `Tap`, with what its channel holds: at most `depth` pictures, oldest first, while the decoder's
-- end is alive.
pub record Tap : Type 0 where
  pub pictures : List (Bool × List ℕ)
  pub depth : ℕ
  pub alive : Bool
  pub assembler : Reassembler
  pub ssrc : ℕ
  pub dropped : ℕ
  pub why : Loss

-- `Tap::feed` past the assembler: the reasons for what it abandoned.
abbrev pub note_abandoned : Loss → ℕ → Bool → Loss
note_abandoned why abandoned keyframe =
    if ltb 0 abandoned
    then record why {
      incomplete = add64 why.incomplete abandoned;
      keyframes_lost =
          (if keyframe then add64 why.keyframes_lost abandoned else why.keyframes_lost);
    }
    else why

-- `self.pictures.try_send((keyframe, picture))`, and the counters where it fails.
unfoldable pub offer : Tap → Bool → List ℕ → Tap
offer t keyframe picture =
    if t.alive && ltb (length t.pictures) t.depth
    then record t { pictures = t.pictures ++ ((keyframe, picture) ∷ []) }
    else record t {
      dropped = add64 t.dropped 1;
      why = record t.why {
        no_room = add64 t.why.no_room 1;
        keyframes_lost = (if keyframe then add64 t.why.keyframes_lost 1 else t.why.keyframes_lost);
      };
    }

-- `Tap::feed`
unfoldable pub tap_feed : Tap → PacketHeader → List ℕ → Tap
unfolding offer feed
tap_feed t header payload =
    if not (header.ssrc == t.ssrc) || not (is_video header.kind)
    then t
    else (let keyframe = is_video_key header.kind in
        let fed = feed t.assembler header payload t.dropped in
        let abandoned = (fed.dropped + 2 ^ 64 - t.dropped) % 2 ^ 64 in
        let counted = record t.why { fragments = add64 t.why.fragments 1 } in
        let t' = record t {
          assembler = fed.assembler;
          dropped = fed.dropped;
          why = note_abandoned counted abandoned keyframe;
        } in
        elim fed.picture [ none ↦ t' | some picture ↦ offer t' keyframe picture ])

-- What the decoder answers: a picture, nothing yet, or a refusal.
pub data Decoded : Type 0 where
  decoded nothing_yet refused : Decoded

-- What `decode_loop` keeps, `failed` being the counter that its caller hands it.
pub record Decoding : Type 0 where
  pub started : Bool
  pub generation : ℕ
  pub frames : ℕ
  pub failed : ℕ
  pub latest : Option ℕ

-- One round of `decode_loop`, for a picture taken from the queue. The latest picture is known by
-- its generation.
unfoldable pub decode_step : Decoding → Bool → Decoded → Decoding
decode_step d keyframe answer =
    if not d.started && not keyframe
    then d
    else (let d' = record d { started = true } in
        elim answer [
          | decoded ↦ record d' {
            generation = add64 d.generation 1;
            frames = add64 d.frames 1;
            latest = some (add64 d.generation 1);
          }
          | nothing_yet ↦ d'
          | refused ↦ record d' { failed = add64 d.failed 1; started = false }
        ])

-- `Watcher`: the counters that the interface reads.
pub record Watcher : Type 0 where
  pub decoding : Decoding
  pub dropped : ℕ
  pub failed : ℕ

-- `Watcher::feed` hands `dropped` to `decode_loop` where that expects `failed`: a round counts its
-- refusals there.
unfoldable pub watcher_step : Watcher → Bool → Decoded → Watcher
unfolding decode_step
watcher_step w keyframe answer =
    let d = decode_step (record w.decoding { failed = w.dropped }) keyframe answer in
    record w { decoding = d; dropped = d.failed }

-- `Watcher::take_frame`: the generation of the picture taken, and what is left.
unfoldable pub take_frame : Option ℕ → ℕ → Option ℕ × Option ℕ
take_frame none seen = (none, none)
take_frame (some generation) seen =
    if ltb seen generation then (some generation, none) else (none, some generation)
