-- ===== src/Proto/Media/Fragments.antt =====
-- Cutting a frame into fragments, crates/boa-proto/src/media.rs.
use boa_voice.Prelude.{
  ℕ, zero, suc, ◌+◌, ◌^◌, ◌≤◌, ◌<◌, ◌≡◌, refl, some, List, [], ◌∷◌, ◌++◌, arith, length,
  length-take, length-drop, take, drop, take-append-drop, get_elem?, sym, ap, ◌∙◌, concat,
}
use mathlib.Core.Path.{ap₂}
use boa_voice.Prelude.Bytes.{from_be16-be16, be16-from_be16, AllBytes}
use boa_voice.Proto.Media.{
  chunks, number_from, fragment, write_fragment, read_fragment, max_video_chunk, div_ceil,
}

module _ (n : ℕ) (pos : 0 < n) where
  -- The chunks are the frame, cut.
  concat-chunks : (rounds : ℕ) (xs : List ℕ) → length xs ≤ rounds → concat (chunks rounds n xs) ≡ xs
  unfolding chunks
  concat-chunks zero [] h = refl
  concat-chunks zero (x ∷ xs) h = absurd (omega arith)
  concat-chunks (suc rounds) [] h = refl
  concat-chunks (suc rounds) (x ∷ xs) h =
      ap (λ t. take n (x ∷ xs) ++ t)
        (concat-chunks rounds (drop n (x ∷ xs)) (omega (arith, length-drop n (x ∷ xs))))
      ∙ take-append-drop n (x ∷ xs)

-- As many chunks as the frame's length divided by the chunk's, rounded up.
length-chunks :
    (rounds : ℕ) (xs : List ℕ)
    → length xs ≤ rounds
    → length (chunks rounds max_video_chunk xs) ≡ div_ceil (length xs) max_video_chunk
unfolding chunks
length-chunks zero [] h = omega arith
length-chunks zero (x ∷ xs) h = absurd (omega arith)
length-chunks (suc rounds) [] h = omega arith
length-chunks (suc rounds) (x ∷ xs) h = omega (
  arith,
  length-chunks rounds (drop max_video_chunk (x ∷ xs))
      (omega (arith, length-drop max_video_chunk (x ∷ xs))),
  length-drop max_video_chunk (x ∷ xs),
)

-- Every chunk fits a fragment.
abbrev pub AllFit : List (List ℕ) → Type 0
AllFit [] = Unit {0}
AllFit (c ∷ cs) = (0 < length c) × (length c ≤ max_video_chunk) × AllFit cs

chunks-AllFit : (rounds : ℕ) (xs : List ℕ) → AllFit (chunks rounds max_video_chunk xs)
unfolding chunks
chunks-AllFit zero xs = tt
chunks-AllFit (suc rounds) [] = tt
chunks-AllFit (suc rounds) (x ∷ xs) = (
  omega (arith, length-take max_video_chunk (x ∷ xs)),
  omega (arith, length-take max_video_chunk (x ∷ xs)),
  chunks-AllFit rounds (drop max_video_chunk (x ∷ xs)),
)

get_elem?-number_from :
    (cs : List (List ℕ)) (start count i : ℕ) (c : List ℕ)
    → count < 2 ^ 16
    → start + length cs ≤ count
    → get_elem? cs i ≡ some c
    → get_elem? (number_from start count cs) i ≡ some (start + i, count, c)
unfolding number_from
get_elem?-number_from [] start count i c small h e = cc
get_elem?-number_from (d ∷ cs) start count zero c small h e = ground arith
get_elem?-number_from (d ∷ cs) start count (suc i) c small h e =
    get_elem?-number_from cs (start + 1) count i c small (omega arith) e
    ∙ ap (λ k. some (k, count, c)) (omega arith)

length-number_from :
    (cs : List (List ℕ)) (start count : ℕ) → length (number_from start count cs) ≡ length cs
unfolding number_from
length-number_from [] start count = refl
length-number_from (c ∷ cs) start count = ap suc (length-number_from cs (start + 1) count)

-- What `fragment` promises of a frame of less than 2 ^ 16 chunks.
pub record Cuts (frame : List ℕ) (cs : List (List ℕ)) : Type 0 where
  pub whole : concat cs ≡ frame
  pub fit : AllFit cs
  pub count : length (fragment frame) ≡ length cs
  pub number : length cs ≡ div_ceil (length frame) max_video_chunk
  pub nth :
      (i : ℕ) (c : List ℕ)
      → get_elem? cs i ≡ some c
      → get_elem? (fragment frame) i ≡ some (i, length cs, c)

pub fragment-Cuts :
    (frame : List ℕ)
    → div_ceil (length frame) max_video_chunk < 2 ^ 16
    → (cs : List (List ℕ)) × Cuts frame cs
unfolding fragment
fragment-Cuts frame small = (
  chunks (length frame) max_video_chunk frame,
  record {
    whole = concat-chunks max_video_chunk (omega arith) (length frame) frame (omega arith);
    fit = chunks-AllFit (length frame) frame;
    count =
        length-number_from (chunks (length frame) max_video_chunk frame) 0
          (div_ceil (length frame) max_video_chunk);
    number = length-chunks (length frame) frame (omega arith);
    nth = λ i c e.
        get_elem?-number_from (chunks (length frame) max_video_chunk frame) 0
          (div_ceil (length frame) max_video_chunk) i c small
          (omega (arith, length-chunks (length frame) frame (omega arith))) e
        ∙ ap₂ (λ k n. some (k, n, c)) (omega arith)
            (sym (length-chunks (length frame) frame (omega arith)));
  },
)

-- A fragment that is numbered below its count comes back as it was written.
pub read_fragment-write_fragment :
    (index count : ℕ) (chunk : List ℕ)
    → index < count
    → read_fragment (write_fragment (index, count, chunk)) ≡ some (index, count, chunk)
unfolding read_fragment write_fragment
read_fragment-write_fragment index count chunk h =
    ground (arith, from_be16-be16 index, from_be16-be16 count)

-- Whatever `read_fragment` accepts names a place below its count, and writing it gives the payload.
pub read_fragment-some :
    (payload : List ℕ) (index count : ℕ) (chunk : List ℕ)
    → AllBytes payload
    → read_fragment payload ≡ some (index, count, chunk)
    → (index < count) × (write_fragment (index, count, chunk) ≡ payload)
unfolding read_fragment write_fragment
read_fragment-some [] index count chunk all e = absurd (ground arith)
read_fragment-some (a ∷ []) index count chunk all e = absurd (ground arith)
read_fragment-some (a ∷ b ∷ []) index count chunk all e = absurd (ground arith)
read_fragment-some (a ∷ b ∷ c ∷ []) index count chunk all e = absurd (ground arith)
read_fragment-some (a ∷ b ∷ c ∷ d ∷ rest) index count chunk all e =
    ground (arith, be16-from_be16 a b, be16-from_be16 c d)
