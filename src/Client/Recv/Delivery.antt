-- ===== src/Client/Recv/Delivery.antt =====
-- A picture whose fragments all arrive is put together whole, in whatever order they come,
-- crates/boa-client/src/screen/recv.rs.
use boa_voice.Prelude.{
  ℕ, ◌≤◌, ◌<◌, ◌≡◌, refl, true, false, none, some, List, [], ◌∷◌, ◌==◌, arith, length, get_elem?,
  sym, ◌∙◌, concat,
}
use boa_voice.Prelude.Map.{get, insert, remove}
use boa_voice.Client.Recv.{
  Partial, Reassembler, new_partial, entry, fill, note_newest, take_fragment, in_flight,
}
use boa_voice.Client.Recv.Pieces.{
  IsPartOf, new_partial-IsPartOf, fill-IsPartOf, join_pieces-full, length-Fits,
}

-- With no more than two pictures building, none is abandoned.
pub note_newest-few :
    (r : Reassembler) (timestamp dropped : ℕ)
    → length r.building ≤ in_flight
    → ((note_newest r timestamp dropped).0.building ≡ r.building)
      × ((note_newest r timestamp dropped).1 ≡ dropped)
unfolding note_newest
note_newest-few r timestamp dropped few = ground arith

-- The only picture building is one of the frame, or none is.
pub data Alone (timestamp : ℕ) (cs : List (List ℕ)) (r : Reassembler) : Partial → Type 0 where
  fresh : r.building ≡ [] → Alone timestamp cs r (new_partial (length cs))
  begun : (p : Partial) → r.building ≡ (timestamp, p) ∷ [] → IsPartOf p cs → Alone timestamp cs r p

Alone-IsPartOf :
    {timestamp : ℕ} {cs : List (List ℕ)} {r : Reassembler} {p : Partial}
    → Alone timestamp cs r p
    → IsPartOf p cs
Alone-IsPartOf {cs = cs} (fresh e) = new_partial-IsPartOf cs
Alone-IsPartOf (begun p e v) = v

Alone-entry :
    {timestamp : ℕ} {cs : List (List ℕ)} {r : Reassembler} {p : Partial}
    → Alone timestamp cs r p
    → entry (get timestamp r.building) (length cs) ≡ p
unfolding get
Alone-entry (fresh e) = rw e
Alone-entry {timestamp} {cs} {r} (begun p e v) = rw e (ground arith)

Alone-insert :
    {timestamp : ℕ} {cs : List (List ℕ)} {r : Reassembler} {p : Partial}
    → Alone timestamp cs r p
    → (q : Partial) → insert timestamp q r.building ≡ (timestamp, q) ∷ []
unfolding insert
Alone-insert (fresh e) q = rw e
Alone-insert (begun p e v) q = rw e (ground arith)

-- One fragment of the frame, and the picture is not complete yet.
pub feed_more :
    (r : Reassembler) (timestamp : ℕ) (cs : List (List ℕ)) (p : Partial) (i : ℕ) (c : List ℕ)
    (dropped : ℕ)
    → Alone timestamp cs r p
    → get_elem? cs i ≡ some c
    → 1 < length cs
    → (fill p i c).have < length cs
    → (r' : Reassembler) × (take_fragment r timestamp (i, length cs, c) dropped
        ≡ record { picture = none; assembler = r'; dropped = dropped })
      × Alone timestamp cs r' (fill p i c)
unfolding take_fragment
feed_more r timestamp cs p i c dropped a e many short =
    let v = fill-IsPartOf p cs i c (Alone-IsPartOf a) e in
    let noted =
      note_newest-few (record r { building = (timestamp, fill p i c) ∷ [] }) timestamp dropped
        (omega arith) in
    (
      (note_newest (record r { building = (timestamp, fill p i c) ∷ [] }) timestamp dropped).0,
      rw (Alone-entry a, Alone-insert a (fill p i c), several, sized, open_still v)
          (ground (arith, noted)),
      begun (fill p i c) noted.0 v,
    )
  where
    several : (length cs == 1) ≡ false
    several = ground arith

    sized : (length p.pieces == length cs) ≡ true
    sized = ground (arith, length-Fits p.pieces cs (Alone-IsPartOf a).fits)

    open_still :
        IsPartOf (fill p i c) cs → ((fill p i c).have == length (fill p i c).pieces) ≡ false
    open_still v = ground (arith, length-Fits (fill p i c).pieces cs v.fits)

-- The last fragment of the frame: the picture is the frame, and nothing is left behind.
pub feed_last :
    (r : Reassembler) (timestamp : ℕ) (cs : List (List ℕ)) (p : Partial) (i : ℕ) (c : List ℕ)
    (dropped : ℕ)
    → Alone timestamp cs r p
    → get_elem? cs i ≡ some c
    → 1 < length cs
    → (fill p i c).have ≡ length cs
    → (r' : Reassembler) × (take_fragment r timestamp (i, length cs, c) dropped
        ≡ record { picture = some (concat cs); assembler = r'; dropped = dropped })
      × (r'.building ≡ [])
unfolding take_fragment get remove
feed_last r timestamp cs p i c dropped a e many full =
    let v = fill-IsPartOf p cs i c (Alone-IsPartOf a) e in
    let noted =
      note_newest-few (record r { building = (timestamp, fill p i c) ∷ [] }) timestamp dropped
        (omega arith) in
    let whole =
      join_pieces-full (fill p i c).pieces cs v.fits
        (sym v.counted ∙ (full ∙ sym (length-Fits (fill p i c).pieces cs v.fits))) in
    (
      record (note_newest (record r { building = (timestamp, fill p i c) ∷ [] }) timestamp
          dropped).0 { building = [] },
      rw (Alone-entry a, Alone-insert a (fill p i c), several, sized, complete v)
          (ground (arith, noted, whole)),
      refl,
    )
  where
    several : (length cs == 1) ≡ false
    several = ground arith

    sized : (length p.pieces == length cs) ≡ true
    sized = ground (arith, length-Fits p.pieces cs (Alone-IsPartOf a).fits)

    complete : IsPartOf (fill p i c) cs → ((fill p i c).have == length (fill p i c).pieces) ≡ true
    complete v = ground (arith, length-Fits (fill p i c).pieces cs v.fits)
