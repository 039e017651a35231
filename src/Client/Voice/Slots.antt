-- ===== src/Client/Voice/Slots.antt =====
-- Whose slot is whose in crates/boa-client/src/audio/pipeline.rs: `slot_for` and `drop_speaker`.
use boa_voice.Prelude.{
  ℕ, suc, ◌≡◌, refl, ◌≢◌, true, false, Option, none, some, List, [], ◌∷◌, ◌==◌, arith,
  if◌then◌else◌, map, sym, ◌∙◌, ap, Bool-cases, Option-cases, inl, inr,
}
use boa_voice.Prelude.Map.{get}
use boa_voice.Client.Ring.{clear}
use boa_voice.Client.Voice.{
  Speaker, Shared, position, modify_at, claimed, slot_for, drop_speaker, one_on, owner_of,
}

some_none : {P : Type 0} → (i : ℕ) → some i ≡ none → P
some_none i e = absurd (grind arith)

same_some : (i j : ℕ) → some i ≡ some j → i ≡ j
same_some i j e = ground arith

one_on-some : (o : Option ℕ) (i : ℕ) → one_on o ≡ some i → (j : ℕ) × (o ≡ some j) × (i ≡ suc j)
one_on-some none i e = ground arith
one_on-some (some j) i e = (j, refl, ground arith)

one_on-none : (o : Option ℕ) → one_on o ≡ none → o ≡ none
one_on-none none e = refl
one_on-none (some j) e = ground arith

module _ {A : Type 0} where
  position-here :
      (x : ℕ) (s : Speaker A) (rest : List (Speaker A))
      → (s.ssrc == x) ≡ true
      → position x (s ∷ rest) ≡ some 0
  unfolding position
  position-here x s rest e = rw (e) refl

  position-later :
      (x : ℕ) (s : Speaker A) (rest : List (Speaker A))
      → (s.ssrc == x) ≡ false
      → position x (s ∷ rest) ≡ one_on (position x rest)
  unfolding position
  position-later x s rest e = rw (e) refl

  position-none :
      (x : ℕ) (s : Speaker A) (rest : List (Speaker A))
      → position x (s ∷ rest) ≡ none
      → ((s.ssrc == x) ≡ false) × (position x rest ≡ none)
  position-none x s rest e = elim (Bool-cases (s.ssrc == x)) [
    | inl h ↦ some_none 0 (sym (position-here x s rest h) ∙ e)
    | inr h ↦ (h, one_on-none (position x rest) (sym (position-later x s rest h) ∙ e))
  ]

module _ {A : Type 0} (silence : A) (x : ℕ) (here : x ≢ 0) where
  abbrev pub retired : Speaker A → Speaker A
  retired s = if s.ssrc == x then record s { ssrc = 0; ring = clear silence s.ring } else s

  retired_absent : (l : List (Speaker A)) → position x (map retired l) ≡ none
  unfolding position
  retired_absent [] = refl
  retired_absent (s ∷ rest) = elim (Bool-cases (s.ssrc == x)) [
    | inl e ↦ rw (e, retired_absent rest) (ground (arith, retired_absent rest))
    | inr e ↦ rw (e, retired_absent rest) (ground (arith, retired_absent rest))
  ]

  retired_other :
      (y : ℕ) → y ≢ x → y ≢ 0 → (l : List (Speaker A)) → position y (map retired l) ≡ position y l
  unfolding position
  retired_other y other there [] = refl
  retired_other y other there (s ∷ rest) = elim (Bool-cases (s.ssrc == x)) [
    | inl e ↦ ground (arith, retired_other y other there rest)
    | inr e ↦ ground (arith, retired_other y other there rest)
  ]

  claimed_there :
      (user i : ℕ) (l : List (Speaker A))
      → position x l ≡ none
      → position 0 l ≡ some i
      → position x (modify_at (claimed silence x user) i l) ≡ some i
  unfolding modify_at position
  claimed_there user i [] absent free = some_none i (sym free)
  claimed_there user i (s ∷ rest) absent free = elim (Bool-cases (s.ssrc == 0)) [
    | inl e ↦
        rw (sym (same_some 0 i (sym (position-here 0 s rest e) ∙ free)))
          (position-here x (claimed silence x user s) rest (ground arith))
    | inr e ↦
        let (j, found, next) =
          one_on-some (position 0 rest) i (sym (position-later 0 s rest e) ∙ free) in
        let (differs, absent') = position-none x s rest absent in
        rw next (
          position-later x s (modify_at (claimed silence x user) j rest) differs
          ∙ ap one_on (claimed_there user j rest absent' found))
  ]

  claimed_other :
      (user y i : ℕ) (l : List (Speaker A))
      → y ≢ x
      → y ≢ 0
      → position 0 l ≡ some i
      → position y (modify_at (claimed silence x user) i l) ≡ position y l
  unfolding modify_at position
  claimed_other user y i [] other there free = some_none i (sym free)
  claimed_other user y i (s ∷ rest) other there free = elim (Bool-cases (s.ssrc == 0)) [
    | inl e ↦ rw (sym (same_some 0 i (sym (position-here 0 s rest e) ∙ free))) (
        position-later y (claimed silence x user s) rest (ground arith)
        ∙ sym (position-later y s rest (ground arith)))
    | inr e ↦
        let (j, found, next) =
          one_on-some (position 0 rest) i (sym (position-later 0 s rest e) ∙ free) in
        rw (next, claimed_other user y j rest other there found) refl
  ]

-- The slot of a stream is the one that has its id. Asked for a stream, `slot_for` answers with a slot
-- that is that stream's afterwards, and leaves every other stream in its slot. It answers with none only where
-- no slot is free.
pub slot_for-slot :
    {A : Type 0}
    → (silence : A) (shared : Shared A) (x : ℕ) → x ≢ 0
    → (position x (slot_for silence shared x).1.speakers ≡ (slot_for silence shared x).0)
      × ((y : ℕ)
          → y ≢ x
          → y ≢ 0
          → position y (slot_for silence shared x).1.speakers ≡ position y shared.speakers)
      × ((slot_for silence shared x).0 ≡ none → position 0 shared.speakers ≡ none)
unfolding slot_for
slot_for-slot silence shared x here = elim (Option-cases (position x shared.speakers)) [
  | inl absent ↦ elim (Option-cases (position 0 shared.speakers)) [
    | inl full ↦ rw (absent, full, slot_for) (absent, λ y other there. refl, λ e. refl)
    | inr (i, free) ↦
        let user = owner_of (get x shared.owners) in
        rw (absent, free, slot_for)
          (
            claimed_there silence x here user i shared.speakers absent free,
            λ y other there. claimed_other silence x here user y i shared.speakers other there free,
            λ e. some_none i e,
          )
  ]
  | inr (i, found) ↦ rw (found, slot_for) (found, λ y other there. refl, λ e. some_none i e)
]

-- After `drop_speaker`, no slot is that stream's, and every other stream has the slot that it had.
pub drop_speaker-absent :
    {A : Type 0}
    → (silence : A) (shared : Shared A) (x : ℕ) → x ≢ 0
    → (position x (drop_speaker silence shared x).speakers ≡ none)
      × ((y : ℕ)
          → y ≢ x
          → y ≢ 0
          → position y (drop_speaker silence shared x).speakers ≡ position y shared.speakers)
unfolding drop_speaker
drop_speaker-absent silence shared x here = (
  retired_absent silence x here shared.speakers,
  λ y other there. retired_other silence x here y other there shared.speakers,
)
