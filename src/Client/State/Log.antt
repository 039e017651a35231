-- ===== src/Client/State/Log.antt =====
-- A channel's messages, `insert_into` of crates/boa-client/src/state.rs.
use boa_voice.Prelude.{
  ℕ, ◌≤◌, ◌<◌, ◌≡◌, refl, ◌≢◌, ◌⊎◌, inl, inr, Bool, Option, none, some, List, [], ◌∷◌, ◌==◌,
  if◌then◌else◌, arith, sym, ap, ◌∙◌, subst, not, In, ◌↔◌, Bool-cases,
}
use mathlib.Core.Path.{ap₂}
use boa_voice.Prelude.Lists.{filter}
use boa_voice.Proto.Model.{Ident, Message}
use boa_voice.Client.State.{insert_into, insert_all}

abbrev pub AllAbove : Ident → List Message → Type 0
AllAbove id [] = Unit {0}
AllAbove id (m ∷ rest) = (id < m.id) × AllAbove id rest

-- Oldest first, unique by id.
abbrev pub Ascending : List Message → Type 0
Ascending [] = Unit {0}
Ascending (m ∷ rest) = AllAbove m.id rest × Ascending rest

-- What a log shows under an id.
unfoldable pub shown : Ident → List Message → Option Message
shown id [] = none
shown id (m ∷ rest) = if m.id == id then some m else shown id rest

AllAbove-le : (a b : Ident) (xs : List Message) → a ≤ b → AllAbove b xs → AllAbove a xs
AllAbove-le a b [] le h = tt
AllAbove-le a b (m ∷ rest) le h = (omega (arith, h.0), AllAbove-le a b rest le h.1)

insert_into-AllAbove :
    (id : Ident) (xs : List Message) (m : Message)
    → id < m.id
    → AllAbove id xs
    → AllAbove id (insert_into xs m)
unfolding insert_into
insert_into-AllAbove id [] m lt h = (lt, tt)
insert_into-AllAbove id (x ∷ rest) m lt h = ground (arith, insert_into-AllAbove id rest m lt h.1)

pub insert_into-Ascending :
    (xs : List Message) (m : Message) → Ascending xs → Ascending (insert_into xs m)
unfolding insert_into
insert_into-Ascending [] m h = (tt, tt)
insert_into-Ascending (x ∷ rest) m h = ground (
  arith,
  insert_into-Ascending rest m h.1,
  insert_into-AllAbove x.id rest m,
  AllAbove-le m.id x.id rest,
)

pub insert_all-Ascending : (xs ms : List Message) → Ascending xs → Ascending (insert_all xs ms)
unfolding insert_all
insert_all-Ascending xs [] h = h
insert_all-Ascending xs (m ∷ ms) h =
    insert_all-Ascending (insert_into xs m) ms (insert_into-Ascending xs m h)

filter-AllAbove :
    (p : Message → Bool) (id : Ident) (xs : List Message)
    → AllAbove id xs
    → AllAbove id (filter p xs)
unfolding filter
filter-AllAbove p id [] h = tt
filter-AllAbove p id (x ∷ rest) h = ground (arith, filter-AllAbove p id rest h.1)

pub filter-Ascending :
    (p : Message → Bool) (xs : List Message) → Ascending xs → Ascending (filter p xs)
unfolding filter
filter-Ascending p [] h = tt
filter-Ascending p (x ∷ rest) h =
    ground (arith, filter-Ascending p rest h.1, filter-AllAbove p x.id rest h.0)

shown-AllAbove : (id a : Ident) (xs : List Message) → id ≤ a → AllAbove a xs → shown id xs ≡ none
unfolding shown
shown-AllAbove id a [] le h = refl
shown-AllAbove id a (x ∷ rest) le h = ground (arith, shown-AllAbove id a rest le h.1)

-- A message put into a log is shown under its id, and what is shown under the others is unchanged.
pub shown-insert_into :
    (xs : List Message) (m : Message) (id : Ident)
    → Ascending xs
    → shown id (insert_into xs m) ≡ (if m.id == id then some m else shown id xs)
unfolding shown insert_into
shown-insert_into [] m id h = refl
shown-insert_into (x ∷ rest) m id h = ground (arith, shown-insert_into rest m id h.1)

shown-filter :
    (xs : List Message) (gone id : Ident)
    → shown id (filter (λ m. not (m.id == gone)) xs) ≡ (if gone == id then none else shown id xs)
unfolding shown filter
shown-filter [] gone id = ground arith
shown-filter (x ∷ rest) gone id = ground (arith, shown-filter rest gone id)

-- Two ascending logs that show the same are equal.
pub shown_ext :
    (xs ys : List Message)
    → Ascending xs
    → Ascending ys
    → ((id : Ident) → shown id xs ≡ shown id ys)
    → xs ≡ ys
unfolding shown
shown_ext [] [] h k same = refl
shown_ext [] (y ∷ ys) h k same = absurd (ground (arith, same y.id))
shown_ext (x ∷ xs) [] h k same = absurd (ground (arith, same x.id))
shown_ext (x ∷ xs) (y ∷ ys) h k same =
    ap₂ (λ m rest. m ∷ rest) heads (shown_ext xs ys h.1 k.1 (λ id. tails id (le_or_lt id x.id)))
  where
    le_or_lt : (a b : ℕ) → (a ≤ b) ⊎ (b < a)
    le_or_lt a b = ground arith

    heads : x ≡ y
    heads =
        ground
          (arith, same x.id, same y.id, shown-AllAbove x.id y.id ys, shown-AllAbove y.id x.id xs)

    tails : (id : Ident) → (id ≤ x.id) ⊎ (x.id < id) → shown id xs ≡ shown id ys
    tails id (inl le) =
        shown-AllAbove id x.id xs le h.0
        ∙ sym (shown-AllAbove id y.id ys (omega (arith, ap (λ (m : Message). m.id) heads)) k.0)
    tails id (inr lt) = ground (arith, same id, ap (λ (m : Message). m.id) heads)

-- Copies of one message are equal.
abbrev pub Agreeing : List Message → Type 0
Agreeing ms = (a b : Message) → In a ms → In b ms → a.id ≡ b.id → a ≡ b

-- Whether a list has a message with this id.
with_id :
    (id : Ident) (ms : List Message)
    → ((m : Message) × In m ms × (m.id ≡ id)) ⊎ ((m : Message) → In m ms → m.id ≢ id)
with_id id [] = inr (λ m i. absurd i)
with_id id (x ∷ rest) = elim (Bool-cases (x.id == id)) [
  | inl here ↦ inl (x, inl refl, ground arith)
  | inr not_here ↦ elim (with_id id rest) [
    | inl (m, i, e) ↦ inl (m, inr i, e)
    | inr none_later ↦ inr (λ m i. elim i [
      | inl e ↦ λ q. absurd (ground (arith, ap (λ (n : Message). n.id) e))
      | inr later ↦ none_later m later
    ])
  ]
]

shown-insert_all-miss :
    (log ms : List Message) (id : Ident)
    → Ascending log
    → ((m : Message) → In m ms → m.id ≢ id)
    → shown id (insert_all log ms) ≡ shown id log
unfolding insert_all
shown-insert_all-miss log [] id h other = refl
shown-insert_all-miss log (x ∷ rest) id h other =
    shown-insert_all-miss (insert_into log x) rest id (insert_into-Ascending log x h)
      (λ m i. other m (inr i))
    ∙ ground (arith, shown-insert_into log x id h, other x (inl refl))

shown-insert_all-hit :
    (log ms : List Message) (m : Message)
    → Ascending log
    → Agreeing ms
    → In m ms
    → shown m.id (insert_all log ms) ≡ some m
unfolding insert_all
shown-insert_all-hit log [] m h agree i = absurd i
shown-insert_all-hit log (x ∷ rest) m h agree i = elim (with_id m.id rest) [
  | inl (n, j, e) ↦
      let same : n ≡ m = agree n m (inr j) i e in
      shown-insert_all-hit (insert_into log x) rest m (insert_into-Ascending log x h)
        (λ a b p q. agree a b (inr p) (inr q)) (subst (λ a. In a rest) same j)
  | inr none_later ↦ elim i [
    | inl e ↦
        shown-insert_all-miss (insert_into log x) rest m.id (insert_into-Ascending log x h)
          none_later
        ∙ (ground (arith, shown-insert_into log x m.id h, e))
    | inr later ↦ absurd (none_later m later refl)
  ]
]

-- An ascending log that takes in messages depends on which messages they are alone: not on their
-- order, nor on how often each comes, where copies of one message are equal.
pub insert_all-same :
    (log xs ys : List Message)
    → Ascending log
    → Agreeing xs
    → ((m : Message) → In m xs ↔ In m ys)
    → insert_all log xs ≡ insert_all log ys
insert_all-same log xs ys h agree same =
    shown_ext (insert_all log xs) (insert_all log ys) (insert_all-Ascending log xs h)
      (insert_all-Ascending log ys h)
      (λ id. elim (with_id id xs) [
        | inl (m, i, e) ↦
            subst (λ k. shown k (insert_all log xs) ≡ shown k (insert_all log ys)) e
              (shown-insert_all-hit log xs m h agree i
                ∙ sym (
                    shown-insert_all-hit log ys m h
                      (λ a b p q. agree a b ((same a).1 p) ((same b).1 q)) ((same m).0 i)))
        | inr absent ↦
            shown-insert_all-miss log xs id h absent
            ∙ sym (shown-insert_all-miss log ys id h (λ m i. absent m ((same m).1 i)))
      ])
