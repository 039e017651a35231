-- ===== src/Prelude/Sets.antt =====
-- The standard library's `HashSet` of numbers, as a list.
use boa_voice.Prelude.{
  ℕ, ◌≡◌, Bool, false, ◌||◌, ◌&&◌, not, List, [], ◌∷◌, ◌==◌, if◌then◌else◌, arith,
}

unfoldable pub contains : List ℕ → ℕ → Bool
contains [] a = false
contains (x ∷ xs) a = x == a || contains xs a

unfoldable pub set_insert : ℕ → List ℕ → List ℕ
unfolding contains
set_insert a xs = if contains xs a then xs else a ∷ xs

unfoldable pub set_remove : ℕ → List ℕ → List ℕ
set_remove a [] = []
set_remove a (x ∷ xs) = let rest = set_remove a xs in if x == a then rest else x ∷ rest

pub contains-set_insert :
    (a b : ℕ) (xs : List ℕ) → contains (set_insert a xs) b ≡ (a == b || contains xs b)
unfolding set_insert
contains-set_insert a b [] = ground arith
contains-set_insert a b (x ∷ xs) = ground (arith, contains_same a b xs)
  where
    contains_same : (a b : ℕ) (xs : List ℕ) → a ≡ b → contains xs a ≡ contains xs b
    contains_same a b xs e = ground arith

pub contains-set_remove :
    (a b : ℕ) (xs : List ℕ) → contains (set_remove a xs) b ≡ (not (a == b) && contains xs b)
unfolding contains set_remove
contains-set_remove a b [] = ground arith
contains-set_remove a b (x ∷ xs) = ground (arith, contains-set_remove a b xs)
