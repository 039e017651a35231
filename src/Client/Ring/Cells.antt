-- ===== src/Client/Ring/Cells.antt =====
-- Cells and positions of the ring, crates/boa-client/src/audio/ring.rs.
use boa_voice.Prelude.{
  ℕ, zero, suc, ◌+◌, ◌-◌, ◌*◌, ◌%◌, ◌^◌, ◌≤◌, ◌<◌, ◌≡◌, refl, ◌≢◌, ◌⊎◌, inl, inr, List, [], ◌∷◌,
  ◌++◌, arith, length, get_or, set, take, drop, min, sym, ap, ◌∙◌, length-set,
}
use native.Mathlib.Nat.{
  mod-mod, mod-add-mod, mod-eq_of_lt, mod-lt, mod-eq-sub-mod, add-mod_right, add-mul-mod_self_left,
}
use boa_voice.Client.Ring.{store_from, load_from, masked, wrapping_sub}

-- Positions less than a lap apart are different cells.
apart : (p q mask : ℕ) → p < q → q < p + (mask + 1) → p % (mask + 1) ≢ q % (mask + 1)
apart p q mask h k e = grind arith

module _ {A : Type 0} (silence : A) where
  pub load_from-append :
      (cells : List A) (mask at m n : ℕ)
      → load_from silence cells mask at (m + n)
        ≡ load_from silence cells mask at m ++ load_from silence cells mask (at + m) n
  unfolding load_from
  load_from-append cells mask at zero n = ground arith
  load_from-append cells mask at (suc m) n =
      let shorter : suc m + n ≡ suc (m + n) = omega arith in
      let further : at + suc m ≡ at + 1 + m = omega arith in
      rw (shorter, further, load_from-append cells mask (at + 1) m n) refl

  pub load_from-mod :
      (cells : List A) (mask at n : ℕ)
      → load_from silence cells mask (at % (mask + 1)) n ≡ load_from silence cells mask at n
  unfolding load_from
  load_from-mod cells mask at zero = refl
  load_from-mod cells mask at (suc n) = ground (
    arith,
    mod-mod at (mask + 1),
    mod-add-mod at (mask + 1) 1,
    load_from-mod cells mask (at + 1) n,
    load_from-mod cells mask (at % (mask + 1) + 1) n,
  )

  pub store_from-mod :
      (xs cells : List A) (mask at : ℕ)
      → store_from silence cells mask (at % (mask + 1)) xs ≡ store_from silence cells mask at xs
  unfolding store_from
  store_from-mod [] cells mask at = refl
  store_from-mod (x ∷ xs) cells mask at = ground (
    arith,
    mod-mod at (mask + 1),
    mod-add-mod at (mask + 1) 1,
    store_from-mod xs (set cells (at % (mask + 1)) x) mask (at + 1),
    store_from-mod xs (set cells (at % (mask + 1)) x) mask (at % (mask + 1) + 1),
  )

  pub length-load_from :
      (cells : List A) (mask at n : ℕ) → length (load_from silence cells mask at n) ≡ n
  unfolding load_from
  length-load_from cells mask at zero = refl
  length-load_from cells mask at (suc n) = ap suc (length-load_from cells mask (at + 1) n)

  pub length-store_from :
      (xs cells : List A) (mask at : ℕ)
      → length (store_from silence cells mask at xs) ≡ length cells
  unfolding store_from
  length-store_from [] cells mask at = refl
  length-store_from (x ∷ xs) cells mask at =
      length-store_from xs (set cells (masked at mask) x) mask (at + 1)
      ∙ length-set cells (masked at mask) x

  get_or-set_ne :
      (xs : List A) (i j : ℕ) (v d : A) → i ≢ j → get_or (set xs i v) j d ≡ get_or xs j d
  get_or-set_ne [] i j v d ne = refl
  get_or-set_ne (x ∷ xs) zero zero v d ne = absurd (ne refl)
  get_or-set_ne (x ∷ xs) zero (suc j) v d ne = refl
  get_or-set_ne (x ∷ xs) (suc i) zero v d ne = refl
  get_or-set_ne (x ∷ xs) (suc i) (suc j) v d ne = get_or-set_ne xs i j v d (λ e. ne (ap suc e))

  get_or-set_self : (xs : List A) (i : ℕ) (v d : A) → i < length xs → get_or (set xs i v) i d ≡ v
  get_or-set_self [] i v d h = absurd (omega arith)
  get_or-set_self (x ∷ xs) zero v d h = refl
  get_or-set_self (x ∷ xs) (suc i) v d h = get_or-set_self xs i v d (omega arith)

  -- A store leaves the cell of a position that is less than a lap away.
  store_from-other :
      (xs cells : List A) (mask at p : ℕ)
      → p < at
      → at + length xs ≤ p + (mask + 1)
      → get_or (store_from silence cells mask at xs) (p % (mask + 1)) silence
        ≡ get_or cells (p % (mask + 1)) silence
  unfolding store_from
  store_from-other [] cells mask at p h k = refl
  store_from-other (x ∷ xs) cells mask at p h k =
      store_from-other xs (set cells (masked at mask) x) mask (at + 1) p (omega arith) (omega arith)
      ∙ get_or-set_ne cells (at % (mask + 1)) (p % (mask + 1)) x silence
          (λ e. apart p at mask h (omega arith) (sym e))

  pub load_from-other :
      (n : ℕ) (xs cells : List A) (mask at p : ℕ)
      → p + n ≤ at
      → at + length xs ≤ p + (mask + 1)
      → load_from silence (store_from silence cells mask at xs) mask p n
        ≡ load_from silence cells mask p n
  unfolding load_from
  load_from-other zero xs cells mask at p h k = refl
  load_from-other (suc n) xs cells mask at p h k =
      rw
        (
          store_from-other xs cells mask at p (omega arith) k,
          load_from-other n xs cells mask at (p + 1) (omega arith) (omega arith),
        )
        refl

  -- What was stored is loaded.
  pub load_from-store_from :
      (xs cells : List A) (mask at : ℕ)
      → length cells ≡ mask + 1
      → length xs ≤ mask + 1
      → load_from silence (store_from silence cells mask at xs) mask at (length xs) ≡ xs
  unfolding load_from store_from
  load_from-store_from [] cells mask at size fits = refl
  load_from-store_from (x ∷ xs) cells mask at size fits =
      rw
        (
          store_from-other xs (set cells (masked at mask) x) mask (at + 1) at (omega arith)
              (omega arith),
          get_or-set_self cells (at % (mask + 1)) x silence
              (omega (arith, mod-lt at {m = mask + 1} (omega arith))),
          load_from-store_from xs (set cells (masked at mask) x) mask (at + 1)
              (length-set cells (masked at mask) x ∙ size) (omega arith),
        )
        refl

-- The distance from one index to another, as `len` computes it.
pub distance :
    (mask laps : ℕ)
    → (mask + 1) * laps ≡ 2 ^ 64
    → (a b : ℕ) → a ≤ mask
    → b ≤ mask
    → masked (wrapping_sub b a) mask ≡ (b + (mask + 1) - a) % (mask + 1)
distance mask zero power a b ha hb = absurd (grind arith)
distance mask (suc laps) power a b ha hb = elim (before_or_after a b) [
  | inl le ↦ ground (arith, forward le, add-mod_right (b - a) (mask + 1))
  | inr lt ↦ ground (arith, backward lt)
]
  where
    before_or_after : (a b : ℕ) → (a ≤ b) ⊎ (b < a)
    before_or_after a b = ground arith

    whole : 2 ^ 64 ≡ (mask + 1) + (mask + 1) * laps
    whole = grind (arith, power)

    forward : a ≤ b → (b + 2 ^ 64 - a) % 2 ^ 64 ≡ b - a
    forward le = omega (arith, whole)

    backward : b < a → (b + 2 ^ 64 - a) % 2 ^ 64 % (mask + 1) ≡ (b + (mask + 1) - a) % (mask + 1)
    backward lt =
        let lap : (b + 2 ^ 64 - a) % 2 ^ 64 ≡ (b + (mask + 1) - a) + (mask + 1) * laps =
          omega (arith, whole) in
        rw lap (add-mul-mod_self_left (b + (mask + 1) - a) (mask + 1) laps)

pub take-self-append :
    {A : Type 0} (xs ys : List A) (n : ℕ) → length xs ≡ n → take n (xs ++ ys) ≡ xs
take-self-append [] ys zero e = refl
take-self-append [] ys (suc n) e = absurd (omega arith)
take-self-append (x ∷ xs) ys zero e = absurd (omega arith)
take-self-append (x ∷ xs) ys (suc n) e = ap (λ l. x ∷ l) (take-self-append xs ys n (omega arith))

pub drop-self-append :
    {A : Type 0} (xs ys : List A) (n : ℕ) → length xs ≡ n → drop n (xs ++ ys) ≡ ys
drop-self-append [] ys zero e = refl
drop-self-append [] ys (suc n) e = absurd (omega arith)
drop-self-append (x ∷ xs) ys zero e = absurd (omega arith)
drop-self-append (x ∷ xs) ys (suc n) e = drop-self-append xs ys n (omega arith)

pub take-min : {A : Type 0} (n : ℕ) (xs : List A) → take (min n (length xs)) xs ≡ take n xs
take-min zero [] = refl
take-min zero (x ∷ xs) = ground arith
take-min (suc n) [] = ground arith
take-min (suc n) (x ∷ xs) = ground (arith, take-min n xs)

pub drop-min : {A : Type 0} (n : ℕ) (xs : List A) → drop (min n (length xs)) xs ≡ drop n xs
drop-min zero [] = refl
drop-min zero (x ∷ xs) = ground arith
drop-min (suc n) [] = ground arith
drop-min (suc n) (x ∷ xs) = ground (arith, drop-min n xs)

pub leb_cases : (a b : ℕ) → (a ≤ b) ⊎ (b < a)
leb_cases a b = ground arith

-- `a` and `n` steps on, within one lap: where that is, and how far it is from `a`.
pub ahead :
    (mask a n : ℕ) → a ≤ mask → n ≤ mask → ((a + n) % (mask + 1) + (mask + 1) - a) % (mask + 1) ≡ n
ahead mask a n ha hn = elim (leb_cases (a + n) mask) [
  | inl near ↦
      let here : (a + n) % (mask + 1) ≡ a + n = mod-eq_of_lt (omega arith) in
      let far : (a + n) % (mask + 1) + (mask + 1) - a ≡ n + (mask + 1) = omega arith in
      rw far (add-mod_right n (mask + 1) ∙ mod-eq_of_lt (omega arith))
  | inr past ↦
      let here : (a + n) % (mask + 1) ≡ a + n - (mask + 1) =
        mod-eq-sub-mod (omega arith) ∙ mod-eq_of_lt (omega arith) in
      let far : (a + n) % (mask + 1) + (mask + 1) - a ≡ n = omega arith in
      rw far (mod-eq_of_lt (omega arith))
]

pub back :
    (mask a b : ℕ) → a ≤ mask → b ≤ mask → (a + (b + (mask + 1) - a) % (mask + 1)) % (mask + 1) ≡ b
back mask a b ha hb = elim (leb_cases a b) [
  | inl le ↦
      let gap : (b + (mask + 1) - a) % (mask + 1) ≡ b - a =
        ap (λ n. n % (mask + 1)) (omega arith)
        ∙ (add-mod_right (b - a) (mask + 1) ∙ mod-eq_of_lt (omega arith)) in
      rw gap (ap (λ n. n % (mask + 1)) (omega arith) ∙ mod-eq_of_lt (omega arith))
  | inr lt ↦
      let gap : (b + (mask + 1) - a) % (mask + 1) ≡ b + (mask + 1) - a =
        mod-eq_of_lt (omega arith) in
      rw gap (
        ap (λ n. n % (mask + 1)) (omega arith)
        ∙ (add-mod_right b (mask + 1) ∙ mod-eq_of_lt (omega arith)))
]
