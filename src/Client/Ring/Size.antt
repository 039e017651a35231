-- ===== src/Client/Ring/Size.antt =====
-- A new ring, crates/boa-client/src/audio/ring.rs.
use boa_voice.Prelude.{
  ℕ, zero, suc, ◌+◌, ◌-◌, ◌*◌, ◌^◌, ◌≤◌, ◌<◌, ◌≡◌, refl, inl, inr, [], arith, max, sym, ap, ◌∙◌,
  subst, length-replicate,
}
use native.Mathlib.Nat.{mul_assoc, mul_comm, pow-succ', one-le-pow}
use boa_voice.Client.Ring.{new, capacity, next_power_of_two, doubled_to}
use boa_voice.Client.Ring.Cells.{leb_cases}
use boa_voice.Client.Ring.Fifo.{Valid, contents, contents-empty}

double_first : (p x : ℕ) → 2 * p * x ≡ p * (2 * x)
double_first p x = ap (λ k. k * x) (mul_comm 2 p) ∙ mul_assoc p 2 x

pow_split : (m n : ℕ) → 2 ^ m * 2 ^ n ≡ 2 ^ (m + n)
pow_split zero n = grind arith
pow_split (suc m) n =
    let e : suc m + n ≡ suc (m + n) = omega arith in
    rw (e, pow-succ' 2 m, pow-succ' 2 (m + n), mul_assoc 2 (2 ^ m) (2 ^ n), pow_split m n) refl

-- What doubling `p` up to `wanted` gives.
record Reaches (rounds p wanted result : ℕ) : Type 0 where
  enough : wanted ≤ result
  doublings : ℕ
  within : doublings ≤ rounds
  power : result ≡ p * 2 ^ doublings

doubled_to-Reaches :
    (rounds p wanted : ℕ)
    → wanted ≤ p * 2 ^ rounds
    → Reaches rounds p wanted (doubled_to rounds p wanted)
unfolding doubled_to
doubled_to-Reaches zero p wanted h = record {
  enough = omega arith;
  doublings = 0;
  within = omega arith;
  power = omega arith;
}
doubled_to-Reaches (suc rounds) p wanted h = elim (leb_cases wanted p) [
  | inl le ↦ record {
    enough = ground arith;
    doublings = 0;
    within = omega arith;
    power = ground arith;
  }
  | inr lt ↦
      let more = doubled_to-Reaches rounds (2 * p) wanted (
        omega (
          arith,
          double_first p (2 ^ rounds),
          subst (λ x. wanted ≤ p * x) (pow-succ' 2 rounds) h,
        )) in
      record {
        enough = ground (arith, more);
        doublings = suc more.doublings;
        within = omega (arith, more.within);
        power = skip lt ∙ (more.power ∙ twice_as_much p more.doublings);
      }
]
  where
    skip : p < wanted → doubled_to (suc rounds) p wanted ≡ doubled_to rounds (2 * p) wanted
    skip lt = ground arith

    twice_as_much : (p j : ℕ) → 2 * p * 2 ^ j ≡ p * 2 ^ suc j
    twice_as_much p j = double_first p (2 ^ j) ∙ ap (λ x. p * x) (sym (pow-succ' 2 j))

next_power_of_two-Reaches :
    (wanted : ℕ) → wanted ≤ 2 ^ 63 → Reaches 64 1 wanted (next_power_of_two wanted)
unfolding next_power_of_two
next_power_of_two-Reaches wanted small = doubled_to-Reaches 64 1 wanted (omega arith)

-- A power of two that is at least two.
two_at_least : (k d : ℕ) → d ≡ 1 * 2 ^ k → max d 2 ≡ 2 ^ max k 1
two_at_least zero d e = omega arith
two_at_least (suc k) d e =
    let same : max (suc k) 1 ≡ suc k = omega arith in
    rw same (omega (arith, one-le-pow k 2 (omega arith)))

module _ {A : Type 0} (silence : A) where
  -- A ring for up to 2 ^ 63 samples is valid and empty. Its cells are a power of two, at least as many
  -- as were wanted; one of them is kept free.
  pub new-contents :
      (wanted : ℕ)
      → wanted ≤ 2 ^ 63
      → Valid (new silence wanted)
        × (contents silence (new silence wanted) ≡ [])
        × (wanted ≤ capacity silence (new silence wanted) + 1)
        × (k : ℕ) × (capacity silence (new silence wanted) + 1 ≡ 2 ^ k)
  unfolding new
  new-contents wanted small =
      let d = next_power_of_two-Reaches wanted small in
      let k = max d.doublings 1 in
      let cells : max (next_power_of_two wanted) 2 ≡ 2 ^ k =
        two_at_least d.doublings (next_power_of_two wanted) d.power in
      let size = length-replicate (max (next_power_of_two wanted) 2) silence in
      let whole : k + (64 - k) ≡ 64 = omega (arith, d.within) in
      let valid : (max (next_power_of_two wanted) 2 - 1 + 1) * 2 ^ (64 - k) ≡ 2 ^ 64 =
        ap (λ c. c * 2 ^ (64 - k)) (omega (arith, cells))
        ∙ (pow_split k (64 - k) ∙ ap (λ e. 2 ^ e) whole) in
      (
        record {
          size = omega (arith, size);
          laps = 2 ^ (64 - k);
          power = valid;
          read_in = omega arith;
          write_in = omega arith;
        },
        contents-empty silence (new silence wanted) refl (omega arith),
        omega (arith, size, d.enough),
        k,
        omega (arith, size, cells),
      )
