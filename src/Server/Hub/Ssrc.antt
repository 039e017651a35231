-- ===== src/Server/Hub/Ssrc.antt =====
-- `State::take_ssrc` of crates/boa-server/src/hub.rs: the loop ends, with a stream id that is free.
use boa_voice.Prelude.{
  ℕ, zero, suc, ◌+◌, ◌%◌, ◌^◌, ◌≤◌, ◌<◌, ◌≡◌, ◌≢◌, inl, inr, true, not, ◌&&◌, none, some, [], ◌∷◌,
  ◌==◌, arith, length, Bool-cases, Option-cases,
}
use boa_voice.Prelude.Map.{Map, get, remove, contains_key, contains_key-get, get-remove}
use boa_voice.Proto.Model.{Ident}
use boa_voice.Server.Hub.{State, take_from, take_ssrc}

module _ {V : Type 0} where
  pub length-remove-le : (k : ℕ) (m : Map V) → length (remove k m) ≤ length m
  unfolding remove
  length-remove-le k [] = omega arith
  length-remove-le k ((j, v) ∷ m) = ground (arith, length-remove-le k m)

  length-remove-lt : (k : ℕ) (m : Map V) → contains_key k m ≡ true → length (remove k m) < length m
  unfolding remove contains_key
  length-remove-lt k [] h = cc
  length-remove-lt k ((j, v) ∷ m) h = ground (arith, length-remove-le k m, length-remove-lt k m)

  contains_key-remove :
      (k j : ℕ) (m : Map V) → k ≢ j → contains_key j m ≡ true → contains_key j (remove k m) ≡ true
  contains_key-remove k j m ne h =
      ground (arith, contains_key-get j m, contains_key-get j (remove k m), get-remove k j m)

  -- Different keys of a map are at most as many as its entries.
  pigeonhole :
      (n : ℕ) (f : ℕ → ℕ) (m : Map V)
      → ((i j : ℕ) → i < n → j < n → f i ≡ f j → i ≡ j)
      → ((i : ℕ) → i < n → contains_key (f i) m ≡ true)
      → n ≤ length m
  pigeonhole zero f m inj all = omega arith
  pigeonhole (suc n) f m inj all = omega (
    arith,
    length-remove-lt (f n) m (all n (omega arith)),
    pigeonhole n f (remove (f n) m) (λ i j hi hj. inj i j (omega arith) (omega arith))
        (λ i hi.
          contains_key-remove (f n) (f i) m
            (λ e. absurd (omega (arith, inj n i (omega arith) (omega arith) e)))
            (all i (omega arith))),
  )

-- The stream id that is looked at after `i` rounds.
abbrev nth : ℕ → ℕ → ℕ
nth next i = (next + i) % 2 ^ 32

-- What a result of the loop is.
pub record Free (fuel next : ℕ) (taken : Map Ident) (ssrc after : ℕ) : Type 0 where
  pub positive : ssrc ≢ 0
  pub unused : get ssrc taken ≡ none
  pub rounds : ℕ
  pub within : rounds < fuel
  pub reached : ssrc ≡ nth next rounds
  pub moved : after ≡ (ssrc + 1) % 2 ^ 32

take_from-Free :
    (fuel next : ℕ) (taken : Map Ident) (ssrc after : ℕ)
    → next < 2 ^ 32
    → take_from fuel next taken ≡ some (ssrc, after)
    → Free fuel next taken ssrc after
unfolding take_from
take_from-Free zero next taken ssrc after small e = cc
take_from-Free (suc fuel) next taken ssrc after small e =
    elim (Bool-cases (not (next == 0) && not (contains_key next taken))) [
      | inl free ↦ record {
        positive = ground arith;
        unused = ground (arith, contains_key-get next taken);
        rounds = 0;
        within = omega arith;
        reached = ground arith;
        moved = ground arith;
      }
      | inr busy ↦
          let later =
            take_from-Free fuel ((next + 1) % 2 ^ 32) taken ssrc after (omega arith)
              (ground arith) in
          record {
            positive = later.positive;
            unused = later.unused;
            rounds = suc later.rounds;
            within = omega (arith, later.within);
            reached = omega (arith, later.reached);
            moved = later.moved;
          }
    ]

-- Where the loop is still running, every stream id it looked at is zero or in use.
take_from-none :
    (fuel next : ℕ) (taken : Map Ident) (i : ℕ)
    → take_from fuel next taken ≡ none
    → next < 2 ^ 32
    → i < fuel
    → contains_key (nth next i) ((0, 0) ∷ taken) ≡ true
unfolding take_from contains_key
take_from-none zero next taken i e small h = absurd (omega arith)
take_from-none (suc fuel) next taken zero e small h = ground (arith, mod_small next)
  where
    mod_small : (n : ℕ) → n < 2 ^ 32 → (n + 0) % 2 ^ 32 ≡ n
    mod_small n h = omega arith
take_from-none (suc fuel) next taken (suc i) e small h =
    ground (arith, shift, take_from-none fuel ((next + 1) % 2 ^ 32) taken i)
  where
    shift : (next + suc i) % 2 ^ 32 ≡ ((next + 1) % 2 ^ 32 + i) % 2 ^ 32
    shift = omega arith

nth_injective : (next n i j : ℕ) → n ≤ 2 ^ 32 → i < n → j < n → nth next i ≡ nth next j → i ≡ j
nth_injective next n i j small hi hj e = omega arith

take_from_ends :
    (next : ℕ) (taken : Map Ident)
    → next < 2 ^ 32
    → length taken + 2 ≤ 2 ^ 32
    → take_from (length taken + 2) next taken ≢ none
take_from_ends next taken small room e = absurd (
    omega (
      arith,
      pigeonhole (length taken + 2) (nth next) ((0, 0) ∷ taken)
          (λ i j hi hj. nth_injective next (length taken + 2) i j room hi hj)
          (λ i hi. take_from-none (length taken + 2) next taken i e small hi),
    ))

-- While the counter is a `u32` and two of the 2 ^ 32 stream ids are unused, `take_ssrc` returns one
-- that is not zero and not in use, and changes nothing but the counter.
pub take_ssrc-Free :
    (s : State)
    → s.next_ssrc < 2 ^ 32
    → length s.by_ssrc + 2 ≤ 2 ^ 32
    → (ssrc after : ℕ) × (take_ssrc s ≡ some (ssrc, record s { next_ssrc = after }))
      × Free (length s.by_ssrc + 2) s.next_ssrc s.by_ssrc ssrc after
unfolding take_ssrc
take_ssrc-Free s small room =
    elim (Option-cases (take_from (length s.by_ssrc + 2) s.next_ssrc s.by_ssrc)) [
      | inl e ↦ absurd (take_from_ends s.next_ssrc s.by_ssrc small room e)
      | inr ((ssrc, after), e) ↦ (
        ssrc,
        after,
        rw (e, take_ssrc),
        take_from-Free (length s.by_ssrc + 2) s.next_ssrc s.by_ssrc ssrc after small e,
      )
    ]
