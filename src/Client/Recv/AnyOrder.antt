-- ===== src/Client/Recv/AnyOrder.antt =====
-- All fragments of a frame, each once, in any order, crates/boa-client/src/screen/recv.rs.
use boa_voice.Prelude.{
  ℕ, zero, suc, ◌+◌, ◌^◌, ◌<◌, ◌≡◌, refl, ◌≢◌, inl, inr, Option, none, some, List, [], ◌∷◌, arith,
  length, get_or, set, get_elem?, sym, ap, ◌∙◌, subst, concat, In,
}
use boa_voice.Proto.Media.{max_video_chunk, div_ceil, fragment}
use boa_voice.Proto.Media.Fragments.{fragment-Cuts}
use boa_voice.Client.Recv.{Partial, Reassembler, new_partial, fill, Fed, take_fragment}
use boa_voice.Client.Recv.Delivery.{Alone, fresh, feed_more, feed_last}

-- The pictures that come out while the fragments at these places arrive, one after another, and what
-- the reassembler and the drop counter are then.
abbrev put_first :
    Option (List ℕ) → List (List ℕ) × Reassembler × ℕ → List (List ℕ) × Reassembler × ℕ
put_first none later = later
put_first (some picture) later = (picture ∷ later.0, later.1, later.2)

pub arrive : Reassembler → ℕ → List (ℕ × ℕ × List ℕ) → ℕ → List (List ℕ) × Reassembler × ℕ
arrive r timestamp [] dropped = ([], r, dropped)
arrive r timestamp (f ∷ rest) dropped =
    let fed = take_fragment r timestamp f dropped in
    put_first fed.picture (arrive fed.assembler timestamp rest fed.dropped)

abbrev pub pick : List (ℕ × ℕ × List ℕ) → List ℕ → List (ℕ × ℕ × List ℕ)
pick fragments [] = []
pick fragments (i ∷ order) = get_or fragments i (0, 0, []) ∷ pick fragments order

-- Places below `n`, none twice.
abbrev pub DistinctBelow : ℕ → List ℕ → Type 0
DistinctBelow n [] = Unit {0}
DistinctBelow n (i ∷ order) = (i < n) × (¬ In i order) × DistinctBelow n order

get_or-some :
    {A : Type 0} (xs : List A) (i : ℕ) (d x : A) → get_elem? xs i ≡ some x → get_or xs i d ≡ x
get_or-some [] i d x e = cc
get_or-some (y ∷ xs) zero d x e = cc
get_or-some (y ∷ xs) (suc i) d x e = get_or-some xs i d x e

get_elem?-below :
    {A : Type 0} (xs : List A) (i : ℕ) → i < length xs → (x : A) × (get_elem? xs i ≡ some x)
get_elem?-below [] i h = absurd (omega arith)
get_elem?-below (x ∷ xs) zero h = (x, refl)
get_elem?-below (x ∷ xs) (suc i) h = get_elem?-below xs i (omega arith)

get_or-set_ne :
    {A : Type 0} (xs : List A) (i j : ℕ) (v d : A) → i ≢ j → get_or (set xs i v) j d ≡ get_or xs j d
get_or-set_ne [] i j v d ne = refl
get_or-set_ne (x ∷ xs) zero zero v d ne = absurd (ne refl)
get_or-set_ne (x ∷ xs) zero (suc j) v d ne = refl
get_or-set_ne (x ∷ xs) (suc i) zero v d ne = refl
get_or-set_ne (x ∷ xs) (suc i) (suc j) v d ne = get_or-set_ne xs i j v d (λ e. ne (ap suc e))

arrive-none :
    (r r' : Reassembler) (timestamp dropped dropped' : ℕ) (f : ℕ × ℕ × List ℕ)
    (rest : List (ℕ × ℕ × List ℕ))
    → take_fragment r timestamp f dropped
      ≡ record { picture = none; assembler = r'; dropped = dropped' }
    → arrive r timestamp (f ∷ rest) dropped ≡ arrive r' timestamp rest dropped'
unfolding arrive
arrive-none r r' timestamp dropped dropped' f rest e =
    ap (λ (fed : Fed). put_first fed.picture (arrive fed.assembler timestamp rest fed.dropped)) e

arrive-last :
    (r r' : Reassembler) (timestamp dropped dropped' : ℕ) (f : ℕ × ℕ × List ℕ) (picture : List ℕ)
    → take_fragment r timestamp f dropped
      ≡ record { picture = some picture; assembler = r'; dropped = dropped' }
    → arrive r timestamp (f ∷ []) dropped ≡ (picture ∷ [], r', dropped')
unfolding arrive
arrive-last r r' timestamp dropped dropped' f picture e =
    ap (λ (fed : Fed). put_first fed.picture (arrive fed.assembler timestamp [] fed.dropped)) e

-- Filling an empty slot counts it, and leaves the others.
fill-empty :
    (p : Partial) (i : ℕ) (c : List ℕ)
    → get_or p.pieces i none ≡ none
    → ((fill p i c).have ≡ p.have + 1)
      × ((j : ℕ) → i ≢ j → get_or (fill p i c).pieces j none ≡ get_or p.pieces j none)
unfolding fill
fill-empty p i c e = rw (e, fill) (refl, λ j ne. get_or-set_ne p.pieces i j (some c) none ne)

-- The slots that are still to come are empty.
abbrev Empty : Partial → List ℕ → Type 0
Empty p order = (j : ℕ) → In j order → get_or p.pieces j none ≡ none

module _ (fragments : List (ℕ × ℕ × List ℕ)) (cs : List (List ℕ)) (timestamp : ℕ)
    (nth : (i : ℕ) (c : List ℕ)
      → get_elem? cs i ≡ some c
      → get_elem? fragments i ≡ some (i, length cs, c))
    (many : 1 < length cs) where
  arrive_rest :
      (order : List ℕ) (r : Reassembler) (p : Partial) (i dropped : ℕ)
      → Alone timestamp cs r p
      → DistinctBelow (length cs) (i ∷ order)
      → Empty p (i ∷ order)
      → p.have + suc (length order) ≡ length cs
      → (r' : Reassembler) × (arrive r timestamp (pick fragments (i ∷ order)) dropped
          ≡ (concat cs ∷ [], r', dropped))
        × (r'.building ≡ [])
  arrive_rest [] r p i dropped a d empty count =
      let (c, e) = get_elem?-below cs i d.0 in
      let (more, _) = fill-empty p i c (empty i (inl refl)) in
      let (r', fed, clean) =
        feed_last r timestamp cs p i c dropped a e many (omega (arith, more)) in
      (
        r',
        rw (get_or-some fragments i (0, 0, []) (i, length cs, c) (nth i c e))
            (arrive-last r r' timestamp dropped dropped (i, length cs, c) (concat cs) fed),
        clean,
      )
  arrive_rest (j ∷ order) r p i dropped a d empty count =
      let (c, e) = get_elem?-below cs i d.0 in
      let (more, others) = fill-empty p i c (empty i (inl refl)) in
      let (r₁, fed, a₁) = feed_more r timestamp cs p i c dropped a e many (omega (arith, more)) in
      let (r', rest, clean) =
        arrive_rest order r₁ (fill p i c) j dropped a₁ d.2
          (λ k m. others k (λ q. d.1 (subst (λ x. In x (j ∷ order)) (sym q) m)) ∙ empty k (inr m))
          (omega (arith, more)) in
      (
        r',
        rw (get_or-some fragments i (0, 0, []) (i, length cs, c) (nth i c e)) (
            arrive-none r r₁ timestamp dropped dropped (i, length cs, c)
              (pick fragments (j ∷ order)) fed
            ∙ rest),
        clean,
      )

new_partial-empty : (n j : ℕ) → get_or (new_partial n).pieces j none ≡ none
new_partial-empty zero j = refl
new_partial-empty (suc n) zero = refl
new_partial-empty (suc n) (suc j) = new_partial-empty n j

-- A frame of two to 2 ^ 16 - 1 chunks, cut by `fragment`: if all its fragments arrive, each once, in
-- any order, at a reassembler that is building nothing else, then exactly one picture comes out, it
-- is the frame, nothing is left behind, and nothing is counted as dropped.
pub arrive-fragment :
    (frame : List ℕ) (r : Reassembler) (timestamp dropped : ℕ) (order : List ℕ)
    → 1 < length (fragment frame)
    → div_ceil (length frame) max_video_chunk < 2 ^ 16
    → r.building ≡ []
    → DistinctBelow (length (fragment frame)) order
    → length order ≡ length (fragment frame)
    → (r' : Reassembler) × (arrive r timestamp (pick (fragment frame) order) dropped
        ≡ (frame ∷ [], r', dropped))
      × (r'.building ≡ [])
arrive-fragment frame r timestamp dropped [] many small clean d count = absurd (omega arith)
arrive-fragment frame r timestamp dropped (i ∷ order) many small clean d count =
    let (cs, cuts) = fragment-Cuts frame small in
    let (r', e, left) =
      arrive_rest (fragment frame) cs timestamp cuts.nth (omega (arith, cuts.count)) order r
        (new_partial (length cs)) i dropped (fresh clean)
        (subst (λ n. DistinctBelow n (i ∷ order)) cuts.count d)
        (λ j m. new_partial-empty (length cs) j) (omega (arith, cuts.count)) in
    (r', e ∙ ap (λ f. (f ∷ [], r', dropped)) cuts.whole, left)
