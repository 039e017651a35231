-- ===== src/Client/Recv/Pieces.antt =====
-- Putting one picture together, crates/boa-client/src/screen/recv.rs.
use boa_voice.Prelude.{
  ℕ, zero, suc, ◌≤◌, ◌<◌, ◌≡◌, refl, inl, inr, Option, none, some, List, [], ◌∷◌, arith, length,
  get_or, set, get_elem?, replicate, sym, ap, Option-cases, concat,
}
use boa_voice.Client.Recv.{Partial, new_partial, fill, join_pieces}

-- Each slot is empty or holds the chunk that belongs there.
abbrev pub Fits : List (Option (List ℕ)) → List (List ℕ) → Type 0
Fits [] [] = Unit {0}
Fits [] (c ∷ cs) = ⊥
Fits (p ∷ ps) [] = ⊥
Fits (none ∷ ps) (c ∷ cs) = Fits ps cs
Fits (some p ∷ ps) (c ∷ cs) = (p ≡ c) × Fits ps cs

pub filled : List (Option (List ℕ)) → ℕ
filled [] = 0
filled (none ∷ ps) = filled ps
filled (some p ∷ ps) = suc (filled ps)

pub filled-le : (ps : List (Option (List ℕ))) → filled ps ≤ length ps
unfolding filled
filled-le [] = omega arith
filled-le (none ∷ ps) = omega (arith, filled-le ps)
filled-le (some p ∷ ps) = omega (arith, filled-le ps)

pub length-Fits :
    (ps : List (Option (List ℕ))) (cs : List (List ℕ)) → Fits ps cs → length ps ≡ length cs
length-Fits [] [] f = refl
length-Fits [] (c ∷ cs) f = absurd f
length-Fits (none ∷ ps) [] f = absurd f
length-Fits (some p ∷ ps) [] f = absurd f
length-Fits (none ∷ ps) (c ∷ cs) f = ap suc (length-Fits ps cs f)
length-Fits (some p ∷ ps) (c ∷ cs) f = ap suc (length-Fits ps cs f.1)

-- With every slot filled the pieces are the picture.
pub join_pieces-full :
    (ps : List (Option (List ℕ))) (cs : List (List ℕ))
    → Fits ps cs
    → filled ps ≡ length ps
    → join_pieces ps ≡ concat cs
unfolding join_pieces filled
join_pieces-full [] [] f e = refl
join_pieces-full [] (c ∷ cs) f e = absurd f
join_pieces-full (none ∷ ps) [] f e = absurd f
join_pieces-full (some p ∷ ps) [] f e = absurd f
join_pieces-full (none ∷ ps) (c ∷ cs) f e = absurd (omega (arith, filled-le ps))
join_pieces-full (some p ∷ ps) (c ∷ cs) f e = ground (arith, f, join_pieces-full ps cs f.1)

-- Filling an empty slot with its chunk.
set-Fits :
    (ps : List (Option (List ℕ))) (cs : List (List ℕ)) (i : ℕ) (c : List ℕ)
    → Fits ps cs
    → get_elem? cs i ≡ some c
    → Fits (set ps i (some c)) cs
set-Fits [] [] i c f e = cc
set-Fits [] (d ∷ cs) i c f e = absurd f
set-Fits (none ∷ ps) [] i c f e = absurd f
set-Fits (some p ∷ ps) [] i c f e = absurd f
set-Fits (none ∷ ps) (d ∷ cs) zero c f e = (ground arith, f)
set-Fits (some p ∷ ps) (d ∷ cs) zero c f e = (ground arith, f.1)
set-Fits (none ∷ ps) (d ∷ cs) (suc i) c f e = set-Fits ps cs i c f e
set-Fits (some p ∷ ps) (d ∷ cs) (suc i) c f e = (f.0, set-Fits ps cs i c f.1 e)

filled-set :
    (ps : List (Option (List ℕ))) (i : ℕ) (c : List ℕ)
    → i < length ps
    → get_or ps i none ≡ none
    → filled (set ps i (some c)) ≡ suc (filled ps)
unfolding filled
filled-set [] i c h e = absurd (omega arith)
filled-set (none ∷ ps) zero c h e = refl
filled-set (some p ∷ ps) zero c h e = cc
filled-set (none ∷ ps) (suc i) c h e = filled-set ps i c (omega arith) e
filled-set (some p ∷ ps) (suc i) c h e = ap suc (filled-set ps i c (omega arith) e)

replicate-Fits : (cs : List (List ℕ)) → Fits (replicate (length cs) none) cs
replicate-Fits [] = tt
replicate-Fits (c ∷ cs) = replicate-Fits cs

filled-replicate : (n : ℕ) → filled (replicate n none) ≡ 0
unfolding filled
filled-replicate zero = refl
filled-replicate (suc n) = filled-replicate n

pub get_elem?-lt :
    {A : Type 0} (xs : List A) (i : ℕ) (x : A) → get_elem? xs i ≡ some x → i < length xs
get_elem?-lt [] i x e = cc
get_elem?-lt (y ∷ xs) zero x e = omega arith
get_elem?-lt (y ∷ xs) (suc i) x e = omega (arith, get_elem?-lt xs i x e)

-- A partial picture of a frame cut into `cs`.
pub record IsPartOf (p : Partial) (cs : List (List ℕ)) : Type 0 where
  pub fits : Fits p.pieces cs
  pub counted : p.have ≡ filled p.pieces

pub new_partial-IsPartOf : (cs : List (List ℕ)) → IsPartOf (new_partial (length cs)) cs
new_partial-IsPartOf cs = record {
  fits = replicate-Fits cs;
  counted = sym (filled-replicate (length cs));
}

-- A fragment that belongs to the frame keeps a partial picture one of the frame.
pub fill-IsPartOf :
    (p : Partial) (cs : List (List ℕ)) (i : ℕ) (c : List ℕ)
    → IsPartOf p cs
    → get_elem? cs i ≡ some c
    → IsPartOf (fill p i c) cs
unfolding fill
fill-IsPartOf p cs i c v e = elim (Option-cases (get_or p.pieces i none)) [
  | inr (old, q) ↦ rw (q, fill) v
  | inl q ↦
      rw (q, fill)
        (record {
          fits = set-Fits p.pieces cs i c v.fits e;
          counted = omega (
            arith,
            v.counted,
            filled-set p.pieces i c
                (omega (arith, get_elem?-lt cs i c e, length-Fits p.pieces cs v.fits)) q,
          );
        })
]
