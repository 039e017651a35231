-- ===== src/Server/Blobs/Labels.antt =====
-- The name an upload is shown and downloaded under: `sanitise_name` of crates/boa-server/src/blobs.rs.
use boa_voice.Prelude.{
  ℕ, ◌≤◌, ◌≡◌, refl, ap, ◌∙◌, Bool, true, false, not, ◌&&◌, [], ◌∷◌, ◌++◌, ◌==◌, arith, Bool-cases,
  inl, inr, length, take, length-take, zero, suc,
}
use mathlib.Core.List.{reverse, reverse-cons}
use boa_voice.Prelude.Lists.{filter}
use boa_voice.Prelude.Text.{Text, trim, trim_start, is_empty, is_whitespace}
use boa_voice.Server.Db.History.{length-reverse}
use boa_voice.Server.Blobs.{all, base_name, is_control, sanitise_name}

-- Neither a control character nor a quote nor a separator of directories.
abbrev pub is_plain : ℕ → Bool
is_plain c = not (is_control c) && (not (c == 34) && (not (c == 47) && not (c == 92)))

abbrev pub starts_with_dot : Text → Bool
starts_with_dot [] = false
starts_with_dot (c ∷ rest) = c == 46

module _ (p : ℕ → Bool) where
  all-append : (s t : Text) → all p s ≡ true → all p t ≡ true → all p (s ++ t) ≡ true
  all-append [] t e h = h
  all-append (c ∷ s) t e h = ground (arith, all-append s t)

  all-reverse : (s : Text) → all p s ≡ true → all p (reverse s) ≡ true
  all-reverse [] e = refl
  all-reverse (c ∷ s) e =
      ap (all p) (reverse-cons c s)
      ∙ all-append (reverse s) (c ∷ []) (all-reverse s (ground arith)) (ground arith)

  all-take : (n : ℕ) (s : Text) → all p s ≡ true → all p (take n s) ≡ true
  all-take zero s e = refl
  all-take (suc n) [] e = refl
  all-take (suc n) (c ∷ s) e = ground (arith, all-take n s)

  all-trim_start : (q : ℕ → Bool) (s : Text) → all p s ≡ true → all p (trim_start q s) ≡ true
  unfolding trim_start
  all-trim_start q [] e = refl
  all-trim_start q (c ∷ s) e = ground (arith, all-trim_start q s)

  all-filter :
      (q r : ℕ → Bool) (s : Text)
      → ((c : ℕ) → q c ≡ true → r c ≡ true → p c ≡ true)
      → all r s ≡ true
      → all p (filter q s) ≡ true
  unfolding filter
  all-filter q r [] h e = refl
  all-filter q r (c ∷ s) h e = ground (arith, all-filter q r s h, h c)

all-trim : (p : ℕ → Bool) (s : Text) → all p s ≡ true → all p (trim s) ≡ true
unfolding trim
all-trim p s e = all-reverse p (trim_start is_whitespace (reverse (trim_start is_whitespace s))) (
    all-trim_start p is_whitespace (reverse (trim_start is_whitespace s))
      (all-reverse p (trim_start is_whitespace s) (all-trim_start p is_whitespace s e)))

length-trim_start : (q : ℕ → Bool) (s : Text) → length (trim_start q s) ≤ length s
unfolding trim_start
length-trim_start q [] = omega arith
length-trim_start q (c ∷ s) = ground (arith, length-trim_start q s)

length-trim : (s : Text) → length (trim s) ≤ length s
unfolding trim
length-trim s = omega (
  arith,
  length-reverse (trim_start is_whitespace (reverse (trim_start is_whitespace s))),
  length-trim_start is_whitespace (reverse (trim_start is_whitespace s)),
  length-reverse (trim_start is_whitespace s),
  length-trim_start is_whitespace s,
)

trim_start-dot : (s : Text) → starts_with_dot (trim_start (λ c. c == 46) s) ≡ false
unfolding trim_start
trim_start-dot [] = refl
trim_start-dot (c ∷ s) = ground (arith, trim_start-dot s)

all-base_name : (s : Text) → all (λ c. not (c == 47) && not (c == 92)) (base_name s) ≡ true
all-base_name [] = refl
all-base_name (c ∷ s) = ground (arith, all-base_name s)

-- Whatever a client calls an upload, its name is not empty, does not start with a dot, has at most 200
-- characters, and none of them is a control character, a quote, a slash or a backslash.
pub sanitise_name-plain :
    (name : Text)
    → (all is_plain (sanitise_name name) ≡ true)
      × (is_empty (sanitise_name name) ≡ false)
      × (starts_with_dot (sanitise_name name) ≡ false)
      × (length (sanitise_name name) ≤ 200)
unfolding sanitise_name
sanitise_name-plain name = elim (Bool-cases (is_empty trimmed)) [
  | inl nothing ↦ rw (nothing, sanitise_name) (refl, refl, refl, omega arith)
  | inr something ↦
      rw (something, sanitise_name) (plain, something, trim_start-dot (trim cleaned), short)
]
  where
    kept : ℕ → Bool
    kept c = not (is_control c) && (not (c == 34) && (not (c == 10) && not (c == 13)))

    cleaned : Text
    cleaned = take 200 (filter kept (base_name name))

    trimmed : Text
    trimmed = trim_start (λ c. c == 46) (trim cleaned)

    plain : all is_plain trimmed ≡ true
    plain =
        all-trim_start is_plain (λ c. c == 46) (trim cleaned)
          (all-trim is_plain cleaned (
            all-take is_plain 200 (filter kept (base_name name)) (
              all-filter is_plain kept (λ c. not (c == 47) && not (c == 92)) (base_name name)
                (λ c k s. ground arith) (all-base_name name))))

    short : length trimmed ≤ 200
    short = omega (
      arith,
      length-trim_start (λ c. c == 46) (trim cleaned),
      length-trim cleaned,
      length-take 200 (filter kept (base_name name)),
    )
