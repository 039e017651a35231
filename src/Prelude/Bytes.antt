-- ===== src/Prelude/Bytes.antt =====
-- Words as big-endian bytes: `u16` and `u32`, `to_be_bytes` and `from_be_bytes`.
use boa_voice.Prelude.{ℕ, ◌+◌, ◌*◌, ◌/◌, ◌%◌, ◌<◌, ◌≡◌, List, [], ◌∷◌, arith}

unfoldable pub be16 : ℕ → List ℕ
be16 n = (n / 0x100) ∷ (n % 0x100) ∷ []

unfoldable pub from_be16 : ℕ → ℕ → ℕ
from_be16 a b = a * 0x100 + b

unfoldable pub be32 : ℕ → List ℕ
be32 n = (n / 0x100_0000) ∷ (n / 0x1_0000 % 0x100) ∷ (n / 0x100 % 0x100) ∷ (n % 0x100) ∷ []

unfoldable pub from_be32 : ℕ → ℕ → ℕ → ℕ → ℕ
from_be32 a b c d = a * 0x100_0000 + b * 0x1_0000 + c * 0x100 + d

-- Every element is a byte.
abbrev pub AllBytes : List ℕ → Type 0
AllBytes [] = Unit {0}
AllBytes (b ∷ bs) = (b < 0x100) × AllBytes bs

pub from_be16-be16 : (n : ℕ) → from_be16 (n / 0x100) (n % 0x100) ≡ n
unfolding from_be16
from_be16-be16 n = omega arith

pub from_be32-be32 :
    (n : ℕ) → from_be32 (n / 0x100_0000) (n / 0x1_0000 % 0x100) (n / 0x100 % 0x100) (n % 0x100) ≡ n
unfolding from_be32
from_be32-be32 n = omega arith

pub be32-from_be32 :
    (a b c d : ℕ)
    → a < 0x100
    → b < 0x100
    → c < 0x100
    → d < 0x100
    → be32 (from_be32 a b c d) ≡ a ∷ b ∷ c ∷ d ∷ []
unfolding be32 from_be32
be32-from_be32 a b c d ha hb hc hd = ground arith

pub be16-from_be16 : (a b : ℕ) → b < 0x100 → be16 (from_be16 a b) ≡ a ∷ b ∷ []
unfolding be16 from_be16
be16-from_be16 a b hb = ground arith
