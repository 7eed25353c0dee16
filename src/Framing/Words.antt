-- ===== src/Framing/Words.antt =====
-- The fields of a header: 32-bit words and the comparison of bytes.
use dhava.Common.{ℕ, ◌<◌, ◌≡◌, refl, true, [], ◌∷◌, ◌++◌, arith}
use dhava.Backend.{Bytes}
use dhava.Framing.{u32_mod, pack_u32, unpack_u32, bytes_eq}

-- A number below 2³² is read back from its four bytes.
pub unpack_u32-pack_u32 : (n : ℕ) (rest : Bytes) → n < u32_mod → unpack_u32 (pack_u32 n ++ rest) ≡ n
unfolding unpack_u32 pack_u32
unpack_u32-pack_u32 n rest h = omega arith

-- Four bytes are written back from the number that they give, which is below 2³².
pub pack_u32-unpack_u32 :
    (a b c d : ℕ)
    → a < 256
    → b < 256
    → c < 256
    → d < 256
    → (pack_u32 (unpack_u32 (a ∷ b ∷ c ∷ d ∷ [])) ≡ a ∷ b ∷ c ∷ d ∷ [])
      × (unpack_u32 (a ∷ b ∷ c ∷ d ∷ []) < u32_mod)
unfolding unpack_u32 pack_u32
pack_u32-unpack_u32 a b c d ha hb hc hd = (ground arith, omega arith)

pub bytes_eq_self : (s : Bytes) → bytes_eq s s ≡ true
unfolding bytes_eq
bytes_eq_self [] = refl
bytes_eq_self (a ∷ s) = ground (arith, bytes_eq_self s)

pub eq_of_bytes_eq : (s t : Bytes) → bytes_eq s t ≡ true → s ≡ t
unfolding bytes_eq
eq_of_bytes_eq [] [] h = refl
eq_of_bytes_eq [] (b ∷ t) h = cc
eq_of_bytes_eq (a ∷ s) [] h = cc
eq_of_bytes_eq (a ∷ s) (b ∷ t) h = ground (arith, eq_of_bytes_eq s t (ground arith))
