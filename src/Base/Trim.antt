-- ===== src/Base/Trim.antt =====
-- `strings.Split` by one byte and `strings.TrimSpace`, on texts as bytes in UTF-8.
use Prim.Native.Nat.{ℕ, zero, suc}
use mathlib.Core.Bool.{Bool, ◌&&◌, ◌||◌}
use mathlib.Core.List.{List, [], ◌∷◌, reverse}
use fortsa.Base.Tests.{eqb, leb, if◌then◌else◌}
use fortsa.Base.Text.{Bytes}

-- The byte is put before the first part.
abbrev before_first : ℕ → List Bytes → List Bytes
before_first x [] = (x ∷ []) ∷ []
before_first x (part ∷ parts) = (x ∷ part) ∷ parts

-- `strings.Split(s, sep)`, for a separator of one byte.
unfoldable pub split : Bytes → ℕ → List Bytes
split [] sep = [] ∷ []
split (x ∷ s) sep =
    let parts = split s sep in if eqb x sep then [] ∷ parts else before_first x parts

-- The spaces of one byte: '\t', '\n', '\v', '\f', '\r' and ' '.
abbrev pub is_space_byte : ℕ → Bool
is_space_byte a = leb 9 a && leb a 13 || eqb a 32

-- U+0085 and U+00A0, which have two bytes.
abbrev pub is_space_pair : ℕ → ℕ → Bool
is_space_pair a b = eqb a 0xC2 && (eqb b 0x85 || eqb b 0xA0)

-- U+1680, U+2000 to U+200A, U+2028, U+2029, U+202F, U+205F and U+3000, which have three.
abbrev pub is_space_triple : ℕ → ℕ → ℕ → Bool
is_space_triple a b c =
    eqb a 0xE1 && eqb b 0x9A && eqb c 0x80
    || eqb a 0xE2
      && eqb b 0x80
      && (leb 0x80 c && leb c 0x8A || eqb c 0xA8 || eqb c 0xA9 || eqb c 0xAF)
    || eqb a 0xE2 && eqb b 0x81 && eqb c 0x9F
    || eqb a 0xE3 && eqb b 0x80 && eqb c 0x80

-- How many bytes the space at the front of a text has; 0 where none stands there.
unfoldable pub space_width : Bytes → ℕ
space_width [] = 0
space_width (a ∷ []) = if is_space_byte a then 1 else 0
space_width (a ∷ b ∷ []) = if is_space_byte a then 1 else if is_space_pair a b then 2 else 0
space_width (a ∷ b ∷ c ∷ s) =
    if is_space_byte a
    then 1
    else if is_space_pair a b
    then 2
    else if is_space_triple a b c
    then 3
    else 0

-- The same at the end of a text, which is given backwards.
unfoldable pub space_width_back : Bytes → ℕ
space_width_back [] = 0
space_width_back (a ∷ []) = if is_space_byte a then 1 else 0
space_width_back (b ∷ a ∷ []) = if is_space_byte b then 1 else if is_space_pair a b then 2 else 0
space_width_back (c ∷ b ∷ a ∷ s) =
    if is_space_byte c
    then 1
    else if is_space_pair b c
    then 2
    else if is_space_triple a b c
    then 3
    else 0

-- The text behind its spaces, which `width` finds. The number counts the bytes that are left of a
-- space that was found.
unfoldable pub drop_spaces : (Bytes → ℕ) → ℕ → Bytes → Bytes
drop_spaces width k [] = []
drop_spaces width (suc k) (c ∷ s) = drop_spaces width k s
drop_spaces width zero (c ∷ s) = elim (width (c ∷ s)) [
  | zero ↦ c ∷ s
  | suc k ↦ drop_spaces width k s
]

-- `strings.TrimSpace(s)`
unfoldable pub trim_space : Bytes → Bytes
unfolding drop_spaces
trim_space s = reverse (drop_spaces space_width_back 0 (reverse (drop_spaces space_width 0 s)))
