-- ===== src/Domain/Gtin.antt =====
-- domain/normalization.py: `is_valid_gtin`. A text is the list of its code points.
pub mod Laws
use makolet.Prelude.{
  ℕ, zero, suc, ◌+◌, ◌-◌, ◌*◌, ◌%◌, Bool, true, false, ◌&&◌, ◌||◌, List, [], ◌∷◌, length, leb, ◌==◌,
  if◌then◌else◌, reverse,
}

-- `character.isascii() and character.isdigit()`.
unfoldable pub is_digit : ℕ → Bool
is_digit c = leb 48 c && leb c 57

unfoldable pub all_digits : List ℕ → Bool
unfolding is_digit
all_digits [] = true
all_digits (c ∷ cs) = is_digit c && all_digits cs

-- `value[-1]`, of a text that is not empty.
unfoldable pub last_character : ℕ → List ℕ → ℕ
last_character c [] = c
last_character c (d ∷ rest) = last_character d rest

-- `value[:-1]`, of a text that is not empty.
unfoldable pub without_last : ℕ → List ℕ → List ℕ
without_last c [] = []
without_last c (d ∷ rest) = c ∷ without_last d rest

-- The loop over `enumerate(reversed(value[:-1]))`; the flag says that the offset is even.
unfoldable pub checksum_sum : Bool → List ℕ → ℕ
checksum_sum even [] = 0
checksum_sum true (c ∷ cs) = (c - 48) * 3 + checksum_sum false cs
checksum_sum false (c ∷ cs) = (c - 48) * 1 + checksum_sum true cs

abbrev pub gtin_length : List ℕ → Bool
gtin_length value = let n = length value in n == 8 || n == 12 || n == 13 || n == 14

unfoldable pub is_valid_gtin : List ℕ → Bool
unfolding all_digits last_character without_last checksum_sum
is_valid_gtin [] = false
is_valid_gtin (c ∷ cs) =
    if gtin_length (c ∷ cs) && all_digits (c ∷ cs)
    then (let expected = last_character c cs - 48 in
        let sum = checksum_sum true (reverse (without_last c cs)) in
        let calculated = (10 - sum % 10) % 10 in calculated == expected)
    else false
