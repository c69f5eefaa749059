-- ===== src/Domain/Gtin/Laws.antt =====
-- `is_valid_gtin` is the checksum rule of the GTIN standard, and finds every wrong digit.
use makolet.Prelude.{
  ℕ, ◌+◌, ◌-◌, ◌*◌, ◌%◌, ◌≤◌, ◌<◌, ◌≡◌, ◌↔◌, ◌⊎◌, inl, inr, ◌==◌, ==_iff, ◌&&◌, if◌then◌else◌, refl,
  sym, ap, ◌∙◌, Bool, true, false, List, [], ◌∷◌, ◌++◌, length, All, arith, reverse, reverse-append,
  reverse-cons, append_assoc,
}
use makolet.Domain.Gtin.{
  is_digit, all_digits, last_character, without_last, checksum_sum, gtin_length, is_valid_gtin,
}

-- The rule of the GTIN standard: the length, ASCII digits only, and the digits from the right on,
-- weighed 1 and 3 in turn.
abbrev pub IsLength : ℕ → Type 0
IsLength n = (n ≡ 8) ⊎ (n ≡ 12) ⊎ (n ≡ 13) ⊎ (n ≡ 14)

abbrev pub IsDigit : ℕ → Type 0
IsDigit c = (48 ≤ c) × (c ≤ 57)

abbrev pub weighted_by_pairs : List ℕ → ℕ
weighted_by_pairs [] = 0
weighted_by_pairs (c ∷ []) = c - 48
weighted_by_pairs (c ∷ d ∷ rest) = (c - 48) + 3 * (d - 48) + weighted_by_pairs rest

abbrev pub weighted_sum : List ℕ → ℕ
weighted_sum value = weighted_by_pairs (reverse value)

checksum_sum-weighted : (digits : List ℕ) → checksum_sum false digits ≡ weighted_by_pairs digits
unfolding checksum_sum
checksum_sum-weighted [] = refl
checksum_sum-weighted (c ∷ []) = omega arith
checksum_sum-weighted (c ∷ d ∷ rest) = omega (arith, checksum_sum-weighted rest)

reverse-last :
    (c : ℕ) (cs : List ℕ) → reverse (c ∷ cs) ≡ last_character c cs ∷ reverse (without_last c cs)
unfolding last_character without_last
reverse-last c [] = refl
reverse-last c (d ∷ ds) =
    reverse-append (c ∷ []) (d ∷ ds)
    ∙ ap (λ l. l ++ c ∷ []) (reverse-last d ds)
    ∙ ap (λ l. last_character d ds ∷ l) (sym (reverse-append (c ∷ []) (without_last d ds)))

last-digit :
    (c : ℕ) (cs : List ℕ) → all_digits (c ∷ cs) ≡ true → is_digit (last_character c cs) ≡ true
unfolding all_digits last_character
last-digit c [] h = ground arith
last-digit c (d ∷ ds) h = last-digit d ds (ground arith)

-- The check digit completes the weighted sum to a multiple of ten.
check_digit :
    (a : Bool) (sum d : ℕ)
    → (a ≡ true → d < 10)
    → ((if a then (10 - sum % 10) % 10 == d else false) ≡ true)
      ↔ ((a ≡ true) × ((d * 1 + sum) % 10 ≡ 0))
check_digit true sum d h = (
  λ e. (refl, omega (arith, (==_iff ((10 - sum % 10) % 10) d).0 e)),
  λ p. (==_iff ((10 - sum % 10) % 10) d).1 (omega (arith, p.1, h refl)),
)
check_digit false sum d h = (λ e. cc, λ p. p.0)

digit_value : (c : ℕ) → is_digit c ≡ true → c - 48 < 10
unfolding is_digit
digit_value c h = ground arith

and_iff : (a b : Bool) → ((a && b) ≡ true) ↔ ((a ≡ true) × (b ≡ true))
and_iff a b = ground arith

-- The tests of the code and the sum with the check digit.
checked_iff :
    (value : List ℕ)
    → (is_valid_gtin value ≡ true) ↔ (
        (gtin_length value ≡ true)
        × (all_digits value ≡ true)
        × (checksum_sum false (reverse value) % 10 ≡ 0))
checked_iff [] = (λ h. unfold is_valid_gtin in cc, λ h. cc (h.0))
checked_iff (c ∷ cs) =
    let g = gtin_length (c ∷ cs) in
    let a = all_digits (c ∷ cs) in
    let r =
      check_digit (g && a) (checksum_sum true (reverse (without_last c cs)))
        (last_character c cs - 48)
        (λ h. digit_value (last_character c cs) (last-digit c cs ((and_iff g a).0 h).1)) in
    rw (reverse-last c cs) (
      unfold is_valid_gtin in
      (
        λ h. let q = r.0 h in let p = (and_iff g a).0 q.0 in (p.0, p.1, q.1),
        λ h. r.1 ((and_iff g a).1 (h.0, h.1), h.2),
      ))

gtin_length_iff : (value : List ℕ) → (gtin_length value ≡ true) ↔ IsLength (length value)
gtin_length_iff value = ground arith

all_digits-All : (value : List ℕ) → (all_digits value ≡ true) ↔ All IsDigit value
unfolding all_digits is_digit
all_digits-All [] = (λ _. tt, λ _. refl)
all_digits-All (c ∷ cs) = ground (arith, all_digits-All cs)

-- A text is a valid GTIN exactly if it has 8, 12, 13 or 14 characters, all of them digits, and the
-- sum of its digits, weighed 1 and 3 in turn from the right, is a multiple of ten.
pub is_valid_gtin_iff :
    (value : List ℕ)
    → (is_valid_gtin value ≡ true)
      ↔ (IsLength (length value) × All IsDigit value × (weighted_sum value % 10 ≡ 0))
is_valid_gtin_iff value =
    let sum = ap (λ n. n % 10) (checksum_sum-weighted (reverse value)) in
    (
      (λ h.
          let p = (checked_iff value).0 h in
          ((gtin_length_iff value).0 p.0, (all_digits-All value).0 p.1, sym sum ∙ p.2)),
      (λ h.
          (checked_iff value).1
            ((gtin_length_iff value).1 h.0, (all_digits-All value).1 h.1, sum ∙ h.2)),
    )

-- A sum with one place left open.
checksum_place :
    (even : Bool) (ls rs : List ℕ)
    → (w k : ℕ) × ((w ≡ 1) ⊎ (w ≡ 3))
      × ((d : ℕ) → checksum_sum even (ls ++ d ∷ rs) ≡ k + (d - 48) * w)
unfolding checksum_sum
checksum_place true [] rs = (3, checksum_sum false rs, inr refl, λ d. omega arith)
checksum_place false [] rs = (1, checksum_sum true rs, inl refl, λ d. omega arith)
checksum_place true (c ∷ ls) rs =
    let (w, k, one, e) = checksum_place false ls rs in
    (w, (c - 48) * 3 + k, one, λ d. omega (arith, e d))
checksum_place false (c ∷ ls) rs =
    let (w, k, one, e) = checksum_place true ls rs in
    (w, (c - 48) * 1 + k, one, λ d. omega (arith, e d))

reverse-middle : (xs ys : List ℕ) (d : ℕ) → reverse (xs ++ d ∷ ys) ≡ reverse ys ++ d ∷ reverse xs
reverse-middle xs ys d =
    rw (reverse-append xs (d ∷ ys), reverse-cons d ys)
      (append_assoc (reverse ys) (d ∷ []) (reverse xs))

all_digits-middle : (xs ys : List ℕ) (d : ℕ) → all_digits (xs ++ d ∷ ys) ≡ true → is_digit d ≡ true
unfolding all_digits
all_digits-middle [] ys d h = ground arith
all_digits-middle (x ∷ xs) ys d h = all_digits-middle xs ys d (ground arith)

digit_range : (c : ℕ) → is_digit c ≡ true → (48 ≤ c) × (c ≤ 57)
unfolding is_digit
digit_range c h = ground arith

same_digit :
    (w k d e : ℕ)
    → (w ≡ 1) ⊎ (w ≡ 3)
    → is_digit d ≡ true
    → is_digit e ≡ true
    → (k + (d - 48) * w) % 10 ≡ 0
    → (k + (e - 48) * w) % 10 ≡ 0
    → d ≡ e
same_digit w k d e (inl one) hd he p q =
    omega (arith, digit_range d hd, digit_range e he, rw one at p, rw one at q)
same_digit w k d e (inr three) hd he p q =
    omega (arith, digit_range d hd, digit_range e he, rw three at p, rw three at q)

-- Two valid codes that agree but for one character are equal: the check finds every wrong digit.
pub single_error :
    (xs ys : List ℕ) (d e : ℕ)
    → is_valid_gtin (xs ++ d ∷ ys) ≡ true
    → is_valid_gtin (xs ++ e ∷ ys) ≡ true
    → d ≡ e
single_error xs ys d e p q =
    let (_, pd, ps) = (checked_iff (xs ++ d ∷ ys)).0 p in
    let (_, qd, qs) = (checked_iff (xs ++ e ∷ ys)).0 q in
    let (w, k, one, at) = checksum_place false (reverse ys) (reverse xs) in
    same_digit w k d e one (all_digits-middle xs ys d pd) (all_digits-middle xs ys e qd)
      (rw (reverse-middle xs ys d, at d) at ps) (rw (reverse-middle xs ys e, at e) at qs)
