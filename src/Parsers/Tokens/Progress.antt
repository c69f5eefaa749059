-- ===== src/Parsers/Tokens/Progress.antt =====
-- adapters/parsers/xml.py, `_XmlTokenGuard`: a scan takes a character, or is followed by one that does.
use makolet.Prelude.{
  ℕ, ◌+◌, ◌*◌, ◌≤◌, ◌<◌, ◌≡◌, refl, ap, Bool, Option, none, some, [], ◌∷◌, ◌++◌, length, ◌==◌,
  if_cases, if◌then◌else◌, arith,
}
use makolet.Domain.Values.{Text, literal}
use makolet.Exec.{Result, ok, err}
use makolet.Parsers.Tokens.{
  TokenLimits, TokenMode, token_text, token_open, token_element, token_declaration, token_comment,
  token_cdata, token_processing_instruction, TokenGuard, ◌>>=◌, add_text, add_quoted, add_token,
  finish_markup, until, after_delimiter, one_later, found_here, find, Scanned, text_at, scan_open,
  quoted_at, is_special, special_at, scan_element, declared, delimited_at, cdata_at, scan_in, scan,
}

-- A search splits the text.
until-length :
    (test : ℕ → Bool) (text : Text) → (until test text).0 + length (until test text).1 ≡ length text
unfolding until
until-length test [] = omega arith
until-length test (c ∷ cs) =
    if_cases {A = ℕ × Text} (λ p. p.0 + length p.1 ≡ length (c ∷ cs)) (test c) _ _
      (λ _. omega arith) (λ _. omega (arith, until-length test cs))

after_delimiter-length :
    (delimiter text rest : Text)
    → after_delimiter delimiter text ≡ some rest
    → length delimiter + length rest ≡ length text
unfolding after_delimiter
after_delimiter-length [] text rest h = let e : text ≡ rest = cc h in omega (arith, ap length e)
after_delimiter-length (d ∷ ds) [] rest h = absurd (cc h)
after_delimiter-length (d ∷ ds) (c ∷ cs) rest h = ground (arith, after_delimiter-length ds cs rest)

-- What a search for a delimiter finds lies within the text.
abbrev pub IsInside : Text → Text → Option (ℕ × Text) → Type 0
IsInside delimiter text none = Unit
IsInside delimiter text (some (n, rest)) = n + length delimiter + length rest ≡ length text

found-IsInside :
    (delimiter : Text) (c : ℕ) (cs : Text) (here : Option Text) (later : Option (ℕ × Text))
    → after_delimiter delimiter (c ∷ cs) ≡ here
    → IsInside delimiter cs later
    → IsInside delimiter (c ∷ cs) (found_here here (one_later later))
found-IsInside delimiter c cs (some rest) later e h =
    omega (arith, after_delimiter-length delimiter (c ∷ cs) rest e)
found-IsInside delimiter c cs none none e h = tt
found-IsInside delimiter c cs none (some (n, rest)) e h = omega (arith, h)

pub find-IsInside : (delimiter text : Text) → IsInside delimiter text (find delimiter text)
unfolding find
find-IsInside delimiter [] = tt
find-IsInside delimiter (c ∷ cs) =
    found-IsInside delimiter c cs _ _ refl (find-IsInside delimiter cs)

-- Where a scan leaves off: the bound on the rounds that are left falls.
abbrev pub measure : TokenMode → Text → ℕ
measure token_open text = 2 * length text + 1
measure _ text = 2 * length text

abbrev pub Falls : TokenMode → Text → Scanned → Type 0
Falls mode text (ok (g, rest)) = measure g.mode rest < measure mode text
Falls mode text (err e) = Unit

-- A mode that is not `token_open` has the smaller measure.
pub measure-le : (mode : TokenMode) (text : Text) → measure mode text ≤ 2 * length text + 1
measure-le token_text text = omega arith
measure-le token_open text = omega arith
measure-le token_element text = omega arith
measure-le token_declaration text = omega arith
measure-le token_comment text = omega arith
measure-le token_cdata text = omega arith
measure-le token_processing_instruction text = omega arith

pub measure-ge : (mode : TokenMode) (text : Text) → 2 * length text ≤ measure mode text
measure-ge token_text text = omega arith
measure-ge token_open text = omega arith
measure-ge token_element text = omega arith
measure-ge token_declaration text = omega arith
measure-ge token_comment text = omega arith
measure-ge token_cdata text = omega arith
measure-ge token_processing_instruction text = omega arith

-- Any scan that ends at a shorter text falls, whatever its mode becomes.
shorter-Falls :
    (mode : TokenMode) (text : Text) (m : Result TokenGuard) (after : TokenGuard → TokenGuard)
    (rest : Text)
    → length rest < length text
    → Falls mode text (m >>= λ h. ok (after h, rest))
shorter-Falls mode text (err e) after rest h = tt
shorter-Falls mode text (ok g) after rest h =
    omega (arith, measure-le (after g).mode rest, measure-ge mode text)

module _ (limits : TokenLimits) where
  text_at-Falls :
      (mode : TokenMode) (text : Text) (p : ℕ × Text) (g : TokenGuard)
      → 0 < length text
      → p.0 + length p.1 ≡ length text
      → Falls mode text (text_at limits p g)
  text_at-Falls mode text (n, []) g some_text split =
      shorter-Falls mode text (add_text limits n g) (λ h. h) [] (omega arith)
  text_at-Falls mode text (n, c ∷ rest) g some_text split =
      shorter-Falls mode text (add_text limits n g) _ rest (omega arith)

  quoted_at-Falls :
      (mode : TokenMode) (text : Text) (p : ℕ × Text) (g : TokenGuard)
      → 0 < length text
      → p.0 + length p.1 ≡ length text
      → Falls mode text (quoted_at limits p g)
  quoted_at-Falls mode text (n, []) g some_text split =
      shorter-Falls mode text (add_token limits n g >>= add_quoted limits n) (λ h. h) []
        (omega arith)
  quoted_at-Falls mode text (n, c ∷ rest) g some_text split =
      shorter-Falls mode text (add_token limits n g >>= add_quoted limits n >>= add_token limits 1)
        _ rest (omega arith)

  special-Falls :
      (mode : TokenMode) (text : Text) (c : ℕ) (m : Result TokenGuard) (rest : Text)
      → length rest < length text
      → Falls mode text (
          m >>= λ h.
          if c == b'>'
          then ok (finish_markup h, rest)
          else ok (record h { quote = some c; quoted_characters = 0 }, rest))
  special-Falls mode text c (err e) rest h = tt
  special-Falls mode text c (ok g) rest h =
      if_cases (Falls mode text) (c == b'>') _ _
        (λ _. shorter-Falls mode text (ok g) finish_markup rest h)
        (λ _.
          shorter-Falls mode text (ok g) (λ g. record g { quote = some c; quoted_characters = 0 })
            rest h)

  special_at-Falls :
      (mode : TokenMode) (text : Text) (p : ℕ × Text) (g : TokenGuard)
      → 0 < length text
      → p.0 + length p.1 ≡ length text
      → Falls mode text (special_at limits p g)
  special_at-Falls mode text (n, []) g some_text split =
      shorter-Falls mode text (add_token limits n g) (λ h. h) [] (omega arith)
  special_at-Falls mode text (n, c ∷ rest) g some_text split =
      special-Falls mode text c (add_token limits (n + 1) g) rest (omega arith)

  scan_element-Falls :
      (mode : TokenMode) (q : Option ℕ) (text : Text) (g : TokenGuard)
      → 0 < length text
      → Falls mode text (scan_element limits q text g)
  scan_element-Falls mode none text g some_text =
      special_at-Falls mode text (until is_special text) g some_text (until-length is_special text)
  scan_element-Falls mode (some q) text g some_text =
      quoted_at-Falls mode text (until (λ c. c == q) text) g some_text
        (until-length (λ c. c == q) text)

  scan_open-Falls :
      (c : ℕ) (cs : Text) (g : TokenGuard) → Falls token_open (c ∷ cs) (scan_open limits c cs g)
  scan_open-Falls c cs g =
      if_cases (Falls token_open (c ∷ cs)) (c == b'?') _ _
        (λ _. shorter-Falls token_open (c ∷ cs) (add_token limits 1 g) _ cs (omega arith))
        (λ _.
          if_cases (Falls token_open (c ∷ cs)) (c == b'!') _ _
            (λ _. shorter-Falls token_open (c ∷ cs) (add_token limits 1 g) _ cs (omega arith))
            (λ _. omega arith))

  delimited_at-Falls :
      (mode : TokenMode) (delimiter text : Text) (o : Option (ℕ × Text)) (g : TokenGuard)
      → 0 < length text
      → 0 < length delimiter
      → IsInside delimiter text o
      → Falls mode text (delimited_at limits delimiter text o g)
  delimited_at-Falls mode delimiter text none g some_text some_delimiter inside =
      shorter-Falls mode text (add_token limits (length text) g) (λ h. h) [] some_text
  delimited_at-Falls mode delimiter text (some (n, rest)) g some_text some_delimiter inside =
      shorter-Falls mode text (add_token limits (n + length delimiter) g) finish_markup rest
        (omega (arith, inside))

  cdata_at-Falls :
      (mode : TokenMode) (text : Text) (o : Option (ℕ × Text)) (g : TokenGuard)
      → 0 < length text
      → IsInside (literal "]]>") text o
      → Falls mode text (cdata_at limits text o g)
  cdata_at-Falls mode text none g some_text inside =
      shorter-Falls mode text (add_text limits (length text) g >>= add_token limits (length text))
        (λ h. h) [] some_text
  cdata_at-Falls mode text (some (n, rest)) g some_text inside =
      shorter-Falls mode text (add_text limits n g >>= add_token limits n >>= add_token limits 3)
        finish_markup rest (omega (arith, inside))

  scan_in-Falls :
      (mode : TokenMode) (c : ℕ) (cs : Text) (g : TokenGuard)
      → Falls mode (c ∷ cs) (scan_in limits mode c cs g)
  scan_in-Falls token_text c cs g =
      text_at-Falls token_text (c ∷ cs) _ g (omega arith) (until-length (λ c. c == b'<') (c ∷ cs))
  scan_in-Falls token_open c cs g = scan_open-Falls c cs g
  scan_in-Falls token_element c cs g =
      scan_element-Falls token_element g.quote (c ∷ cs) g (omega arith)
  scan_in-Falls token_declaration c cs g =
      shorter-Falls token_declaration (c ∷ cs) (add_token limits 1 g)
        (λ h. declared (h.declaration_prefix ++ c ∷ []) h) cs (omega arith)
  scan_in-Falls token_comment c cs g =
      delimited_at-Falls token_comment (literal "-->") (c ∷ cs) _ g (omega arith) (omega arith)
        (find-IsInside (literal "-->") (c ∷ cs))
  scan_in-Falls token_cdata c cs g =
      cdata_at-Falls token_cdata (c ∷ cs) _ g (omega arith) (find-IsInside (literal "]]>") (c ∷ cs))
  scan_in-Falls token_processing_instruction c cs g =
      delimited_at-Falls token_processing_instruction (literal "?>") (c ∷ cs) _ g (omega arith)
        (omega arith) (find-IsInside (literal "?>") (c ∷ cs))

  pub scan-Falls : (c : ℕ) (cs : Text) (g : TokenGuard) → Falls g.mode (c ∷ cs) (scan limits c cs g)
  unfolding scan
  scan-Falls c cs g = scan_in-Falls g.mode c cs g
