-- ===== src/Parsers/Tokens/Searching.antt =====
-- adapters/parsers/xml.py, `_XmlTokenGuard`: a search in a text and in the text with more behind it, and
-- counts that are charged at once or in two parts.
use makolet.Prelude.{
  ℕ, suc, ◌+◌, ◌≤◌, ◌≡◌, inl, inr, refl, Bool, true, false, Option, none, some, [], ◌∷◌, ◌++◌,
  length, Bool-cases, arith,
}
use makolet.Domain.Values.{Text}
use makolet.Exec.{ok}
use makolet.Parsers.Tokens.{
  TokenLimits, TokenMode, token_comment, token_cdata, token_processing_instruction, TokenGuard,
  ◌>>=◌, add_text, add_quoted, add_token, after_character, until, after_delimiter, one_later,
  found_here, find,
}
use makolet.Parsers.Tokens.Progress.{IsInside, find-IsInside}

-- A search that ends before the cut, and one that goes on behind it.
abbrev pub joined : ℕ × Text → (ℕ → Bool) → Text → ℕ × Text
joined (n, []) test b = (n + (until test b).0, (until test b).1)
joined (n, c ∷ rest) test b = (n, c ∷ (rest ++ b))

joined-after :
    (c : ℕ) (p : ℕ × Text) (test : ℕ → Bool) (b : Text)
    → after_character c (joined p test b) ≡ joined (after_character c p) test b
joined-after c (n, []) test b = ground arith
joined-after c (n, x ∷ rest) test b = refl

pub until-append :
    (test : ℕ → Bool) (a b : Text) → until test (a ++ b) ≡ joined (until test a) test b
unfolding until
until-append test [] b = ground arith
until-append test (c ∷ cs) b = elim (Bool-cases (test c)) [
  | inl e ↦ rw e refl
  | inr e ↦ rw (e, until-append test cs b) (joined-after c (until test cs) test b)
]

after_delimiter-append :
    (delimiter a b rest : Text)
    → after_delimiter delimiter a ≡ some rest
    → after_delimiter delimiter (a ++ b) ≡ some (rest ++ b)
unfolding after_delimiter
after_delimiter-append [] a b rest e = let same : a ≡ rest = cc e in rw same refl
after_delimiter-append (d ∷ ds) [] b rest e = absurd (cc e)
after_delimiter-append (d ∷ ds) (c ∷ cs) b rest e =
    ground (arith, after_delimiter-append ds cs b rest)

after_delimiter-none :
    (delimiter a b : Text)
    → length delimiter ≤ length a
    → after_delimiter delimiter a ≡ none
    → after_delimiter delimiter (a ++ b) ≡ none
unfolding after_delimiter
after_delimiter-none [] a b h e = absurd (cc e)
after_delimiter-none (d ∷ ds) [] b h e = absurd (omega arith)
after_delimiter-none (d ∷ ds) (c ∷ cs) b h e = ground (arith, after_delimiter-none ds cs b)

found-append :
    (delimiter : Text) (c : ℕ) (cs b : Text) (here : Option Text) (later : Option (ℕ × Text))
    (n : ℕ) (rest : Text)
    → after_delimiter delimiter (c ∷ cs) ≡ here
    → IsInside delimiter cs later
    → ((m : ℕ) (r : Text) → later ≡ some (m, r) → find delimiter (cs ++ b) ≡ some (m, r ++ b))
    → found_here here (one_later later) ≡ some (n, rest)
    → found_here (after_delimiter delimiter (c ∷ (cs ++ b))) (one_later (find delimiter (cs ++ b)))
      ≡ some (n, rest ++ b)
found-append delimiter c cs b (some r) later n rest e inside goes h =
    let first : 0 ≡ n = cc h in
    let same : r ≡ rest = cc h in
    rw (after_delimiter-append delimiter (c ∷ cs) b r e, first, same) refl
found-append delimiter c cs b none (some (m, r)) n rest e inside goes h =
    let later : suc m ≡ n = cc h in
    let same : r ≡ rest = cc h in
    rw
      (
        after_delimiter-none delimiter (c ∷ cs) b (omega (arith, inside)) e,
        goes m r refl,
        later,
        same,
      )
      refl
found-append delimiter c cs b none none n rest e inside goes h = absurd (cc h)

pub find-append :
    (delimiter a b : Text) (n : ℕ) (rest : Text)
    → find delimiter a ≡ some (n, rest)
    → find delimiter (a ++ b) ≡ some (n, rest ++ b)
unfolding find
find-append delimiter [] b n rest e = absurd (cc e)
find-append delimiter (c ∷ cs) b n rest e =
    found-append delimiter c cs b _ (find delimiter cs) n rest refl (find-IsInside delimiter cs)
      (λ m r later. find-append delimiter cs b m r later) e

-- Modes in which a text may be cut.
abbrev pub is_plain : TokenMode → Bool
is_plain token_comment = false
is_plain token_cdata = false
is_plain token_processing_instruction = false
is_plain _ = true

pub add_text-add :
    (limits : TokenLimits) (n k : ℕ) (g h : TokenGuard)
    → add_text limits n g ≡ ok h
    → (add_text limits (n + k) g ≡ add_text limits k h) × (h.mode ≡ g.mode)
unfolding add_text
add_text-add limits n k g h e = ground arith

pub add_token-add :
    (limits : TokenLimits) (n k : ℕ) (g h : TokenGuard)
    → add_token limits n g ≡ ok h
    → (add_token limits (n + k) g ≡ add_token limits k h) × (h.mode ≡ g.mode) × (h.quote ≡ g.quote)
unfolding add_token
add_token-add limits n k g h e = ground arith

pub cdata_mode :
    (limits : TokenLimits) (n : ℕ) (g h : TokenGuard)
    → (add_text limits n g >>= add_token limits n) ≡ ok h
    → h.mode ≡ g.mode
unfolding add_token add_text
cdata_mode limits n g h e = ground arith

pub add_both-add :
    (limits : TokenLimits) (n k : ℕ) (g h : TokenGuard)
    → (add_token limits n g >>= add_quoted limits n) ≡ ok h
    → ((add_token limits (n + k) g >>= add_quoted limits (n + k))
        ≡ (add_token limits k h >>= add_quoted limits k))
      × (h.mode ≡ g.mode)
      × (h.quote ≡ g.quote)
unfolding add_token add_quoted
add_both-add limits n k g h e = ground arith
