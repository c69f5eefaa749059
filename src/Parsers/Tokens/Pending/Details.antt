-- ===== src/Parsers/Tokens/Pending/Details.antt =====
-- adapters/parsers/xml.py, `_XmlTokenGuard`: what a token looks like, as it becomes longer.
use makolet.Prelude.{
  ℕ, ◌+◌, ◌≡◌, refl, sym, ap, ◌∙◌, false, Option, none, some, ◌∷◌, ◌++◌, append_assoc, length,
  length-append, All, All-append, ◌==◌, arith,
}
use makolet.Domain.Values.{Text, literal}
use makolet.Parsers.Tokens.{
  TokenLimits, TokenMode, token_element, token_comment, token_cdata, token_processing_instruction,
  TokenGuard,
}
use makolet.Parsers.Tokens.Pending.{EndsInValue, IsQuoted, Begins, HasForm, HasDetails}
use makolet.Parsers.Tokens.Pending.Growth.{Grows}

abbrev pub DetailsIn : TokenMode → Option ℕ → ℕ → ℕ → Text → Text → Type 0
DetailsIn mode quote quoted text prefix pending =
    IsQuoted mode quote quoted pending × HasForm mode text prefix pending

-- The details of a guard, whose mode and quote are known.
pub details_in :
    (g : TokenGuard) (mode : TokenMode) (quote : Option ℕ) (pending : Text)
    → g.mode ≡ mode
    → g.quote ≡ quote
    → HasDetails g pending
    → DetailsIn mode quote g.quoted_characters g.text_characters g.declaration_prefix pending
details_in g mode quote pending e f d = rw (e, f) at d

pub details_of :
    (g : TokenGuard) (mode : TokenMode) (quote : Option ℕ) (pending : Text)
    → g.mode ≡ mode
    → g.quote ≡ quote
    → DetailsIn mode quote g.quoted_characters g.text_characters g.declaration_prefix pending
    → HasDetails g pending
details_of g mode quote pending e f d = rw (e, f) d

EndsInValue-append :
    (quote n : ℕ) (pending part : Text)
    → All (λ c. (c == quote) ≡ false) part
    → EndsInValue quote n pending
    → EndsInValue quote (n + length part) (pending ++ part)
EndsInValue-append quote n pending part clear v = record {
  head = v.head;
  value = v.value ++ part;
  cut = ap (λ p. p ++ part) v.cut ∙ append_assoc v.head (quote ∷ v.value) part;
  size = omega (arith, v.size, length-append v.value part);
  inside = All-append (λ c. (c == quote) ≡ false) v.value part v.inside clear;
}

Begins-append :
    (prefix : Text) (n : ℕ) (pending part : Text)
    → Begins prefix n pending
    → Begins prefix (n + length part) (pending ++ part)
Begins-append prefix n pending part b = record {
  inner = b.inner ++ part;
  cut = ap (λ p. p ++ part) b.cut ∙ append_assoc prefix b.inner part;
  size = omega (arith, b.size, length-append b.inner part);
}

module _ (limits : TokenLimits) (g h : TokenGuard) (pending part : Text) where
  pub longer_element :
      (n : ℕ)
      → g.mode ≡ token_element
      → g.quote ≡ none
      → Grows limits n 0 0 g h
      → HasDetails g pending
      → HasDetails h (pending ++ part)
  longer_element n e f w d =
      let (zero_quoted, _) = details_in g token_element none pending e f d in
      details_of h token_element none (pending ++ part) (w.mode ∙ e) (w.quote ∙ f)
        (omega (arith, w.more_quoted, zero_quoted), tt)

  pub longer_value :
      (n quote : ℕ)
      → g.mode ≡ token_element
      → g.quote ≡ some quote
      → length part ≡ n
      → All (λ c. (c == quote) ≡ false) part
      → Grows limits n 0 n g h
      → HasDetails g pending
      → HasDetails h (pending ++ part)
  longer_value n quote e f size clear w d =
      let (value, _) = details_in g token_element (some quote) pending e f d in
      let more : g.quoted_characters + length part ≡ h.quoted_characters =
        omega (arith, w.more_quoted, size) in
      details_of h token_element (some quote) (pending ++ part) (w.mode ∙ e) (w.quote ∙ f)
        (rw (sym more) (EndsInValue-append quote g.quoted_characters pending part clear value), tt)

  pub longer_comment :
      (n : ℕ)
      → g.mode ≡ token_comment
      → Grows limits n 0 0 g h
      → HasDetails g pending
      → HasDetails h (pending ++ part)
  longer_comment n e w d =
      let ((no_quote, zero_quoted), (k, begins)) =
        details_in g token_comment g.quote pending e refl d in
      details_of h token_comment h.quote (pending ++ part) (w.mode ∙ e) refl (
        (w.quote ∙ no_quote, omega (arith, w.more_quoted, zero_quoted)),
        (k + length part, Begins-append (literal "<!--") k pending part begins),
      )

  pub longer_instruction :
      (n : ℕ)
      → g.mode ≡ token_processing_instruction
      → Grows limits n 0 0 g h
      → HasDetails g pending
      → HasDetails h (pending ++ part)
  longer_instruction n e w d =
      let ((no_quote, zero_quoted), (k, begins)) =
        details_in g token_processing_instruction g.quote pending e refl d in
      details_of h token_processing_instruction h.quote (pending ++ part) (w.mode ∙ e) refl (
        (w.quote ∙ no_quote, omega (arith, w.more_quoted, zero_quoted)),
        (k + length part, Begins-append (literal "<?") k pending part begins),
      )

  pub longer_cdata :
      (n : ℕ)
      → g.mode ≡ token_cdata
      → length part ≡ n
      → Grows limits n n 0 g h
      → HasDetails g pending
      → HasDetails h (pending ++ part)
  longer_cdata n e size w d =
      let ((no_quote, zero_quoted), begins) = details_in g token_cdata g.quote pending e refl d in
      let more : g.text_characters + length part ≡ h.text_characters =
        omega (arith, w.more_text, size) in
      details_of h token_cdata h.quote (pending ++ part) (w.mode ∙ e) refl (
        (w.quote ∙ no_quote, omega (arith, w.more_quoted, zero_quoted)),
        rw (sym more) (Begins-append (literal "<![CDATA[") g.text_characters pending part begins),
      )
