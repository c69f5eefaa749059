-- ===== src/Parsers/Tokens/Pending.antt =====
-- adapters/parsers/xml.py, `_XmlTokenGuard`: what its counts stand for, the end of the text that was fed.
pub mod Splits
pub mod Growth
pub mod Details
pub mod Following
pub mod Scans
pub mod Feeding
use makolet.Prelude.{
  ◌⊎◌, inl, inr, ℕ, zero, suc, ◌+◌, ◌≤◌, ◌<◌, ◌≡◌, refl, sym, ap, subst, ◌∙◌, Bool, true, false,
  Option, none, some, List, [], ◌∷◌, ◌++◌, append-nil, append_assoc, length, length-append, All,
  All-append, ltb, ◌==◌, Bool-cases, if_cases, if◌then◌else◌, arith,
}
use makolet.Domain.Values.{Text, literal}
use makolet.Exec.{Result, ok, err}
use makolet.Parsers.Tokens.{
  TokenLimits, TokenMode, token_text, token_open, token_element, token_declaration, token_comment,
  token_cdata, token_processing_instruction, TokenGuard, new_guard, is_text,
}

pub record IsWithin (limits : TokenLimits) (g : TokenGuard) : Type 0 where
  pub token : g.token_characters ≤ limits.maximum_token_characters
  pub text : g.text_characters ≤ limits.maximum_field_characters
  pub quoted : g.quoted_characters ≤ limits.maximum_field_characters

-- Character data has no markup in it, and a token starts with its markup.
abbrev pub IsData : ℕ → Type 0
IsData c = (c == b'<') ≡ false

abbrev pub starts_markup : Text → Bool
starts_markup [] = false
starts_markup (c ∷ cs) = c == b'<'

abbrev pub HasShape : Bool → Text → Type 0
HasShape true pending = All IsData pending
HasShape false pending = starts_markup pending ≡ true

abbrev pub counted : Bool → TokenGuard → ℕ
counted true g = g.text_characters
counted false g = g.token_characters

-- Character data stands at the start or behind markup, which ends with a `>`.
abbrev pub EndsMarkup : Text → Type 0
EndsMarkup before = (before ≡ []) ⊎ ((front : Text) × (before ≡ front ++ literal ">"))

abbrev pub StandsBehind : Bool → Text → Type 0
StandsBehind true before = EndsMarkup before
StandsBehind false before = Unit

-- The text ends in the value of an attribute: what stands behind the quote that opens it.
pub record EndsInValue (quote n : ℕ) (pending : Text) : Type 0 where
  pub head : Text
  pub value : Text
  pub cut : pending ≡ head ++ quote ∷ value
  pub size : length value ≡ n
  pub inside : All (λ c. (c == quote) ≡ false) value

abbrev pub IsQuoted : TokenMode → Option ℕ → ℕ → Text → Type 0
IsQuoted token_element (some quote) n pending = EndsInValue quote n pending
IsQuoted token_element none n pending = n ≡ 0
IsQuoted _ quote n pending = (quote ≡ none) × (n ≡ 0)

-- The text is a prefix and as many characters.
pub record Begins (prefix : Text) (n : ℕ) (pending : Text) : Type 0 where
  pub inner : Text
  pub cut : pending ≡ prefix ++ inner
  pub size : length inner ≡ n

-- What a token looks like in its mode, with the text characters and the prefix that are kept of it.
abbrev pub HasForm : TokenMode → ℕ → Text → Text → Type 0
HasForm token_open n prefix pending = pending ≡ literal "<"
HasForm token_declaration n prefix pending = pending ≡ prefix
HasForm token_comment n prefix pending = (k : ℕ) × Begins (literal "<!--") k pending
HasForm token_cdata n prefix pending = Begins (literal "<![CDATA[") n pending
HasForm token_processing_instruction n prefix pending = (k : ℕ) × Begins (literal "<?") k pending
HasForm _ n prefix pending = Unit

abbrev pub HasDetails : TokenGuard → Text → Type 0
HasDetails g pending =
    IsQuoted g.mode g.quote g.quoted_characters pending
    × HasForm g.mode g.text_characters g.declaration_prefix pending

-- The end of the text that was seen is character data or a token that is not finished, and the guard
-- has counted it, within its limits.
pub record IsPending (limits : TokenLimits) (seen : Text) (g : TokenGuard) : Type 0 where
  pub before : Text
  pub pending : Text
  pub parts : seen ≡ before ++ pending
  pub count : length pending ≡ counted (is_text g.mode) g
  pub shape : HasShape (is_text g.mode) pending
  pub behind_markup : StandsBehind (is_text g.mode) before
  pub details : HasDetails g pending
  pub within : IsWithin limits g

starts_markup-append :
    (pending part : Text) → starts_markup pending ≡ true → starts_markup (pending ++ part) ≡ true
starts_markup-append [] part h = absurd (cc h)
starts_markup-append (c ∷ cs) part h = h

module _ (limits : TokenLimits) (seen part : Text) where
  behind :
      (before pending : Text)
      → seen ≡ before ++ pending
      → seen ++ part ≡ before ++ (pending ++ part)
  behind before pending e = ap (λ s. s ++ part) e ∙ append_assoc before pending part

  -- The token goes on over a part.
  pub longer_token :
      (g h : TokenGuard)
      → is_text g.mode ≡ false
      → is_text h.mode ≡ false
      → h.token_characters ≡ g.token_characters + length part
      → IsWithin limits h
      → ((pending : Text) → HasDetails g pending → HasDetails h (pending ++ part))
      → IsPending limits seen g
      → IsPending limits (seen ++ part) h
  longer_token g h at still more within keeps p =
      let count : length p.pending ≡ g.token_characters =
        subst (λ b. length p.pending ≡ counted b g) at p.count in
      let start : starts_markup p.pending ≡ true = subst (λ b. HasShape b p.pending) at p.shape in
      record {
        before = p.before;
        pending = p.pending ++ part;
        parts = behind p.before p.pending p.parts;
        count =
            subst (λ b. length (p.pending ++ part) ≡ counted b h) (sym still)
              (omega (arith, count, more, length-append p.pending part));
        shape =
            subst (λ b. HasShape b (p.pending ++ part)) (sym still)
              (starts_markup-append p.pending part start);
        behind_markup = subst (λ b. StandsBehind b p.before) (sym still) tt;
        details = keeps p.pending p.details;
        within = within;
      }

  -- Character data goes on over a part.
  pub longer_data :
      (g h : TokenGuard)
      → is_text g.mode ≡ true
      → is_text h.mode ≡ true
      → h.text_characters ≡ g.text_characters + length part
      → All IsData part
      → IsWithin limits h
      → ((pending : Text) → HasDetails g pending → HasDetails h (pending ++ part))
      → IsPending limits seen g
      → IsPending limits (seen ++ part) h
  longer_data g h at still more plain within keeps p =
      let count : length p.pending ≡ g.text_characters =
        subst (λ b. length p.pending ≡ counted b g) at p.count in
      let start : All IsData p.pending = subst (λ b. HasShape b p.pending) at p.shape in
      record {
        before = p.before;
        pending = p.pending ++ part;
        parts = behind p.before p.pending p.parts;
        count =
            subst (λ b. length (p.pending ++ part) ≡ counted b h) (sym still)
              (omega (arith, count, more, length-append p.pending part));
        shape =
            subst (λ b. HasShape b (p.pending ++ part)) (sym still)
              (All-append IsData p.pending part start plain);
        behind_markup = subst (λ b. StandsBehind b p.before) (at ∙ sym still) p.behind_markup;
        details = keeps p.pending p.details;
        within = within;
      }

  -- A finished token leaves nothing behind it.
  pub finished :
      (front : Text) → part ≡ front ++ literal ">" → IsPending limits (seen ++ part) new_guard
  finished front e = record {
    before = seen ++ part;
    pending = [];
    parts = sym (append-nil (seen ++ part));
    count = refl;
    shape = tt;
    behind_markup =
        inr (seen ++ front, ap (λ p. seen ++ p) e ∙ sym (append_assoc seen front (literal ">")));
    details = ((refl, refl), tt);
    within = record { token = omega arith; text = omega arith; quoted = omega arith };
  }

  -- Markup starts with its first character.
  pub opened :
      (front : Text) (c : ℕ) (h : TokenGuard)
      → part ≡ front ++ c ∷ []
      → (c == b'<') ≡ true
      → is_text h.mode ≡ false
      → h.token_characters ≡ 1
      → IsWithin limits h
      → HasDetails h (c ∷ [])
      → IsPending limits (seen ++ part) h
  opened front c h e markup at one within details = record {
    before = seen ++ front;
    pending = c ∷ [];
    parts = ap (λ p. seen ++ p) e ∙ sym (append_assoc seen front (c ∷ []));
    count = subst (λ b. 1 ≡ counted b h) (sym at) (sym one);
    shape = subst (λ b. HasShape b (c ∷ [])) (sym at) markup;
    behind_markup = subst (λ b. StandsBehind b (seen ++ front)) (sym at) tt;
    details = details;
    within = within;
  }
