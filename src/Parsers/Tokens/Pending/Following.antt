-- ===== src/Parsers/Tokens/Pending/Following.antt =====
-- adapters/parsers/xml.py, `_XmlTokenGuard`: what a scan counts that goes ahead in a text.
use makolet.Prelude.{
  ℕ, ◌+◌, ◌<◌, ◌≡◌, refl, sym, ap, ◌∙◌, false, ◌||◌, not, [], ◌∷◌, ◌++◌, append_assoc,
  length-append, none, ◌==◌, ==_iff, if_cases, text_eq, text_eq_iff, arith,
}
use makolet.Domain.Values.{Text, literal}
use makolet.Exec.{Result, ok, err}
use makolet.Parsers.Tokens.{
  TokenLimits, token_text, token_element, token_declaration, TokenGuard, ◌>>=◌, add_text,
  finish_markup, Scanned, text_at, starts_with, declared, is_text,
}
use makolet.Parsers.Tokens.Pending.{
  IsWithin, IsPending, HasDetails, longer_token, longer_data, finished, opened,
}
use makolet.Parsers.Tokens.Pending.Splits.{Parts, Passed}
use makolet.Parsers.Tokens.Pending.Details.{details_in, details_of}
use makolet.Parsers.Tokens.Pending.Growth.{Grows, add_text-IsWithin}

-- What is left of a text, and the guard that has counted the part before it.
pub record Ahead (limits : TokenLimits) (seen text : Text) (g : TokenGuard) (rest : Text)
    : Type 0 where
  pub part : Text
  pub splits : text ≡ part ++ rest
  pub pending : IsPending limits (seen ++ part) g

abbrev pub GoesAhead : TokenLimits → Text → Text → Scanned → Type 0
GoesAhead limits seen text (ok (g, rest)) = Ahead limits seen text g rest
GoesAhead limits seen text (err e) = Unit

-- What a scan does to a guard in a token after it has counted.
pub record Stays (limits : TokenLimits) (h k : TokenGuard) : Type 0 where
  pub mode : is_text k.mode ≡ false
  pub same : k.token_characters ≡ h.token_characters
  pub within : IsWithin limits k

pub declared-Stays :
    (limits : TokenLimits) (prefix : Text) (h : TokenGuard)
    → is_text h.mode ≡ false
    → IsWithin limits h
    → Stays limits h (declared prefix h)
declared-Stays limits prefix h mode w =
    let keeps = if_cases (Stays limits h) in
    keeps (text_eq prefix (literal "<!--")) _ _
      (λ _. record {
        mode = refl;
        same = refl;
        within = record { token = w.token; text = w.text; quoted = w.quoted };
      })
      (λ _.
        keeps (text_eq prefix (literal "<![CDATA[")) _ _
          (λ _. record {
            mode = refl;
            same = refl;
            within = record { token = w.token; text = omega arith; quoted = w.quoted };
          })
          (λ _.
            keeps
              (not
                (starts_with prefix (literal "<!--") || starts_with prefix (literal "<![CDATA[")))
              _ _
              (λ _. record {
                mode = refl;
                same = refl;
                within = record { token = w.token; text = w.text; quoted = w.quoted };
              })
              (λ _. record {
                mode = mode;
                same = refl;
                within = record { token = w.token; text = w.text; quoted = w.quoted };
              })))

-- What has become of the prefix of a declaration.
pub declared-HasDetails :
    (prefix pending : Text) (h : TokenGuard)
    → h.mode ≡ token_declaration
    → h.quote ≡ none
    → h.quoted_characters ≡ 0
    → pending ≡ prefix
    → HasDetails (declared prefix h) pending
declared-HasDetails prefix pending h e no_quote zero_quoted same =
    let keeps = if_cases (λ k. HasDetails k pending) in
    keeps (text_eq prefix (literal "<!--")) _ _
      (λ comment. (
        (no_quote, zero_quoted),
        (
          0,
          record {
            inner = [];
            cut = same ∙ (text_eq_iff prefix (literal "<!--")).0 comment;
            size = refl;
          },
        ),
      ))
      (λ _.
        keeps (text_eq prefix (literal "<![CDATA[")) _ _
          (λ cdata. (
            (no_quote, zero_quoted),
            record {
              inner = [];
              cut = same ∙ (text_eq_iff prefix (literal "<![CDATA[")).0 cdata;
              size = refl;
            },
          ))
          (λ _.
            keeps
              (not
                (starts_with prefix (literal "<!--") || starts_with prefix (literal "<![CDATA[")))
              _ _
              (λ _.
                details_of (record h { declaration_prefix = prefix; mode = token_element })
                  token_element none pending refl no_quote (zero_quoted, tt))
              (λ _.
                details_of (record h { declaration_prefix = prefix }) token_declaration h.quote
                  pending e refl ((no_quote, zero_quoted), same))))

module _ (limits : TokenLimits) (seen text : Text) where
  ahead :
      (m : Result TokenGuard) (after : TokenGuard → TokenGuard) (part rest : Text)
      → text ≡ part ++ rest
      → ((h : TokenGuard) → m ≡ ok h → IsPending limits (seen ++ part) (after h))
      → GoesAhead limits seen text (m >>= λ h. ok (after h, rest))
  ahead (err e) after part rest splits pending = tt
  ahead (ok h) after part rest splits pending = record {
    part = part;
    splits = splits;
    pending = pending h refl;
  }

  pub finish_ahead :
      (m : Result TokenGuard) (part front rest : Text)
      → text ≡ part ++ rest
      → part ≡ front ++ literal ">"
      → GoesAhead limits seen text (m >>= λ h. ok (finish_markup h, rest))
  finish_ahead m part front rest splits ends =
      ahead m finish_markup part rest splits (λ h _. finished limits seen part front ends)

  pub token_ahead :
      (g : TokenGuard) (m : Result TokenGuard) (after : TokenGuard → TokenGuard)
      (n more_text more_quoted : ℕ) (rest : Text)
      → is_text g.mode ≡ false
      → IsPending limits seen g
      → (p : Parts text n rest)
      → ((h : TokenGuard) → m ≡ ok h → Grows limits n more_text more_quoted g h)
      → ((h : TokenGuard)
          → Grows limits n more_text more_quoted g h
          → (before : Text) → HasDetails g before
          → HasDetails (after h) (before ++ p.front))
      → ((h : TokenGuard) → is_text h.mode ≡ false → IsWithin limits h → Stays limits h (after h))
      → GoesAhead limits seen text (m >>= λ h. ok (after h, rest))
  token_ahead g m after n more_text more_quoted rest at pending p grows details stays =
      ahead m after p.front rest p.splits (λ h e.
        let w = grows h e in
        let s = stays h (ap is_text w.mode ∙ at) w.within in
        longer_token limits seen p.front g (after h) at s.mode
          (omega (arith, s.same, w.more, p.size)) s.within (details h w) pending)

  pub text_ahead :
      (p : ℕ × Text) (g : TokenGuard)
      → 0 < limits.maximum_token_characters
      → g.mode ≡ token_text
      → IsPending limits seen g
      → Passed (λ c. c == b'<') text p
      → GoesAhead limits seen text (text_at limits p g)
  text_ahead (n, []) g room at pending passed =
      ahead (add_text limits n g) (λ h. h) passed.part.front [] passed.part.splits
        (λ h e.
          let (mode, more, within, quote, quoted) =
            add_text-IsWithin limits n g h pending.within e in
          longer_data limits seen passed.part.front g h (ap is_text at) (ap is_text (mode ∙ at))
            (omega (arith, more, passed.part.size)) passed.clear within
            (λ before d.
              let (none_open, zero_quoted) = (details_in g token_text g.quote before at refl d).0 in
              details_of h token_text h.quote (before ++ passed.part.front) (mode ∙ at) refl
                ((quote ∙ none_open, quoted ∙ zero_quoted), tt))
            pending)
  text_ahead (n, c ∷ rest) g room at pending passed =
      ahead (add_text limits n g) _ (passed.part.front ++ c ∷ []) rest
        (passed.part.splits ∙ sym (append_assoc passed.part.front (c ∷ []) rest))
        (λ h e.
          let (mode, more, within, quote, quoted) =
            add_text-IsWithin limits n g h pending.within e in
          let (none_open, zero_quoted) =
            (details_in g token_text g.quote pending.pending at refl pending.details).0 in
          opened limits seen (passed.part.front ++ c ∷ []) passed.part.front c _ refl passed.first
            refl refl (record { token = room; text = omega arith; quoted = within.quoted })
            (
              (quote ∙ none_open, quoted ∙ zero_quoted),
              ap (λ d. d ∷ []) ((==_iff c b'<').0 passed.first),
            ))

  pub one_more : (n : ℕ) (c : ℕ) (rest : Text) → Parts text n (c ∷ rest) → Parts text (n + 1) rest
  one_more n c rest p = record {
    front = p.front ++ c ∷ [];
    splits = p.splits ∙ sym (append_assoc p.front (c ∷ []) rest);
    size = omega (arith, p.size, length-append p.front (c ∷ []));
  }
