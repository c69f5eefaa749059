-- ===== src/Parsers/Tokens/Pending/Scans.antt =====
-- adapters/parsers/xml.py, `_XmlTokenGuard`: every scan counts the part of the text that it goes over.
use makolet.Prelude.{
  ℕ, ◌+◌, ◌<◌, ◌≡◌, refl, sym, ap, subst, ◌∙◌, true, false, append-nil, append_assoc, length-append,
  ==_iff, Option, none, some, [], ◌∷◌, ◌++◌, length, ◌==◌, if_cases, if◌then◌else◌, arith,
}
use makolet.Domain.Values.{Text, literal}
use makolet.Exec.{Result, ok, err}
use makolet.Parsers.Tokens.{
  TokenLimits, TokenMode, token_text, token_open, token_element, token_declaration, token_comment,
  token_cdata, token_processing_instruction, TokenGuard, ◌>>=◌, add_text, add_quoted, add_token,
  finish_markup, until, left_of, scan_open, quoted_at, is_special, special_at, scan_element,
  delimited_at, cdata_at, declared, scan_in, scan, is_text,
}
use makolet.Parsers.Tokens.Pending.{IsWithin, IsPending, HasDetails}
use makolet.Parsers.Tokens.Pending.Splits.{Parts, FoundParts, find-Parts, Passed, until-Passed}
use makolet.Parsers.Tokens.Pending.Details.{
  details_in, details_of, longer_element, longer_value, longer_comment, longer_instruction,
  longer_cdata,
}
use makolet.Parsers.Tokens.Pending.Growth.{
  Grows, add_token-Grows, add_quoted-Grows, closing-Grows, add_data-Grows,
}
use makolet.Parsers.Tokens.Pending.Following.{
  GoesAhead, Stays, declared-Stays, finish_ahead, token_ahead, one_more, text_ahead,
  declared-HasDetails,
}

module _ (limits : TokenLimits) (seen text : Text) (g : TokenGuard)
    (pending : IsPending limits seen g) where
  unfinished_ahead :
      (m : Result TokenGuard) (n more_text more_quoted : ℕ)
      → is_text g.mode ≡ false
      → (p : Parts text n [])
      → ((h : TokenGuard) → m ≡ ok h → Grows limits n more_text more_quoted g h)
      → ((h : TokenGuard)
          → Grows limits n more_text more_quoted g h
          → (before : Text) → HasDetails g before
          → HasDetails h (before ++ p.front))
      → GoesAhead limits seen text (m >>= left_of [])
  unfinished_ahead m n more_text more_quoted at p grows details =
      token_ahead limits seen text g m (λ h. h) n more_text more_quoted [] at pending p grows
        details (λ h mode within. record { mode = mode; same = refl; within = within })

  module _ (e : g.mode ≡ token_element) where
    quoted_ahead :
        (q : ℕ) (p : ℕ × Text)
        → g.quote ≡ some q
        → Passed (λ c. c == q) text p
        → GoesAhead limits seen text (quoted_at limits p g)
    quoted_ahead q (n, []) f p =
        unfinished_ahead (add_token limits n g >>= add_quoted limits n) n 0 n (ap is_text e) p.part
          (λ h added. add_quoted-Grows limits n g h pending.within added)
          (λ h w before d.
            longer_value limits g h before p.part.front n q e f p.part.size p.clear w d)
    quoted_ahead q (n, c ∷ rest) f p =
        token_ahead limits seen text g
          (add_token limits n g >>= add_quoted limits n >>= add_token limits 1)
          (λ h. record h { quote = none; quoted_characters = 0 }) (n + 1) 0 n rest (ap is_text e)
          pending (one_more limits seen text n c rest p.part)
          (λ h added. closing-Grows limits n g h pending.within added)
          (λ h w before d.
            details_of (record h { quote = none; quoted_characters = 0 }) token_element none _
              (w.mode ∙ e) refl (refl, tt))
          (λ h mode within. record {
            mode = mode;
            same = refl;
            within = record { token = within.token; text = within.text; quoted = omega arith };
          })

    marked_ahead :
        (m : Result TokenGuard) (n c : ℕ) (rest : Text)
        → Parts text n (c ∷ rest)
        → ((h : TokenGuard) → m ≡ ok h → Grows limits (n + 1) 0 0 g h)
        → GoesAhead limits seen text (
            m >>= λ h.
            if c == b'>'
            then ok (finish_markup h, rest)
            else ok (record h { quote = some c; quoted_characters = 0 }, rest))
    marked_ahead (err x) n c rest p grows = tt
    marked_ahead (ok h) n c rest p grows =
        if_cases (GoesAhead limits seen text) (c == b'>') _ _
          (λ closes.
            finish_ahead limits seen text (ok h) (p.front ++ c ∷ []) p.front rest
              (p.splits ∙ sym (append_assoc p.front (c ∷ []) rest))
              (ap (λ d. p.front ++ d ∷ []) ((==_iff c b'>').0 closes)))
          (λ _.
            token_ahead limits seen text g (ok h)
              (λ h. record h { quote = some c; quoted_characters = 0 }) (n + 1) 0 0 rest
              (ap is_text e) pending
              (record {
                front = p.front ++ c ∷ [];
                splits = p.splits ∙ sym (append_assoc p.front (c ∷ []) rest);
                size = omega (arith, p.size, length-append p.front (c ∷ []));
              })
              grows
              (λ h w before d.
                details_of (record h { quote = some c; quoted_characters = 0 }) token_element
                  (some c) _ (w.mode ∙ e) refl
                  (
                    record {
                      head = before ++ p.front;
                      value = [];
                      cut = sym (append_assoc before p.front (c ∷ []));
                      size = refl;
                      inside = tt;
                    },
                    tt,
                  ))
              (λ h mode within. record {
                mode = mode;
                same = refl;
                within = record { token = within.token; text = within.text; quoted = omega arith };
              }))

    special_ahead :
        (p : ℕ × Text)
        → g.quote ≡ none
        → Parts text p.0 p.1
        → GoesAhead limits seen text (special_at limits p g)
    special_ahead (n, []) f p =
        unfinished_ahead (add_token limits n g) n 0 0 (ap is_text e) p
          (λ h added. add_token-Grows limits n g h pending.within added)
          (λ h w before d. longer_element limits g h before p.front n e f w d)
    special_ahead (n, c ∷ rest) f p =
        marked_ahead (add_token limits (n + 1) g) n c rest p
          (λ h added. add_token-Grows limits (n + 1) g h pending.within added)

    element_ahead :
        (q : Option ℕ) → g.quote ≡ q → GoesAhead limits seen text (scan_element limits q text g)
    element_ahead none f =
        special_ahead (until is_special text) f (until-Passed is_special text).part
    element_ahead (some q) f =
        quoted_ahead q (until (λ c. c == q) text) f (until-Passed (λ c. c == q) text)

  delimited_ahead :
      (delimiter stem : Text) (o : Option (ℕ × Text))
      → delimiter ≡ stem ++ literal ">"
      → is_text g.mode ≡ false
      → ((h : TokenGuard)
          → Grows limits (length text) 0 0 g h
          → (before : Text) → HasDetails g before
          → HasDetails h (before ++ text))
      → FoundParts delimiter text o
      → GoesAhead limits seen text (delimited_at limits delimiter text o g)
  delimited_ahead delimiter stem none closes at details p =
      unfinished_ahead (add_token limits (length text) g) (length text) 0 0 at
        (record { front = text; splits = sym (append-nil text); size = refl })
        (λ h added. add_token-Grows limits (length text) g h pending.within added) details
  delimited_ahead delimiter stem (some (n, rest)) closes at details p =
      finish_ahead limits seen text (add_token limits (n + length delimiter) g)
        (p.front ++ delimiter) (p.front ++ stem) rest
        (p.splits ∙ sym (append_assoc p.front delimiter rest))
        (ap (λ d. p.front ++ d) closes ∙ sym (append_assoc p.front stem (literal ">")))

  cdata_ahead :
      (o : Option (ℕ × Text))
      → g.mode ≡ token_cdata
      → FoundParts (literal "]]>") text o
      → GoesAhead limits seen text (cdata_at limits text o g)
  cdata_ahead none e p =
      unfinished_ahead (add_text limits (length text) g >>= add_token limits (length text))
        (length text) (length text) 0 (ap is_text e)
        (record { front = text; splits = sym (append-nil text); size = refl })
        (λ h added. add_data-Grows limits (length text) g h pending.within added)
        (λ h w before d. longer_cdata limits g h before text (length text) e refl w d)
  cdata_ahead (some (n, rest)) e p =
      finish_ahead limits seen text
        (add_text limits n g >>= add_token limits n >>= add_token limits 3)
        (p.front ++ literal "]]>") (p.front ++ literal "]]") rest
        (p.splits ∙ sym (append_assoc p.front (literal "]]>") rest))
        (sym (append_assoc p.front (literal "]]") (literal ">")))

  -- A round that takes one character.
  one_ahead :
      (c : ℕ) (cs : Text) (after : TokenGuard → TokenGuard)
      → text ≡ c ∷ cs
      → is_text g.mode ≡ false
      → ((h : TokenGuard)
          → Grows limits 1 0 0 g h
          → (before : Text) → HasDetails g before
          → HasDetails (after h) (before ++ c ∷ []))
      → ((h : TokenGuard) → is_text h.mode ≡ false → IsWithin limits h → Stays limits h (after h))
      → GoesAhead limits seen text (add_token limits 1 g >>= λ h. ok (after h, cs))
  one_ahead c cs after e at details stays =
      token_ahead limits seen text g (add_token limits 1 g) after 1 0 0 cs at pending
        (record { front = c ∷ []; splits = e; size = refl })
        (λ h added. add_token-Grows limits 1 g h pending.within added) details stays

  module _ (e : g.mode ≡ token_open) where
    -- The `<` and the character behind it.
    opened_with :
        (c d : ℕ) (before : Text) (h : TokenGuard)
        → (c == d) ≡ true
        → Grows limits 1 0 0 g h
        → HasDetails g before
        → (h.quote ≡ none) × (h.quoted_characters ≡ 0) × (before ++ c ∷ [] ≡ b'<' ∷ d ∷ [])
    opened_with c d before h same w details =
        let ((no_quote, zero_quoted), one) =
          details_in g token_open g.quote before e refl details in
        (
          w.quote ∙ no_quote,
          omega (arith, w.more_quoted, zero_quoted),
          rw (one, (==_iff c d).0 same) refl,
        )

    open_ahead :
        (c : ℕ) (cs : Text) → text ≡ c ∷ cs → GoesAhead limits seen text (scan_open limits c cs g)
    open_ahead c cs same =
        if_cases (GoesAhead limits seen text) (c == b'?') _ _
          (λ question.
            one_ahead c cs _ same (ap is_text e)
              (λ h w before d.
                let (no_quote, zero_quoted, two) = opened_with c b'?' before h question w d in
                ((no_quote, zero_quoted), (0, record { inner = []; cut = two; size = refl })))
              (λ h mode w. record {
                mode = refl;
                same = refl;
                within = record { token = w.token; text = w.text; quoted = w.quoted };
              }))
          (λ _.
            if_cases (GoesAhead limits seen text) (c == b'!') _ _
              (λ mark.
                one_ahead c cs _ same (ap is_text e)
                  (λ h w before d.
                    let (no_quote, zero_quoted, two) = opened_with c b'!' before h mark w d in
                    ((no_quote, zero_quoted), two))
                  (λ h mode w. record {
                    mode = refl;
                    same = refl;
                    within = record { token = w.token; text = w.text; quoted = w.quoted };
                  }))
              (λ _.
                token_ahead limits seen text g (ok g) (λ h. record h { mode = token_element }) 0 0 0
                  (c ∷ cs) (ap is_text e) pending
                  (record { front = []; splits = same; size = refl })
                  (λ h returned. subst (Grows limits 0 0 0 g) (cc returned) (record {
                    mode = refl;
                    more = omega arith;
                    within = pending.within;
                    quote = refl;
                    prefix = refl;
                    more_text = omega arith;
                    more_quoted = omega arith;
                  }))
                  (λ h w before d.
                    let (no_quote, zero_quoted) =
                      (details_in g token_open g.quote before e refl d).0 in
                    details_of (record h { mode = token_element }) token_element none _ refl
                      (w.quote ∙ no_quote) (omega (arith, w.more_quoted, zero_quoted), tt))
                  (λ h mode w. record {
                    mode = refl;
                    same = refl;
                    within = record { token = w.token; text = w.text; quoted = w.quoted };
                  })))

  declaration_ahead :
      (c : ℕ) (cs : Text)
      → g.mode ≡ token_declaration
      → text ≡ c ∷ cs
      → GoesAhead limits seen text
          (add_token limits 1 g >>= λ h. ok (declared (h.declaration_prefix ++ c ∷ []) h, cs))
  declaration_ahead c cs e same =
      one_ahead c cs (λ h. declared (h.declaration_prefix ++ c ∷ []) h) same (ap is_text e)
        (λ h w before d.
          let ((no_quote, zero_quoted), prefix) =
            details_in g token_declaration g.quote before e refl d in
          declared-HasDetails (h.declaration_prefix ++ c ∷ []) (before ++ c ∷ []) h (w.mode ∙ e)
            (w.quote ∙ no_quote) (omega (arith, w.more_quoted, zero_quoted))
            (ap (λ p. p ++ c ∷ []) (prefix ∙ sym w.prefix)))
        (λ h. declared-Stays limits (h.declaration_prefix ++ c ∷ []) h)

module _ (limits : TokenLimits) (room : 0 < limits.maximum_token_characters) (seen : Text) where
  scan_in_ahead :
      (mode : TokenMode) (c : ℕ) (cs : Text) (g : TokenGuard)
      → g.mode ≡ mode
      → IsPending limits seen g
      → GoesAhead limits seen (c ∷ cs) (scan_in limits mode c cs g)
  scan_in_ahead token_text c cs g e p =
      text_ahead limits seen (c ∷ cs) _ g room e p (until-Passed (λ c. c == b'<') (c ∷ cs))
  scan_in_ahead token_open c cs g e p = open_ahead limits seen (c ∷ cs) g p e c cs refl
  scan_in_ahead token_element c cs g e p = element_ahead limits seen (c ∷ cs) g p e g.quote refl
  scan_in_ahead token_declaration c cs g e p =
      declaration_ahead limits seen (c ∷ cs) g p c cs e refl
  scan_in_ahead token_comment c cs g e p =
      delimited_ahead limits seen (c ∷ cs) g p (literal "-->") (literal "--") _ refl (ap is_text e)
        (λ h w before d. longer_comment limits g h before (c ∷ cs) (length (c ∷ cs)) e w d)
        (find-Parts (literal "-->") (c ∷ cs))
  scan_in_ahead token_cdata c cs g e p =
      cdata_ahead limits seen (c ∷ cs) g p _ e (find-Parts (literal "]]>") (c ∷ cs))
  scan_in_ahead token_processing_instruction c cs g e p =
      delimited_ahead limits seen (c ∷ cs) g p (literal "?>") (literal "?") _ refl (ap is_text e)
        (λ h w before d. longer_instruction limits g h before (c ∷ cs) (length (c ∷ cs)) e w d)
        (find-Parts (literal "?>") (c ∷ cs))

  pub scan_ahead :
      (c : ℕ) (cs : Text) (g : TokenGuard)
      → IsPending limits seen g
      → GoesAhead limits seen (c ∷ cs) (scan limits c cs g)
  unfolding scan
  scan_ahead c cs g p = scan_in_ahead g.mode c cs g refl p
