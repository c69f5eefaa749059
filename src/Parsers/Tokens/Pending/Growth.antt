-- ===== src/Parsers/Tokens/Pending/Growth.antt =====
-- adapters/parsers/xml.py, `_XmlTokenGuard`: what its counters add.
use makolet.Prelude.{ℕ, ◌+◌, ◌≤◌, ◌≡◌, refl, sym, subst, arith}
use makolet.Exec.{ok}
use makolet.Parsers.Tokens.{TokenLimits, TokenGuard, ◌>>=◌, add_text, add_quoted, add_token}
use makolet.Parsers.Tokens.Pending.{IsWithin}

-- The token is longer, within the limits, with so many more text and quoted characters, and otherwise
-- as it was.
pub record Grows (limits : TokenLimits) (n text quoted : ℕ) (g h : TokenGuard) : Type 0 where
  pub mode : h.mode ≡ g.mode
  pub more : h.token_characters ≡ g.token_characters + n
  pub within : IsWithin limits h
  pub quote : h.quote ≡ g.quote
  pub prefix : h.declaration_prefix ≡ g.declaration_prefix
  pub more_text : h.text_characters ≡ g.text_characters + text
  pub more_quoted : h.quoted_characters ≡ g.quoted_characters + quoted

-- What the counters let through.
added_text :
    (limits : TokenLimits) (n : ℕ) (g h : TokenGuard)
    → add_text limits n g ≡ ok h
    → (h ≡ record g { text_characters = g.text_characters + n })
      × (g.text_characters + n ≤ limits.maximum_field_characters)
unfolding add_text
added_text limits n g h e = ground arith

added_token :
    (limits : TokenLimits) (n : ℕ) (g h : TokenGuard)
    → add_token limits n g ≡ ok h
    → (h ≡ record g { token_characters = g.token_characters + n })
      × (g.token_characters + n ≤ limits.maximum_token_characters)
unfolding add_token
added_token limits n g h e = ground arith

added_quoted :
    (limits : TokenLimits) (n : ℕ) (g h : TokenGuard)
    → (add_token limits n g >>= add_quoted limits n) ≡ ok h
    → (h ≡ record g {
      token_characters = g.token_characters + n;
      quoted_characters = g.quoted_characters + n;
    })
      × (g.token_characters + n ≤ limits.maximum_token_characters)
      × (g.quoted_characters + n ≤ limits.maximum_field_characters)
unfolding add_token add_quoted
added_quoted limits n g h e = ground arith

added_closing :
    (limits : TokenLimits) (n : ℕ) (g h : TokenGuard)
    → (add_token limits n g >>= add_quoted limits n >>= add_token limits 1) ≡ ok h
    → (h ≡ record g {
      token_characters = g.token_characters + n + 1;
      quoted_characters = g.quoted_characters + n;
    })
      × (g.token_characters + n + 1 ≤ limits.maximum_token_characters)
      × (g.quoted_characters + n ≤ limits.maximum_field_characters)
unfolding add_token add_quoted
added_closing limits n g h e = ground arith

added_data :
    (limits : TokenLimits) (n : ℕ) (g h : TokenGuard)
    → (add_text limits n g >>= add_token limits n) ≡ ok h
    → (h ≡ record g {
      text_characters = g.text_characters + n;
      token_characters = g.token_characters + n;
    })
      × (g.token_characters + n ≤ limits.maximum_token_characters)
      × (g.text_characters + n ≤ limits.maximum_field_characters)
unfolding add_token add_text
added_data limits n g h e = ground arith

module _ (limits : TokenLimits) (n : ℕ) (g h : TokenGuard) (w : IsWithin limits g) where
  pub add_token-Grows : add_token limits n g ≡ ok h → Grows limits n 0 0 g h
  add_token-Grows e =
      let (same, bound) = added_token limits n g h e in
      subst (Grows limits n 0 0 g) (sym same) (record {
        mode = refl;
        more = refl;
        within = record { token = bound; text = w.text; quoted = w.quoted };
        quote = refl;
        prefix = refl;
        more_text = omega arith;
        more_quoted = omega arith;
      })

  pub add_quoted-Grows :
      (add_token limits n g >>= add_quoted limits n) ≡ ok h → Grows limits n 0 n g h
  add_quoted-Grows e =
      let (same, bound, quoted) = added_quoted limits n g h e in
      subst (Grows limits n 0 n g) (sym same) (record {
        mode = refl;
        more = refl;
        within = record { token = bound; text = w.text; quoted = quoted };
        quote = refl;
        prefix = refl;
        more_text = omega arith;
        more_quoted = omega arith;
      })

  pub closing-Grows :
      (add_token limits n g >>= add_quoted limits n >>= add_token limits 1) ≡ ok h
      → Grows limits (n + 1) 0 n g h
  closing-Grows e =
      let (same, bound, quoted) = added_closing limits n g h e in
      subst (Grows limits (n + 1) 0 n g) (sym same) (record {
        mode = refl;
        more = omega arith;
        within = record { token = bound; text = w.text; quoted = quoted };
        quote = refl;
        prefix = refl;
        more_text = omega arith;
        more_quoted = omega arith;
      })

  pub add_data-Grows : (add_text limits n g >>= add_token limits n) ≡ ok h → Grows limits n n 0 g h
  add_data-Grows e =
      let (same, bound, plain) = added_data limits n g h e in
      subst (Grows limits n n 0 g) (sym same) (record {
        mode = refl;
        more = refl;
        within = record { token = bound; text = plain; quoted = w.quoted };
        quote = refl;
        prefix = refl;
        more_text = omega arith;
        more_quoted = omega arith;
      })

  -- Character data is longer.
  pub add_text-IsWithin :
      add_text limits n g ≡ ok h
      → (h.mode ≡ g.mode)
        × (h.text_characters ≡ g.text_characters + n)
        × IsWithin limits h
        × (h.quote ≡ g.quote)
        × (h.quoted_characters ≡ g.quoted_characters)
  add_text-IsWithin e =
      let (same, bound) = added_text limits n g h e in
      subst
        (λ h.
          (h.mode ≡ g.mode)
          × (h.text_characters ≡ g.text_characters + n)
          × IsWithin limits h
          × (h.quote ≡ g.quote)
          × (h.quoted_characters ≡ g.quoted_characters))
        (sym same)
        (refl, refl, record { token = w.token; text = bound; quoted = w.quoted }, refl, refl)
