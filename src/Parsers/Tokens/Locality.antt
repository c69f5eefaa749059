-- ===== src/Parsers/Tokens/Locality.antt =====
-- adapters/parsers/xml.py, `_XmlTokenGuard`: a scan of a text and of the text with more behind it.
use makolet.Prelude.{
  ℕ, ◌+◌, ◌≡◌, ◌⊎◌, inl, inr, refl, sym, ap, subst, ◌∙◌, Bool, true, false, Option, none, some, [],
  ◌∷◌, ◌++◌, length, ◌==◌, if◌then◌else◌, arith,
}
use makolet.Domain.Values.{Text, literal}
use makolet.Exec.{Result, ok, err}
use makolet.Parsers.Tokens.{
  TokenLimits, TokenMode, token_text, token_open, token_element, token_declaration, token_comment,
  token_cdata, token_processing_instruction, TokenGuard, ◌>>=◌, add_text, add_quoted, add_token,
  finish_markup, until, find, Scanned, left_of, text_at, scan_open, quoted_at, is_special,
  special_at, scan_element, declared, delimited_at, cdata_at, scan_in, scan,
}
use makolet.Parsers.Tokens.Searching.{
  joined, until-append, find-append, is_plain, add_text-add, add_token-add, cdata_mode,
  add_both-add,
}

module _ (limits : TokenLimits) (d : ℕ) (ds : Text) where
  -- A scan of a text, and that of the text with more behind it: it ends where it ended before, or it
  -- goes on behind the cut as a scan from there on does.
  abbrev pub Local : Scanned → Scanned → Type 0
  Local s whole =
      (g' : TokenGuard) (rest : Text)
      → s ≡ ok (g', rest)
      → (whole ≡ ok (g', rest ++ d ∷ ds))
        ⊎ ((rest ≡ []) × (is_plain g'.mode ≡ true → whole ≡ scan limits d ds g'))

  -- A scan that leaves a text behind does not see what follows it.
  ends-Local :
      (m : Result TokenGuard) (f : TokenGuard → TokenGuard) (left : Text)
      → Local (m >>= λ h. ok (f h, left)) (m >>= λ h. ok (f h, left ++ d ∷ ds))
  ends-Local (err x) f left g' rest e = absurd (cc e)
  ends-Local (ok h) f left g' rest e =
      let same : f h ≡ g' = cc e in
      let same_rest : left ≡ rest = cc e in inl (rw (same, same_rest) refl)

  -- Where the search of a scan went to the end of the text.
  open-Local :
      (m : Result TokenGuard) (whole : Scanned)
      → ((h : TokenGuard) → m ≡ ok h → is_plain h.mode ≡ true → whole ≡ scan limits d ds h)
      → Local (m >>= left_of []) whole
  open-Local (err x) whole further g' rest e = absurd (cc e)
  open-Local (ok h) whole further g' rest e =
      let same : h ≡ g' = cc e in
      let same_rest : [] ≡ rest = cc e in
      inr (sym same_rest, λ plain. further g' (ap ok same) plain)

  either-Local :
      (b : Bool) (s t s' t' : Scanned)
      → Local s s'
      → Local t t'
      → Local (if b then s else t) (if b then s' else t')
  either-Local true s t s' t' h k = h
  either-Local false s t s' t' h k = k

  scan_mode :
      (mode : TokenMode) (h : TokenGuard)
      → h.mode ≡ mode
      → scan_in limits mode d ds h ≡ scan limits d ds h
  unfolding scan
  scan_mode mode h e = ap (λ m. scan_in limits m d ds h) (sym e)

  resumed_text :
      (n : ℕ) (p : ℕ × Text) (g h : TokenGuard)
      → add_text limits (n + p.0) g ≡ add_text limits p.0 h
      → text_at limits (n + p.0, p.1) g ≡ text_at limits p h
  resumed_text n (k, []) g h more = rw more refl
  resumed_text n (k, x ∷ rest) g h more = rw more refl

  text_at-Local :
      (p : ℕ × Text) (g : TokenGuard)
      → g.mode ≡ token_text
      → Local (text_at limits p g) (text_at limits (joined p (λ c. c == b'<') (d ∷ ds)) g)
  text_at-Local (n, c ∷ rest) g mode = ends-Local (add_text limits n g) _ rest
  text_at-Local (n, []) g mode =
      let found = until (λ c. c == b'<') (d ∷ ds) in
      open-Local (add_text limits n g) _ (λ h e _.
        let (more, same) = add_text-add limits n found.0 g h e in
        resumed_text n found g h more ∙ scan_mode token_text h (same ∙ mode))

  resumed_quoted :
      (n : ℕ) (p : ℕ × Text) (g h : TokenGuard)
      → (add_token limits (n + p.0) g >>= add_quoted limits (n + p.0))
        ≡ (add_token limits p.0 h >>= add_quoted limits p.0)
      → quoted_at limits (n + p.0, p.1) g ≡ quoted_at limits p h
  resumed_quoted n (k, []) g h more = rw more refl
  resumed_quoted n (k, x ∷ rest) g h more = rw more refl

  quoted_at-Local :
      (q : ℕ) (p : ℕ × Text) (g : TokenGuard)
      → g.mode ≡ token_element
      → g.quote ≡ some q
      → Local (quoted_at limits p g) (quoted_at limits (joined p (λ c. c == q) (d ∷ ds)) g)
  quoted_at-Local q (n, c ∷ rest) g mode quote =
      ends-Local (add_token limits n g >>= add_quoted limits n >>= add_token limits 1) _ rest
  quoted_at-Local q (n, []) g mode quote =
      let found = until (λ c. c == q) (d ∷ ds) in
      open-Local (add_token limits n g >>= add_quoted limits n) _ (λ h e _.
        let (more, same, still) = add_both-add limits n found.0 g h e in
        resumed_quoted n found g h more
        ∙ ap (λ o. scan_element limits o (d ∷ ds) h) (sym (still ∙ quote))
        ∙ scan_mode token_element h (same ∙ mode))

  resumed_special :
      (n : ℕ) (p : ℕ × Text) (g h : TokenGuard)
      → ((k : ℕ) → add_token limits (n + k) g ≡ add_token limits k h)
      → special_at limits (n + p.0, p.1) g ≡ special_at limits p h
  resumed_special n (k, []) g h more = rw (more k) refl
  resumed_special n (k, x ∷ rest) g h more =
      let sum : n + k + 1 ≡ n + (k + 1) = omega arith in rw (sum, more (k + 1)) refl

  closed-Local :
      (m : Result TokenGuard) (c : ℕ) (left : Text)
      → Local
          (m >>= λ h.
            if c == b'>'
            then ok (finish_markup h, left)
            else ok (record h { quote = some c; quoted_characters = 0 }, left))
          (m >>= λ h.
            if c == b'>'
            then ok (finish_markup h, left ++ d ∷ ds)
            else ok (record h { quote = some c; quoted_characters = 0 }, left ++ d ∷ ds))
  closed-Local (err x) c left g' rest e = absurd (cc e)
  closed-Local (ok h) c left g' rest e =
      either-Local (c == b'>') _ _ _ _ (ends-Local (ok h) finish_markup left)
        (ends-Local (ok h) (λ h. record h { quote = some c; quoted_characters = 0 }) left) g' rest e

  special_at-Local :
      (p : ℕ × Text) (g : TokenGuard)
      → g.mode ≡ token_element
      → g.quote ≡ none
      → Local (special_at limits p g) (special_at limits (joined p is_special (d ∷ ds)) g)
  special_at-Local (n, c ∷ rest) g mode quote = closed-Local (add_token limits (n + 1) g) c rest
  special_at-Local (n, []) g mode quote =
      let found = until is_special (d ∷ ds) in
      open-Local (add_token limits n g) _ (λ h e _.
        let (_, same, still) = add_token-add limits n 0 g h e in
        resumed_special n found g h (λ k. (add_token-add limits n k g h e).0)
        ∙ ap (λ o. scan_element limits o (d ∷ ds) h) (sym (still ∙ quote))
        ∙ scan_mode token_element h (same ∙ mode))

  element-Local :
      (q : Option ℕ) (text : Text) (g : TokenGuard)
      → g.mode ≡ token_element
      → g.quote ≡ q
      → Local (scan_element limits q text g) (scan_element limits q (text ++ d ∷ ds) g)
  element-Local none text g mode quote =
      subst (λ p. Local (scan_element limits none text g) (special_at limits p g))
        (sym (until-append is_special text (d ∷ ds)))
        (special_at-Local (until is_special text) g mode quote)
  element-Local (some q) text g mode quote =
      subst (λ p. Local (scan_element limits (some q) text g) (quoted_at limits p g))
        (sym (until-append (λ c. c == q) text (d ∷ ds)))
        (quoted_at-Local q (until (λ c. c == q) text) g mode quote)

  open_markup-Local :
      (c : ℕ) (cs : Text) (g : TokenGuard)
      → Local (scan_open limits c cs g) (scan_open limits c (cs ++ d ∷ ds) g)
  open_markup-Local c cs g =
      either-Local (c == b'?') _ _ _ _ (ends-Local (add_token limits 1 g) _ cs) (
        either-Local (c == b'!') _ _ _ _ (ends-Local (add_token limits 1 g) _ cs)
          (ends-Local (ok g) (λ g. record g { mode = token_element }) (c ∷ cs)))

  -- A delimiter that is not found keeps the mode, in which a text may not be cut.
  delimited-Local :
      (mode : TokenMode) (delimiter text : Text) (o : Option (ℕ × Text)) (g : TokenGuard)
      → g.mode ≡ mode
      → is_plain mode ≡ false
      → find delimiter text ≡ o
      → Local
          (delimited_at limits delimiter text o g)
          (delimited_at limits delimiter (text ++ d ∷ ds) (find delimiter (text ++ d ∷ ds)) g)
  delimited-Local mode delimiter text none g at_mode closed e =
      open-Local (add_token limits (length text) g) _ (λ h added plain.
        let (_, same, _) = add_token-add limits (length text) 0 g h added in
        absurd (cc (closed, plain, same, at_mode)))
  delimited-Local mode delimiter text (some (n, rest)) g at_mode closed e =
      subst
        (λ o.
          Local (delimited_at limits delimiter text (some (n, rest)) g)
            (delimited_at limits delimiter (text ++ d ∷ ds) o g))
        (sym (find-append delimiter text (d ∷ ds) n rest e))
        (ends-Local (add_token limits (n + length delimiter) g) finish_markup rest)

  cdata-Local :
      (text : Text) (o : Option (ℕ × Text)) (g : TokenGuard)
      → g.mode ≡ token_cdata
      → find (literal "]]>") text ≡ o
      → Local
          (cdata_at limits text o g)
          (cdata_at limits (text ++ d ∷ ds) (find (literal "]]>") (text ++ d ∷ ds)) g)
  cdata-Local text none g at_mode e =
      open-Local (add_text limits (length text) g >>= add_token limits (length text)) _
        (λ h added plain. absurd (cc (plain, cdata_mode limits (length text) g h added, at_mode)))
  cdata-Local text (some (n, rest)) g at_mode e =
      subst
        (λ o.
          Local (cdata_at limits text (some (n, rest)) g) (cdata_at limits (text ++ d ∷ ds) o g))
        (sym (find-append (literal "]]>") text (d ∷ ds) n rest e))
        (ends-Local (add_text limits n g >>= add_token limits n >>= add_token limits 3)
          finish_markup rest)

  scan_in-Local :
      (mode : TokenMode) (c : ℕ) (cs : Text) (g : TokenGuard)
      → g.mode ≡ mode
      → Local (scan_in limits mode c cs g) (scan_in limits mode c (cs ++ d ∷ ds) g)
  scan_in-Local token_text c cs g mode =
      subst (λ p. Local (scan_in limits token_text c cs g) (text_at limits p g))
        (sym (until-append (λ c. c == b'<') (c ∷ cs) (d ∷ ds)))
        (text_at-Local (until (λ c. c == b'<') (c ∷ cs)) g mode)
  scan_in-Local token_open c cs g mode = open_markup-Local c cs g
  scan_in-Local token_element c cs g mode = element-Local g.quote (c ∷ cs) g mode refl
  scan_in-Local token_declaration c cs g mode =
      ends-Local (add_token limits 1 g) (λ h. declared (h.declaration_prefix ++ c ∷ []) h) cs
  scan_in-Local token_comment c cs g mode =
      delimited-Local token_comment (literal "-->") (c ∷ cs) _ g mode refl refl
  scan_in-Local token_cdata c cs g mode = cdata-Local (c ∷ cs) _ g mode refl
  scan_in-Local token_processing_instruction c cs g mode =
      delimited-Local token_processing_instruction (literal "?>") (c ∷ cs) _ g mode refl refl

  pub scan-Local :
      (c : ℕ) (cs : Text) (g : TokenGuard)
      → Local (scan limits c cs g) (scan limits c (cs ++ d ∷ ds) g)
  unfolding scan
  scan-Local c cs g = scan_in-Local g.mode c cs g refl
