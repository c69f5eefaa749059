-- ===== src/Parsers/Tokens/Chunks.antt =====
-- adapters/parsers/xml.py, `_XmlTokenGuard.feed`: a text that is cut outside comments, CDATA sections and
-- processing instructions is scanned as if it were whole.
use makolet.Prelude.{
  ℕ, zero, suc, ◌≤◌, ◌≡◌, inl, inr, refl, sym, ap, subst, ◌∙◌, true, [], ◌∷◌, ◌++◌, append-nil,
  arith,
}
use makolet.Domain.Values.{Text}
use makolet.Exec.{ok, err}
use makolet.Parsers.Tokens.{TokenLimits, TokenGuard, ◌>>=◌, Scanned, scan, feed_next, feed}
use makolet.Parsers.Tokens.Progress.{measure, measure-ge, Falls, scan-Falls}
use makolet.Parsers.Tokens.Rounds.{feed-cons, feed-nil}
use makolet.Parsers.Tokens.Searching.{is_plain}
use makolet.Parsers.Tokens.Locality.{Local, scan-Local}

module _ (limits : TokenLimits) where
  -- What is fed after a scan: the rest, and the next text behind it.
  continued :
      (d : ℕ) (ds : Text) (s whole : Scanned) (g' : TokenGuard)
      → Local limits d ds s whole
      → ((g : TokenGuard) (rest : Text)
          → s ≡ ok (g, rest)
          → feed limits rest g ≡ ok g'
          → feed limits (rest ++ d ∷ ds) g ≡ feed limits (d ∷ ds) g')
      → (s >>= feed_next (feed limits)) ≡ ok g'
      → is_plain g'.mode ≡ true
      → (whole >>= feed_next (feed limits)) ≡ feed limits (d ∷ ds) g'
  unfolding feed
  continued d ds (err x) whole g' here later fed plain = absurd (cc fed)
  continued d ds (ok (g, rest)) whole g' here later fed plain = elim (here g rest refl) [
    | inl e ↦ rw e (later g rest refl fed)
    | inr (e, further) ↦
        let same : g ≡ g' = cc (fed, ap (λ r. feed limits r g) e, feed-nil limits g) in
        rw (further (rw same plain))
          (sym (feed-cons limits d ds g) ∙ ap (feed limits (d ∷ ds)) same)
  ]

  fed_on :
      (n : ℕ) (a : Text) (d : ℕ) (ds : Text) (g g' : TokenGuard)
      → measure g.mode a ≤ n
      → feed limits a g ≡ ok g'
      → is_plain g'.mode ≡ true
      → feed limits (a ++ d ∷ ds) g ≡ feed limits (d ∷ ds) g'
  fed_on n [] d ds g g' h fed plain =
      let same : g ≡ g' = cc (fed, feed-nil limits g) in ap (feed limits (d ∷ ds)) same
  fed_on zero (c ∷ cs) d ds g g' h fed plain = absurd (omega (arith, measure-ge g.mode (c ∷ cs)))
  fed_on (suc n) (c ∷ cs) d ds g g' h fed plain =
      feed-cons limits c (cs ++ d ∷ ds) g
      ∙ continued d ds (scan limits c cs g) _ g' (scan-Local limits d ds c cs g)
          (λ g1 rest e again.
            fed_on n rest d ds g1 g'
              (omega (arith, subst (Falls g.mode (c ∷ cs)) e (scan-Falls limits c cs g))) again
              plain)
          (sym (feed-cons limits c cs g) ∙ fed) plain

  -- From any guard, where a text is fed without an error and the guard is then in none of a comment, a
  -- CDATA section and a processing instruction, feeding the text and another as one text has the
  -- result, error or guard, of feeding the other next.
  pub feed-append :
      (a b : Text) (g g' : TokenGuard)
      → feed limits a g ≡ ok g'
      → is_plain g'.mode ≡ true
      → feed limits (a ++ b) g ≡ feed limits b g'
  feed-append a [] g g' fed plain =
      ap (λ t. feed limits t g) (append-nil a) ∙ fed ∙ sym (feed-nil limits g')
  feed-append a (d ∷ ds) g g' fed plain =
      fed_on (measure g.mode a) a d ds g g' (omega arith) fed plain
