-- ===== src/Parsers/Tokens/Rounds.antt =====
-- adapters/parsers/xml.py, `_XmlTokenGuard.feed`: the loop goes on scan by scan, whatever its fuel.
use makolet.Prelude.{ℕ, zero, suc, ◌+◌, ◌*◌, ◌≤◌, ◌≡◌, refl, subst, ◌∙◌, [], ◌∷◌, length, arith}
use makolet.Domain.Values.{Text}
use makolet.Exec.{ok, err}
use makolet.Parsers.Tokens.{
  TokenLimits, TokenGuard, ◌>>=◌, Scanned, scan, feed_next, feed_rounds, enough_rounds, feed,
}
use makolet.Parsers.Tokens.Progress.{measure, measure-le, measure-ge, Falls, scan-Falls}

module _ (limits : TokenLimits) where
  -- Rounds beyond the measure change nothing.
  next_rounds :
      (m n : ℕ) (s : Scanned)
      → ((g : TokenGuard) (rest : Text)
          → s ≡ ok (g, rest)
          → feed_rounds limits m rest g ≡ feed_rounds limits n rest g)
      → (s >>= feed_next (feed_rounds limits m)) ≡ (s >>= feed_next (feed_rounds limits n))
  next_rounds m n (err e) same = refl
  next_rounds m n (ok (g, rest)) same = same g rest refl

  rounds_agree :
      (m n : ℕ) (text : Text) (g : TokenGuard)
      → measure g.mode text ≤ m
      → measure g.mode text ≤ n
      → feed_rounds limits m text g ≡ feed_rounds limits n text g
  unfolding feed_rounds
  rounds_agree zero zero text g h k = refl
  rounds_agree zero (suc n) [] g h k = refl
  rounds_agree (suc m) zero [] g h k = refl
  rounds_agree (suc m) (suc n) [] g h k = refl
  rounds_agree zero (suc n) (c ∷ cs) g h k = absurd (omega (arith, measure-ge g.mode (c ∷ cs)))
  rounds_agree (suc m) zero (c ∷ cs) g h k = absurd (omega (arith, measure-ge g.mode (c ∷ cs)))
  rounds_agree (suc m) (suc n) (c ∷ cs) g h k = next_rounds m n (scan limits c cs g) (λ g' rest e.
      let falls = subst (Falls g.mode (c ∷ cs)) e (scan-Falls limits c cs g) in
      rounds_agree m n rest g' (omega (arith, falls)) (omega (arith, falls)))

  fed_next :
      (m : ℕ) (s : Scanned)
      → ((g : TokenGuard) (rest : Text) → s ≡ ok (g, rest) → measure g.mode rest ≤ m)
      → (s >>= feed_next (feed_rounds limits m)) ≡ (s >>= feed_next (feed limits))
  unfolding feed
  fed_next m (err e) below = refl
  fed_next m (ok (g, rest)) below =
      rounds_agree m (enough_rounds rest) rest g (below g rest refl) (measure-le g.mode rest)

  first_round :
      (c : ℕ) (cs : Text) (g : TokenGuard)
      → feed limits (c ∷ cs) g
        ≡ (scan limits c cs g >>= feed_next (feed_rounds limits (2 * length (c ∷ cs))))
  unfolding feed feed_rounds
  first_round c cs g =
      let e : 2 * length (c ∷ cs) + 1 ≡ suc (2 * length (c ∷ cs)) = omega arith in rw e refl

  -- `feed` is a scan and `feed` of what is left.
  pub feed-cons :
      (c : ℕ) (cs : Text) (g : TokenGuard)
      → feed limits (c ∷ cs) g ≡ (scan limits c cs g >>= feed_next (feed limits))
  feed-cons c cs g =
      first_round c cs g
      ∙ fed_next (2 * length (c ∷ cs)) (scan limits c cs g) (λ g' rest e. omega (
        arith,
        subst (Falls g.mode (c ∷ cs)) e (scan-Falls limits c cs g),
        measure-le g.mode (c ∷ cs),
      ))

  pub feed-nil : (g : TokenGuard) → feed limits [] g ≡ ok g
  unfolding feed feed_rounds
  feed-nil g = refl
