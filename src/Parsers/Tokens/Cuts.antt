-- ===== src/Parsers/Tokens/Cuts.antt =====
-- adapters/parsers/xml.py, `_XmlTokenGuard._scan_delimited`: a comment whose end is cut by two chunks.
use makolet.Prelude.{
  ℕ, ◌+◌, ◌<◌, ◌≤◌, ◌≡◌, refl, sym, ap, ◌∙◌, Bool, true, false, ◌&&◌, not, Option, none, some, [],
  ◌∷◌, ◌++◌, length, length-append, ◌==◌, arith,
}
use makolet.Domain.Values.{Text, literal}
use makolet.Domain.Errors.{failure}
use makolet.Exec.{ok}
use makolet.Parsers.Tokens.{
  TokenLimits, token_comment, TokenGuard, new_guard, ◌>>=◌, malformed, add_token, after_delimiter,
  one_later, find, delimited_at, scan_in, scan, feed_next, feed, close,
}
use makolet.Parsers.Tokens.Rounds.{feed-cons, feed-nil}

-- A text with no dash.
unfoldable pub has_no_dash : Text → Bool
has_no_dash [] = true
has_no_dash (c ∷ cs) = not (b'-' == c) && has_no_dash cs

abbrev later_by : Text → Option (ℕ × Text) → Option (ℕ × Text)
later_by body none = none
later_by body (some (n, rest)) = some (length body + n, rest)

later_by-cons :
    (c : ℕ) (body : Text) (o : Option (ℕ × Text))
    → one_later (later_by body o) ≡ later_by (c ∷ body) o
later_by-cons c body none = refl
later_by-cons c body (some (n, rest)) = ground arith

later_by-nil : (o : Option (ℕ × Text)) → later_by [] o ≡ o
later_by-nil none = refl
later_by-nil (some (n, rest)) = ground arith

no_dash-parts : (b c : Bool) → (not b && c) ≡ true → (b ≡ false) × (c ≡ true)
no_dash-parts true c h = absurd (cc h)
no_dash-parts false true h = (refl, refl)
no_dash-parts false false h = absurd (cc h)

-- A delimiter that starts with a dash is looked for behind a text with no dash.
find-dash :
    (ds body text : Text)
    → has_no_dash body ≡ true
    → find (b'-' ∷ ds) (body ++ text) ≡ later_by body (find (b'-' ∷ ds) text)
unfolding has_no_dash find after_delimiter
find-dash ds [] text h = sym (later_by-nil (find (b'-' ∷ ds) text))
find-dash ds (c ∷ cs) text h =
    let (no_dash, still) = no_dash-parts (b'-' == c) (has_no_dash cs) h in
    rw (no_dash, find-dash ds cs text still) (later_by-cons c cs (find (b'-' ∷ ds) text))

module _ (limits : TokenLimits) where
  -- One feed of a text that is not empty, in a comment.
  feed_comment :
      (c : ℕ) (cs : Text) (g : TokenGuard) (o : Option (ℕ × Text))
      → g.mode ≡ token_comment
      → find (literal "-->") (c ∷ cs) ≡ o
      → feed limits (c ∷ cs) g
        ≡ (delimited_at limits (literal "-->") (c ∷ cs) o g >>= feed_next (feed limits))
  unfolding scan
  feed_comment c cs g o mode e =
      feed-cons limits c cs g
      ∙ ap (λ m. scan_in limits m c cs g >>= feed_next (feed limits)) mode
      ∙ ap (λ o. delimited_at limits (literal "-->") (c ∷ cs) o g >>= feed_next (feed limits)) e

  charged :
      (n : ℕ) (g : TokenGuard)
      → g.token_characters + n ≤ limits.maximum_token_characters
      → add_token limits n g ≡ ok (record g { token_characters = g.token_characters + n })
  unfolding add_token
  charged n g h = ground arith

  -- A text in which the end of the comment is not found is charged, and the comment goes on.
  feed-unfinished :
      (text : Text) (g : TokenGuard)
      → 0 < length text
      → g.mode ≡ token_comment
      → find (literal "-->") text ≡ none
      → g.token_characters + length text ≤ limits.maximum_token_characters
      → feed limits text g ≡ ok (record g { token_characters = g.token_characters + length text })
  feed-unfinished [] g some_text mode e h = absurd (omega arith)
  feed-unfinished (c ∷ cs) g some_text mode e h =
      feed_comment c cs g none mode e
      ∙ rw (charged (length (c ∷ cs)) g h)
          (feed-nil limits (record g { token_characters = g.token_characters + length (c ∷ cs) }))

  feed-finished :
      (text : Text) (n : ℕ) (g : TokenGuard)
      → g.mode ≡ token_comment
      → find (literal "-->") text ≡ some (n, [])
      → g.token_characters + (n + 3) ≤ limits.maximum_token_characters
      → feed limits text g ≡ ok new_guard
  unfolding find
  feed-finished [] n g mode e h = absurd (cc e)
  feed-finished (c ∷ cs) n g mode e h =
      feed_comment c cs g (some (n, [])) mode e
      ∙ rw (charged (n + 3) g h) (feed-nil limits new_guard)

  close-unfinished : (g : TokenGuard) → g.mode ≡ token_comment → close g ≡ malformed
  unfolding close failure
  close-unfinished g mode = rw mode refl

  -- A comment that is fed in two parts, neither of which has its end.
  parted :
      (body first second : Text) (g : TokenGuard)
      → g.mode ≡ token_comment
      → 0 < length first
      → 0 < length second
      → length first + length second ≡ 3
      → g.token_characters + (length body + 3) ≤ limits.maximum_token_characters
      → find (literal "-->") (body ++ first) ≡ none
      → find (literal "-->") second ≡ none
      → (feed limits (body ++ first) g >>= feed limits second >>= close) ≡ malformed
  parted body first second g mode some_first some_second three h e k =
      let n : length (body ++ first) ≡ length body + length first = length-append body first in
      let g1 : TokenGuard = record g {
        token_characters = g.token_characters + length (body ++ first);
      } in
      rw
        (
          feed-unfinished (body ++ first) g (omega (arith, n)) mode e (omega (arith, n)),
          feed-unfinished second g1 some_second mode k (omega (arith, n)),
        )
        (close-unfinished (record g1 { token_characters = g1.token_characters + length second })
          mode)

  -- From a guard in a comment, a rest of it with no dash in it and the `-->` at its end, within the
  -- token limit: fed as one text the guard closes, and fed as two texts that part the `-->` after its
  -- first or its second dash the guard refuses at the end.
  pub close-feed_parted :
      (body : Text) (g : TokenGuard)
      → g.mode ≡ token_comment
      → has_no_dash body ≡ true
      → g.token_characters + (length body + 3) ≤ limits.maximum_token_characters
      → ((feed limits (body ++ literal "-->") g >>= close) ≡ ok tt)
        × ((feed limits (body ++ literal "-") g >>= feed limits (literal "->") >>= close)
            ≡ malformed)
        × ((feed limits (body ++ literal "--") g >>= feed limits (literal ">") >>= close)
            ≡ malformed)
  unfolding close find after_delimiter
  close-feed_parted body g mode no_dash h = (
    rw
        (feed-finished (body ++ literal "-->") (length body) g mode
          (find-dash (literal "->") body (literal "-->") no_dash ∙ ground arith) h)
        refl,
    parted body (literal "-") (literal "->") g mode (omega arith) (omega arith) (omega arith) h
        (find-dash (literal "->") body (literal "-") no_dash) refl,
    parted body (literal "--") (literal ">") g mode (omega arith) (omega arith) (omega arith) h
        (find-dash (literal "->") body (literal "--") no_dash) refl,
  )
