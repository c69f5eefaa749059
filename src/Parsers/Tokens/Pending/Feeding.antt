-- ===== src/Parsers/Tokens/Pending/Feeding.antt =====
-- adapters/parsers/xml.py, `_XmlTokenGuard.feed`: the texts of a document that are fed one after the other.
use makolet.Prelude.{List, [], ◌∷◌}
use makolet.Domain.Values.{Text}
use makolet.Exec.{Result, ok}
use makolet.Parsers.Tokens.{TokenLimits, TokenGuard, ◌>>=◌, feed}

-- The texts of a document, one after the other.
abbrev pub feed_all : TokenLimits → List Text → TokenGuard → Result TokenGuard
feed_all limits [] g = ok g
feed_all limits (text ∷ texts) g = feed limits text g >>= feed_all limits texts
