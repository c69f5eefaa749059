-- ===== src/Parsers/Tokens.antt =====
-- adapters/parsers/xml.py, `_XmlTokenGuard`: the guard over the tokens of a document that is fed to it
-- chunk by chunk. A position in a text is what stands from it on.
pub mod Progress
pub mod Rounds
pub mod Searching
pub mod Locality
pub mod Chunks
pub mod Cuts
pub mod Pending
use makolet.Prelude.{
  ℕ, zero, suc, ◌+◌, ◌*◌, Bool, true, false, ◌||◌, not, Option, none, some, List, [], ◌∷◌, ◌++◌,
  length, ltb, ◌==◌, if◌then◌else◌, text_eq,
}
use makolet.Domain.Errors.{ErrorKind, failure}
use makolet.Domain.Values.{Text, literal}
use makolet.Exec.{Result, ok, err}

-- `XmlParserLimits`, as far as the guard reads it.
pub record TokenLimits : Type 0 where
  pub maximum_field_characters : ℕ
  pub maximum_token_characters : ℕ

-- `_TOKEN_TEXT` and the others.
pub data TokenMode : Type 0 where
  token_text token_open token_element token_declaration token_comment token_cdata : TokenMode
  token_processing_instruction : TokenMode

pub record TokenGuard : Type 0 where
  pub mode : TokenMode
  pub token_characters : ℕ
  pub text_characters : ℕ
  pub quote : Option ℕ
  pub quoted_characters : ℕ
  pub declaration_prefix : Text

abbrev pub new_guard : TokenGuard
new_guard = record {
  mode = token_text;
  token_characters = 0;
  text_characters = 0;
  quote = none;
  quoted_characters = 0;
  declaration_prefix = [];
}

infixl 10 ◌>>=◌
abbrev pub ◌>>=◌ {ℓ κ} : {A : Type ℓ} {B : Type κ} → Result A → (A → Result B) → Result B
ok a >>= f = f a
err e >>= f = err e

abbrev pub malformed {ℓ} : {A : Type ℓ} → Result A
malformed = err (failure ErrorKind.malformed_document)

-- `_add_text`, `_add_quoted`, `_add_token`.
unfoldable pub add_text : TokenLimits → ℕ → TokenGuard → Result TokenGuard
unfolding failure
add_text limits characters g =
    if ltb limits.maximum_field_characters (g.text_characters + characters)
    then malformed
    else ok (record g { text_characters = g.text_characters + characters })

unfoldable pub add_quoted : TokenLimits → ℕ → TokenGuard → Result TokenGuard
unfolding failure
add_quoted limits characters g =
    if ltb limits.maximum_field_characters (g.quoted_characters + characters)
    then malformed
    else ok (record g { quoted_characters = g.quoted_characters + characters })

unfoldable pub add_token : TokenLimits → ℕ → TokenGuard → Result TokenGuard
unfolding failure
add_token limits characters g =
    if ltb limits.maximum_token_characters (g.token_characters + characters)
    then malformed
    else ok (record g { token_characters = g.token_characters + characters })

-- `_finish_markup`.
abbrev pub finish_markup : TokenGuard → TokenGuard
finish_markup g = new_guard

-- `text.find(c, position)` of a character, or of the first that a pattern matches: the number of
-- characters before it, and the text from it on, which is empty where there is none.
abbrev pub after_character : ℕ → ℕ × Text → ℕ × Text
after_character c (n, rest) = (suc n, rest)

unfoldable pub until : (ℕ → Bool) → Text → ℕ × Text
until test [] = (0, [])
until test (c ∷ cs) =
    let later = after_character c (until test cs) in if test c then (0, c ∷ cs) else later

-- The text after the delimiter, where it starts with it.
unfoldable pub after_delimiter : Text → Text → Option Text
after_delimiter [] text = some text
after_delimiter (d ∷ ds) [] = none
after_delimiter (d ∷ ds) (c ∷ cs) =
    let rest = after_delimiter ds cs in if d == c then rest else none

-- `text.find(delimiter, position)`: the number of characters before it, and the text after it.
abbrev pub one_later : Option (ℕ × Text) → Option (ℕ × Text)
one_later none = none
one_later (some (n, rest)) = some (suc n, rest)

abbrev pub found_here : Option Text → Option (ℕ × Text) → Option (ℕ × Text)
found_here (some rest) later = some (0, rest)
found_here none later = later

unfoldable pub find : Text → Text → Option (ℕ × Text)
unfolding after_delimiter
find delimiter [] = none
find delimiter (c ∷ cs) =
    found_here (after_delimiter delimiter (c ∷ cs)) (one_later (find delimiter cs))

-- A scan returns the guard and the text from its new position on.
abbrev pub Scanned : Type 0
Scanned = Result (TokenGuard × Text)

abbrev pub left_of : Text → TokenGuard → Scanned
left_of rest g = ok (g, rest)

-- `_scan_text`.
abbrev pub text_at : TokenLimits → ℕ × Text → TokenGuard → Scanned
text_at limits (n, []) g = add_text limits n g >>= left_of []
text_at limits (n, c ∷ rest) g = add_text limits n g >>= λ h. ok (
  record h {
    mode = token_open;
    token_characters = 1;
    text_characters = 0;
    declaration_prefix = literal "<";
  },
  rest,
)

abbrev pub scan_text : TokenLimits → Text → TokenGuard → Scanned
scan_text limits text g = text_at limits (until (λ c. c == b'<') text) g

-- `_scan_open`.
abbrev pub scan_open : TokenLimits → ℕ → Text → TokenGuard → Scanned
scan_open limits c cs g =
    if c == b'?'
    then (add_token limits 1 g >>= λ h. ok (record h { mode = token_processing_instruction }, cs))
    else if c == b'!'
    then (add_token limits 1 g >>= λ h.
        ok (record h { mode = token_declaration; declaration_prefix = literal "<!" }, cs))
    else ok (record g { mode = token_element }, c ∷ cs)

-- `_scan_element`, inside and outside a quoted value.
abbrev pub quoted_at : TokenLimits → ℕ × Text → TokenGuard → Scanned
quoted_at limits (n, []) g = add_token limits n g >>= add_quoted limits n >>= left_of []
quoted_at limits (n, c ∷ rest) g =
    add_token limits n g >>= add_quoted limits n >>= add_token limits 1 >>= λ h.
    ok (record h { quote = none; quoted_characters = 0 }, rest)

-- `_MARKUP_SPECIAL`.
abbrev pub is_special : ℕ → Bool
is_special c = c == 0x27 || (c == 0x22 || c == b'>')

abbrev pub special_at : TokenLimits → ℕ × Text → TokenGuard → Scanned
special_at limits (n, []) g = add_token limits n g >>= left_of []
special_at limits (n, c ∷ rest) g = add_token limits (n + 1) g >>= λ h.
    if c == b'>'
    then ok (finish_markup h, rest)
    else ok (record h { quote = some c; quoted_characters = 0 }, rest)

abbrev pub scan_element : TokenLimits → Option ℕ → Text → TokenGuard → Scanned
scan_element limits (some q) text g = quoted_at limits (until (λ c. c == q) text) g
scan_element limits none text g = special_at limits (until is_special text) g

-- `_scan_declaration`.
unfoldable pub starts_with : Text → Text → Bool
starts_with [] text = true
starts_with (p ∷ ps) [] = false
starts_with (p ∷ ps) (c ∷ cs) = let rest = starts_with ps cs in if p == c then rest else false

abbrev pub declared : Text → TokenGuard → TokenGuard
declared prefix h =
    if text_eq prefix (literal "<!--")
    then record h { declaration_prefix = prefix; mode = token_comment }
    else if text_eq prefix (literal "<![CDATA[")
    then record h { declaration_prefix = prefix; mode = token_cdata; text_characters = 0 }
    else if not (starts_with prefix (literal "<!--") || starts_with prefix (literal "<![CDATA["))
    then record h { declaration_prefix = prefix; mode = token_element }
    else record h { declaration_prefix = prefix }

abbrev pub scan_declaration : TokenLimits → ℕ → Text → TokenGuard → Scanned
scan_declaration limits c cs g =
    add_token limits 1 g >>= λ h. ok (declared (h.declaration_prefix ++ c ∷ []) h, cs)

-- `_scan_delimited` and `_scan_cdata`.
abbrev pub delimited_at : TokenLimits → Text → Text → Option (ℕ × Text) → TokenGuard → Scanned
delimited_at limits delimiter text none g = add_token limits (length text) g >>= left_of []
delimited_at limits delimiter text (some (n, rest)) g =
    add_token limits (n + length delimiter) g >>= λ h. ok (finish_markup h, rest)

abbrev pub cdata_at : TokenLimits → Text → Option (ℕ × Text) → TokenGuard → Scanned
cdata_at limits text none g =
    add_text limits (length text) g >>= add_token limits (length text) >>= left_of []
cdata_at limits text (some (n, rest)) g =
    add_text limits n g >>= add_token limits n >>= add_token limits 3 >>= λ h.
    ok (finish_markup h, rest)

-- One round of `feed`, at a position before the end.
abbrev pub scan_in : TokenLimits → TokenMode → ℕ → Text → TokenGuard → Scanned
scan_in limits token_text c cs g = scan_text limits (c ∷ cs) g
scan_in limits token_open c cs g = scan_open limits c cs g
scan_in limits token_element c cs g = scan_element limits g.quote (c ∷ cs) g
scan_in limits token_declaration c cs g = scan_declaration limits c cs g
scan_in limits token_comment c cs g =
    delimited_at limits (literal "-->") (c ∷ cs) (find (literal "-->") (c ∷ cs)) g
scan_in limits token_cdata c cs g = cdata_at limits (c ∷ cs) (find (literal "]]>") (c ∷ cs)) g
scan_in limits token_processing_instruction c cs g =
    delimited_at limits (literal "?>") (c ∷ cs) (find (literal "?>") (c ∷ cs)) g

unfoldable pub scan : TokenLimits → ℕ → Text → TokenGuard → Scanned
unfolding add_text add_quoted add_token until find starts_with text_eq
scan limits c cs g = scan_in limits g.mode c cs g

-- `feed`. A round takes a character, or is followed by one that does.
abbrev pub feed_next :
    (Text → TokenGuard → Result TokenGuard) → TokenGuard × Text → Result TokenGuard
feed_next next (g, rest) = next rest g

unfoldable pub feed_rounds : TokenLimits → ℕ → Text → TokenGuard → Result TokenGuard
unfolding scan failure
feed_rounds limits rounds [] g = ok g
feed_rounds limits zero (c ∷ cs) g = err (failure ErrorKind.other)
feed_rounds limits (suc rounds) (c ∷ cs) g =
    scan limits c cs g >>= feed_next (feed_rounds limits rounds)

abbrev pub enough_rounds : Text → ℕ
enough_rounds text = 2 * length text + 1

unfoldable pub feed : TokenLimits → Text → TokenGuard → Result TokenGuard
unfolding feed_rounds
feed limits text g = feed_rounds limits (enough_rounds text) text g

-- `close`.
abbrev pub is_text : TokenMode → Bool
is_text token_text = true
is_text _ = false

unfoldable pub close : TokenGuard → Result (Unit {0})
unfolding failure
close g = if not (is_text g.mode) then malformed else ok tt
