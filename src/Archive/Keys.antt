-- ===== src/Archive/Keys.antt =====
-- adapters/archive/keys.py: the keys of archived objects, and their keys in an object store under a
-- configured prefix.
pub mod Matching
pub mod RoundTrips
use makolet.Prelude.{
  ℕ, zero, suc, Bool, true, false, ◌&&◌, ◌||◌, not, Option, none, some, List, [], ◌∷◌, ◌++◌, length,
  take, drop, reverse, ◌==◌, if◌then◌else◌, text_eq,
}
use makolet.Domain.Errors.{ErrorKind, failure}
use makolet.Domain.Values.{Text, literal}
use makolet.Domain.Remote.{is_hex_digit, is_sha256}
use makolet.Exec.{Result, ok, err}

-- `key_for_digest`.
abbrev pub canonical_key : Text → Text → Text → Text
canonical_key first second digest =
    literal "sha256/" ++ (first ++ (literal "/" ++ (second ++ (literal "/" ++ digest))))

unfoldable pub key_for_digest : Text → Result Text
unfolding failure is_sha256
key_for_digest digest =
    if not (is_sha256 digest)
    then err (failure ErrorKind.value_error)
    else ok (canonical_key (take 2 digest) (take 2 (drop 2 digest)) digest)

-- The text without the prefix, where it starts with it.
unfoldable pub after_prefix : Text → Text → Option Text
after_prefix [] text = some text
after_prefix (p ∷ ps) [] = none
after_prefix (p ∷ ps) (c ∷ cs) = let rest = after_prefix ps cs in if p == c then rest else none

-- `[0-9a-f]{n}`, with what follows.
abbrev pub with_digit : ℕ → Option (Text × Text) → Option (Text × Text)
with_digit c none = none
with_digit c (some (digits, rest)) = some (c ∷ digits, rest)

unfoldable pub hex_digits : ℕ → Text → Option (Text × Text)
unfolding is_hex_digit
hex_digits zero text = some ([], text)
hex_digits (suc n) [] = none
hex_digits (suc n) (c ∷ cs) =
    let rest = with_digit c (hex_digits n cs) in if is_hex_digit c then rest else none

-- The groups of a match.
pub record KeyMatch : Type 0 where
  pub first : Text
  pub second : Text
  pub digest : Text

-- `OBJECT_KEY_PATTERN.fullmatch`, step by step.
abbrev pub match_end : Text → Text → Option (Text × Text) → Option KeyMatch
match_end first second none = none
match_end first second (some (digest, [])) =
    some (record { first = first; second = second; digest = digest })
match_end first second (some (digest, _ ∷ _)) = none

abbrev pub match_digest : Text → Text → Option Text → Option KeyMatch
match_digest first second none = none
match_digest first second (some rest) = match_end first second (hex_digits 64 rest)

abbrev pub match_second_slash : Text → Option (Text × Text) → Option KeyMatch
match_second_slash first none = none
match_second_slash first (some (second, rest)) =
    match_digest first second (after_prefix (literal "/") rest)

abbrev pub match_second : Text → Option Text → Option KeyMatch
match_second first none = none
match_second first (some rest) = match_second_slash first (hex_digits 2 rest)

abbrev pub match_first_slash : Option (Text × Text) → Option KeyMatch
match_first_slash none = none
match_first_slash (some (first, rest)) = match_second first (after_prefix (literal "/") rest)

abbrev pub match_first : Option Text → Option KeyMatch
match_first none = none
match_first (some rest) = match_first_slash (hex_digits 2 rest)

unfoldable pub match_key : Text → Option KeyMatch
unfolding after_prefix hex_digits
match_key key = match_first (after_prefix (literal "sha256/") key)

abbrev differs : Text → Option Text → Bool
differs digest none = false
differs digest (some expected) = not (text_eq digest expected)

-- `digest_for_key`.
abbrev pub checked_digest : Option Text → Option KeyMatch → Result Text
checked_digest expected none = err (failure ErrorKind.archive_integrity)
checked_digest expected (some m) =
    if not (text_eq m.first (take 2 m.digest)) || not (text_eq m.second (take 2 (drop 2 m.digest)))
    then err (failure ErrorKind.archive_integrity)
    else if differs m.digest expected
    then err (failure ErrorKind.archive_integrity)
    else ok m.digest

unfoldable pub digest_for_key : Text → Option Text → Result Text
unfolding match_key failure
digest_for_key object_key expected = checked_digest expected (match_key object_key)

-- `key_prefix.strip("/")`.
unfoldable pub lstrip : Text → Text
lstrip [] = []
lstrip (c ∷ cs) = let rest = lstrip cs in if c == b'/' then rest else c ∷ cs

unfoldable pub strip : Text → Text
unfolding lstrip
strip text = reverse (lstrip (reverse (lstrip text)))

-- `normalized.split("/")`, with the part that is being read.
unfoldable pub split_from : Text → Text → List Text
split_from part [] = reverse part ∷ []
split_from part (c ∷ cs) =
    if c == b'/' then reverse part ∷ split_from [] cs else split_from (c ∷ part) cs

abbrev is_relative : Text → Bool
is_relative part = text_eq part [] || (text_eq part (literal ".") || text_eq part (literal ".."))

unfoldable pub has_relative : List Text → Bool
has_relative [] = false
has_relative (part ∷ parts) = is_relative part || has_relative parts

abbrev pub is_blank : Text → Bool
is_blank [] = true
is_blank (_ ∷ _) = false

-- `normalize_key_prefix`.
unfoldable pub normalize_key_prefix : Text → Result Text
unfolding failure strip split_from has_relative
normalize_key_prefix key_prefix =
    let normalized = strip key_prefix in
    if not (is_blank normalized) && has_relative (split_from [] normalized)
    then err (failure ErrorKind.value_error)
    else ok normalized

-- `f"{normalized_prefix}/" if normalized_prefix else ""`.
abbrev pub marker : Text → Text
marker prefix = if is_blank prefix then [] else prefix ++ literal "/"

-- `service_key_for_object`: the checks, in their order, and the qualified key.
abbrev pub qualified : Text → Result Text → Result Text → Result Text
qualified object_key (err e) prefix = err e
qualified object_key (ok _) (err e) = err e
qualified object_key (ok _) (ok prefix) =
    ok (if is_blank prefix then object_key else prefix ++ (literal "/" ++ object_key))

unfoldable pub service_key_for_object : Text → Text → Result Text
unfolding digest_for_key normalize_key_prefix
service_key_for_object object_key key_prefix =
    qualified object_key (digest_for_key object_key none) (normalize_key_prefix key_prefix)

-- `object_key_from_service_key`.
abbrev pub checked_key : Text → Result Text → Result Text
checked_key object_key (err e) = err e
checked_key object_key (ok _) = ok object_key

abbrev pub unqualified : Option Text → Option Text → Result Text
unqualified expected none = err (failure ErrorKind.archive_integrity)
unqualified expected (some object_key) = checked_key object_key (digest_for_key object_key expected)

abbrev pub under_prefix : Text → Option Text → Result Text → Result Text
under_prefix service_key expected (err e) = err e
under_prefix service_key expected (ok prefix) =
    unqualified expected (after_prefix (marker prefix) service_key)

unfoldable pub object_key_from_service_key : Text → Text → Option Text → Result Text
unfolding normalize_key_prefix after_prefix failure
object_key_from_service_key service_key key_prefix expected =
    under_prefix service_key expected (normalize_key_prefix key_prefix)
