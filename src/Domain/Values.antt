-- ===== src/Domain/Values.antt =====
-- Python's values in the fields of the domain records: texts, integers, decimals, instants.
use makolet.Prelude.{
  ℕ, zero, suc, ◌+◌, ◌/◌, Bool, true, false, Option, none, some, List, [], ◌∷◌, String, ltb, ◌==◌,
  if◌then◌else◌, codes,
}

-- A `str` is the list of its code points.
abbrev pub Text : Type 0
Text = List ℕ

abbrev pub literal : String → Text
literal = codes

-- `len(character.encode("utf-8"))`, of a code point that is no surrogate.
unfoldable pub utf8_width : ℕ → ℕ
utf8_width c = if ltb c 0x80 then 1 else if ltb c 0x800 then 2 else if ltb c 0x10000 then 3 else 4

-- `len(value.encode("utf-8"))`.
unfoldable pub utf8_length : Text → ℕ
unfolding utf8_width
utf8_length [] = 0
utf8_length (c ∷ cs) = utf8_width c + utf8_length cs

-- `int`: a magnitude with a sign.
pub data ℤ : Type 0 where
  pos : ℕ → ℤ
  negsuc : ℕ → ℤ

unfoldable pub magnitude : ℤ → ℕ
magnitude (pos n) = n
magnitude (negsuc n) = suc n

-- `n.bit_length()`. The number itself is fuel enough, since it is halved in each round.
unfoldable pub bits : ℕ → ℕ → ℕ
bits zero n = 0
bits (suc fuel) n = let rest = bits fuel (n / 2) in if n == 0 then 0 else suc rest

unfoldable pub bit_length : ℤ → ℕ
unfolding bits magnitude
bit_length z = bits (magnitude z) (magnitude z)

-- A finite `Decimal`, as `as_tuple()` shows it.
pub record Decimal : Type 0 where
  pub is_negative : Bool
  pub digits : List ℕ
  pub exponent : ℤ

-- An aware `datetime`, by its instant.
abbrev pub Instant : Type 0
Instant = ℕ

-- A `UUID`, by its number.
abbrev pub Uuid : Type 0
Uuid = ℕ

-- A value as `_retained_value_charge` of the ingestion service tells values apart.
mutual
  pub data Value : Type 0 where
    text : Text → Value
    tuple : Values → Value
    decimal : Decimal → Value
    integer : ℤ → Value
    dataclass : Values → Value
    other : Value

  pub data Values : Type 0 where
    end : Values
    item : Value → Values → Values

abbrev pub bool_value : Bool → Value
bool_value true = integer (pos 1)
bool_value false = integer (pos 0)

-- An optional field: `None` is neither text nor number.
abbrev pub optional {ℓ} : {A : Type ℓ} → (A → Value) → Option A → Value
optional f none = other
optional f (some a) = f a

-- An instant or an identifier: a class of its own.
abbrev pub opaque : ℕ → Value
opaque _ = other

abbrev pub tuple_of {ℓ} : {A : Type ℓ} → (A → Value) → List A → Values
tuple_of f [] = end
tuple_of f (a ∷ rest) = item (f a) (tuple_of f rest)

infixr 20 ◌▹◌
abbrev pub ◌▹◌ : Value → Values → Values
v ▹ vs = item v vs
