-- ===== src/Parsers/Tokens/Pending/Splits.antt =====
-- adapters/parsers/xml.py, `_XmlTokenGuard`: the part of a text that a search goes over.
use makolet.Prelude.{
  ℕ, suc, ◌≡◌, inl, inr, refl, sym, ap, ◌∙◌, Bool, true, false, Option, none, some, [], ◌∷◌, ◌++◌,
  length, All, ◌==◌, ==_iff, Bool-cases, if◌then◌else◌, arith,
}
use makolet.Domain.Values.{Text}
use makolet.Parsers.Tokens.{until, after_delimiter, one_later, found_here, find}

-- A text is a part of the given length and the rest.
pub record Parts (text : Text) (n : ℕ) (rest : Text) : Type 0 where
  pub front : Text
  pub splits : text ≡ front ++ rest
  pub size : length front ≡ n

abbrev behind_first :
    (c : ℕ) (text rest : Text) (n : ℕ) → Parts text n rest → Parts (c ∷ text) (suc n) rest
behind_first c text rest n p = record {
  front = c ∷ p.front;
  splits = ap (λ t. c ∷ t) p.splits;
  size = omega (arith, p.size);
}

after_delimiter-splits :
    (delimiter text rest : Text)
    → after_delimiter delimiter text ≡ some rest
    → text ≡ delimiter ++ rest
unfolding after_delimiter
after_delimiter-splits [] text rest e = cc e
after_delimiter-splits (d ∷ ds) [] rest e = absurd (cc e)
after_delimiter-splits (d ∷ ds) (c ∷ cs) rest e = elim (Bool-cases (d == c)) [
  | inl same ↦
      let deeper : after_delimiter ds cs ≡ some rest =
        sym (ap (λ b. if b then after_delimiter ds cs else none) same) ∙ e in
      let first : d ≡ c = (==_iff d c).0 same in
      rw (first, after_delimiter-splits ds cs rest deeper) refl
  | inr other ↦
      let no_rest : none ≡ some rest =
        sym (ap (λ b. if b then after_delimiter ds cs else none) other) ∙ e in
      absurd (cc no_rest)
]

-- A delimiter behind a part of the given length.
pub record FoundAt (delimiter text : Text) (n : ℕ) (rest : Text) : Type 0 where
  pub front : Text
  pub splits : text ≡ front ++ (delimiter ++ rest)
  pub size : length front ≡ n

abbrev pub FoundParts : Text → Text → Option (ℕ × Text) → Type 0
FoundParts delimiter text none = Unit
FoundParts delimiter text (some (n, rest)) = FoundAt delimiter text n rest

found-Parts :
    (delimiter : Text) (c : ℕ) (cs : Text) (here : Option Text) (later : Option (ℕ × Text))
    → after_delimiter delimiter (c ∷ cs) ≡ here
    → FoundParts delimiter cs later
    → FoundParts delimiter (c ∷ cs) (found_here here (one_later later))
found-Parts delimiter c cs (some rest) later e h = record {
  front = [];
  splits = after_delimiter-splits delimiter (c ∷ cs) rest e;
  size = refl;
}
found-Parts delimiter c cs none none e h = tt
found-Parts delimiter c cs none (some (n, rest)) e h = record {
  front = c ∷ h.front;
  splits = ap (λ t. c ∷ t) h.splits;
  size = omega (arith, h.size);
}

pub find-Parts : (delimiter text : Text) → FoundParts delimiter text (find delimiter text)
unfolding find
find-Parts delimiter [] = tt
find-Parts delimiter (c ∷ cs) = found-Parts delimiter c cs _ _ refl (find-Parts delimiter cs)

-- A search for a character goes over a part without it.
abbrev pub FirstIs : (ℕ → Bool) → Text → Type 0
FirstIs test [] = Unit
FirstIs test (c ∷ cs) = test c ≡ true

pub record Passed (test : ℕ → Bool) (text : Text) (p : ℕ × Text) : Type 0 where
  pub part : Parts text p.0 p.1
  pub clear : All (λ c. test c ≡ false) part.front
  pub first : FirstIs test p.1

pub until-Passed : (test : ℕ → Bool) (text : Text) → Passed test text (until test text)
unfolding until
until-Passed test [] = record {
  part = record { front = []; splits = refl; size = refl };
  clear = tt;
  first = tt;
}
until-Passed test (c ∷ cs) = elim (Bool-cases (test c)) [
  | inl e ↦
      rw e
        (record { part = record { front = []; splits = refl; size = refl }; clear = tt; first = e })
  | inr e ↦
      let p = until-Passed test cs in
      rw e (record {
        part = behind_first c cs (until test cs).1 (until test cs).0 p.part;
        clear = (e, p.clear);
        first = p.first;
      })
]
