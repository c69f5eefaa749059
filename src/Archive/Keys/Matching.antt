-- ===== src/Archive/Keys/Matching.antt =====
-- What `OBJECT_KEY_PATTERN` matches, and the match of a digest's key.
use makolet.Prelude.{
  ℕ, zero, suc, ◌≡◌, ◌↔◌, refl, sym, ap, subst, ◌∙◌, true, Option, none, some, [], ◌∷◌, ◌++◌,
  append-nil, length, take, drop, length-take, length-drop, ◌==◌, ==_iff, if_cases, if◌then◌else◌,
  arith,
}
use makolet.Domain.Values.{Text, literal}
use makolet.Domain.Remote.{is_hex_digit, all_hex_digits, is_sha256}
use makolet.Archive.Keys.{
  KeyMatch, canonical_key, after_prefix, with_digit, hex_digits, match_end, match_digest,
  match_second_slash, match_second, match_first_slash, match_first, match_key,
}

-- A prefix is found where it stands, and only there.
pub after_prefix-append : (p t : Text) → after_prefix p (p ++ t) ≡ some t
unfolding after_prefix
after_prefix-append [] t = refl
after_prefix-append (c ∷ p) t = ground (arith, after_prefix-append p t)

pub after_prefix-found : (p s t : Text) → after_prefix p s ≡ some t → s ≡ p ++ t
unfolding after_prefix
after_prefix-found [] s t h = cc h
after_prefix-found (c ∷ p) [] t h = cc h
after_prefix-found (c ∷ p) (d ∷ s) t h =
    if_cases (λ o. o ≡ some t → d ∷ s ≡ (c ∷ p) ++ t) (c == d) (after_prefix p s) none
      (λ same found. cc ((==_iff c d).0 same, after_prefix-found p s t found)) (λ _ no_. cc no_) h

-- So many hex digits are found where they stand, and only there.
hex_digits-append :
    (n : ℕ) (a t : Text)
    → length a ≡ n
    → all_hex_digits a ≡ true
    → hex_digits n (a ++ t) ≡ some (a, t)
unfolding hex_digits all_hex_digits
hex_digits-append zero [] t l h = refl
hex_digits-append zero (c ∷ a) t l h = absurd (omega (arith, l))
hex_digits-append (suc n) [] t l h = absurd (omega (arith, l))
hex_digits-append (suc n) (c ∷ a) t l h =
    let digit : is_hex_digit c ≡ true = ground (arith, h) in
    let rest : all_hex_digits a ≡ true = ground (arith, h) in
    rw (digit, hex_digits-append n a t (omega (arith, l)) rest) refl

-- `s` is `n` digits and a rest.
abbrev IsDigits : ℕ → Text → Text → Text → Type 0
IsDigits n s a t = (s ≡ a ++ t) × (length a ≡ n) × (all_hex_digits a ≡ true)

one_more :
    (n c : ℕ) (s a b t : Text)
    → is_hex_digit c ≡ true
    → c ∷ b ≡ a
    → IsDigits n s b t
    → IsDigits (suc n) (c ∷ s) a t
unfolding all_hex_digits
one_more n c s a b t digit e (split, l, h) = (
  cc (split, e),
  ap length (sym e) ∙ ap suc l,
  ap all_hex_digits (sym e) ∙ ground (arith, digit, h),
)

one_step :
    (n c : ℕ) (s a t : Text) (o : Option (Text × Text))
    → ((b : Text) → o ≡ some (b, t) → IsDigits n s b t)
    → (if is_hex_digit c then with_digit c o else none) ≡ some (a, t)
    → IsDigits (suc n) (c ∷ s) a t
one_step n c s a t none prev =
    if_cases (λ o. o ≡ some (a, t) → IsDigits (suc n) (c ∷ s) a t) (is_hex_digit c) none none
      (λ _ k. cc k) (λ _ k. cc k)
one_step n c s a t (some (b, u)) prev =
    if_cases (λ o. o ≡ some (a, t) → IsDigits (suc n) (c ∷ s) a t) (is_hex_digit c)
      (some (c ∷ b, u)) none
      (λ digit k.
        let e : c ∷ b ≡ a = cc k in
        let f : some (b, u) ≡ some (b, t) = cc k in one_more n c s a b t digit e (prev b f))
      (λ _ k. cc k)

hex_digits-found : (n : ℕ) (s a t : Text) → hex_digits n s ≡ some (a, t) → IsDigits n s a t
unfolding hex_digits all_hex_digits
hex_digits-found zero s a t h =
    let e : [] ≡ a = cc h in (cc (h, e), ap length (sym e), ap all_hex_digits (sym e))
hex_digits-found (suc n) [] a t h = cc h
hex_digits-found (suc n) (c ∷ s) a t h =
    one_step n c s a t (hex_digits n s) (λ b. hex_digits-found n s b t) h

-- The whole of a key that matches.
pub record IsKey (key : Text) (m : KeyMatch) : Type 0 where
  pub spelled : key ≡ canonical_key m.first m.second m.digest
  pub first_length : length m.first ≡ 2
  pub first_digits : all_hex_digits m.first ≡ true
  pub second_length : length m.second ≡ 2
  pub second_digits : all_hex_digits m.second ≡ true
  pub digest_length : length m.digest ≡ 64
  pub digest_digits : all_hex_digits m.digest ≡ true

pub match_key-IsKey :
    (m : KeyMatch)
    → IsKey (canonical_key m.first m.second m.digest) m
    → match_key (canonical_key m.first m.second m.digest) ≡ some m
unfolding match_key
match_key-IsKey m k =
    ap match_first (
      after_prefix-append (literal "sha256/")
        (m.first ++ (literal "/" ++ (m.second ++ (literal "/" ++ m.digest)))))
    ∙ ap match_first_slash (
        hex_digits-append 2 m.first (literal "/" ++ (m.second ++ (literal "/" ++ m.digest)))
          k.first_length k.first_digits)
    ∙ ap (match_second m.first)
        (after_prefix-append (literal "/") (m.second ++ (literal "/" ++ m.digest)))
    ∙ ap (match_second_slash m.first)
        (hex_digits-append 2 m.second (literal "/" ++ m.digest) k.second_length k.second_digits)
    ∙ ap (match_digest m.first m.second) (after_prefix-append (literal "/") m.digest)
    ∙ ap (match_end m.first m.second) whole
  where
    whole : hex_digits 64 m.digest ≡ some (m.digest, [])
    whole =
        ap (hex_digits 64) (sym (append-nil m.digest))
        ∙ hex_digits-append 64 m.digest [] k.digest_length k.digest_digits

-- A step that finds something had something to go on.
found_by :
    {A B : Type 0} (step : Option A → Option B) (o : Option A) (b : B)
    → step none ≡ none
    → step o ≡ some b
    → (a : A) × (o ≡ some a) × (step (some a) ≡ some b)
found_by step none b strict h = cc (strict, h)
found_by step (some a) b strict h = (a, refl, h)

at_end :
    (first second digest rest : Text) (m : KeyMatch)
    → match_end first second (some (digest, rest)) ≡ some m
    → (rest ≡ []) × (record { first = first; second = second; digest = digest } ≡ m)
at_end first second digest [] m h = (refl, cc h)
at_end first second digest (c ∷ cs) m h = cc h

spell :
    (key after_head after_first after_slash after_second tail first second digest : Text)
    → key ≡ literal "sha256/" ++ after_head
    → after_head ≡ first ++ after_first
    → after_first ≡ literal "/" ++ after_slash
    → after_slash ≡ second ++ after_second
    → after_second ≡ literal "/" ++ tail
    → tail ≡ digest ++ []
    → key ≡ canonical_key first second digest
spell key a b c d tail first second digest e1 e2 e3 e4 e5 e6 =
    cc (e1, e2, e3, e4, e5, e6, append-nil digest)

pub match_key-found : (key : Text) (m : KeyMatch) → match_key key ≡ some m → IsKey key m
unfolding match_key
match_key-found key m h =
    let (a, e1, h1) = found_by match_first (after_prefix (literal "sha256/") key) m refl h in
    let ((first, b), e2, h2) = found_by match_first_slash (hex_digits 2 a) m refl h1 in
    let (c, e3, h3) = found_by (match_second first) (after_prefix (literal "/") b) m refl h2 in
    let ((second, d), e4, h4) = found_by (match_second_slash first) (hex_digits 2 c) m refl h3 in
    let (tail, e5, h5) =
      found_by (match_digest first second) (after_prefix (literal "/") d) m refl h4 in
    let ((digest, rest), e6, h6) =
      found_by (match_end first second) (hex_digits 64 tail) m refl h5 in
    let (last, same) = at_end first second digest rest m h6 in
    let (s2, l2, d2) = hex_digits-found 2 a first b e2 in
    let (s4, l4, d4) = hex_digits-found 2 c second d e4 in
    let (s6, l6, d6) = hex_digits-found 64 tail digest rest e6 in
    subst (IsKey key) same (record {
      spelled =
          spell key a b c d tail first second digest
            (after_prefix-found (literal "sha256/") key a e1) s2
            (after_prefix-found (literal "/") b c e3) s4
            (after_prefix-found (literal "/") d tail e5) (s6 ∙ ap (λ r. digest ++ r) last);
      first_length = l2;
      first_digits = d2;
      second_length = l4;
      second_digits = d4;
      digest_length = l6;
      digest_digits = d6;
    })

all_hex_digits-take :
    (n : ℕ) (s : Text) → all_hex_digits s ≡ true → all_hex_digits (take n s) ≡ true
unfolding all_hex_digits
all_hex_digits-take zero s h = refl
all_hex_digits-take (suc n) [] h = refl
all_hex_digits-take (suc n) (c ∷ s) h = ground (arith, h, all_hex_digits-take n s)

all_hex_digits-drop :
    (n : ℕ) (s : Text) → all_hex_digits s ≡ true → all_hex_digits (drop n s) ≡ true
unfolding all_hex_digits
all_hex_digits-drop zero s h = h
all_hex_digits-drop (suc n) [] h = refl
all_hex_digits-drop (suc n) (c ∷ s) h = all_hex_digits-drop n s (ground (arith, h))

pub is_sha256_iff :
    (d : Text) → (is_sha256 d ≡ true) ↔ ((length d ≡ 64) × (all_hex_digits d ≡ true))
unfolding is_sha256
is_sha256_iff d = ground arith

pub digest_IsKey :
    (d : Text)
    → is_sha256 d ≡ true
    → IsKey
        (canonical_key (take 2 d) (take 2 (drop 2 d)) d)
        (record { first = take 2 d; second = take 2 (drop 2 d); digest = d })
digest_IsKey d h =
    let (l, digits) = (is_sha256_iff d).0 h in
    record {
      spelled = refl;
      first_length = length-take 2 d (omega (arith, l));
      first_digits = all_hex_digits-take 2 d digits;
      second_length = length-take 2 (drop 2 d) (omega (arith, l, length-drop 2 d));
      second_digits = all_hex_digits-take 2 (drop 2 d) (all_hex_digits-drop 2 d digits);
      digest_length = l;
      digest_digits = digits;
    }
