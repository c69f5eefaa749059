-- ===== src/Worker/Sources/Selection.antt =====
-- `_source_ids` against a description of what it selects.
use makolet.Prelude.{
  ℕ, ◌≤◌, ◌≡◌, refl, sym, ap, ◌∙◌, Bool, true, false, ◌||◌, ◌&&◌, not, List, [], ◌∷◌, ◌++◌,
  append_assoc, append-nil, map, length, length-append, ltb, leb, if_cases, if◌then◌else◌, text_eq,
  arith,
}
use makolet.Domain.Errors.{ErrorKind, failure}
use makolet.Domain.Documents.{text_in, from_keys}
use makolet.Domain.Values.{Text}
use makolet.Exec.{Result, ok, err}
use makolet.Worker.Sources.{strip, is_source_id, insert, select_from, source_ids}

abbrev pub all_source_ids : List Text → Bool
all_source_ids [] = true
all_source_ids (id ∷ ids) = is_source_id id && all_source_ids ids

-- Each source once, in the order of the first mentions, where all are valid and no more than allowed.
abbrev pub selected_of : ℕ → List Text → List Text → Result (List Text)
selected_of maximum ids selected =
    if all_source_ids ids && leb (length selected) maximum
    then ok selected
    else err (failure ErrorKind.value_error)

text_in-append :
    (id : Text) (xs ys : List Text) → text_in id (xs ++ ys) ≡ (text_in id xs || text_in id ys)
unfolding text_in
text_in-append id [] ys = refl
text_in-append id (x ∷ xs) ys = ground (arith, text_in-append id xs ys)

-- Only which texts were seen counts.
from_keys-seen :
    (xs s t : List Text)
    → ((id : Text) → text_in id s ≡ text_in id t)
    → from_keys s xs ≡ from_keys t xs
unfolding from_keys text_in
from_keys-seen [] s t same = refl
from_keys-seen (x ∷ xs) s t same =
    rw
      (
        same x,
        from_keys-seen xs s t same,
        from_keys-seen xs (x ∷ s) (x ∷ t) (λ id. ap (λ b. text_eq id x || b) (same id)),
      )
      refl

seen_last : (x id : Text) (s : List Text) → text_in id (x ∷ s) ≡ text_in id (s ++ (x ∷ []))
unfolding text_in
seen_last x id s = ground (arith, text_in-append id s (x ∷ []))

from_keys-old :
    (x : Text) (xs s : List Text) → text_in x s ≡ true → from_keys s (x ∷ xs) ≡ from_keys s xs
unfolding from_keys
from_keys-old x xs s old = rw old refl

from_keys-new :
    (x : Text) (xs s : List Text)
    → text_in x s ≡ false
    → s ++ from_keys s (x ∷ xs) ≡ (s ++ (x ∷ [])) ++ from_keys (s ++ (x ∷ [])) xs
unfolding from_keys
from_keys-new x xs s new = rw new (
    ap (λ l. s ++ (x ∷ l)) (from_keys-seen xs (x ∷ s) (s ++ (x ∷ [])) (λ id. seen_last x id s))
    ∙ sym (append_assoc s (x ∷ []) (from_keys (s ++ (x ∷ [])) xs)))

total_same :
    (id : Text) (ids selected : List Text)
    → selected ++ from_keys selected (id ∷ ids)
      ≡ insert id selected ++ from_keys (insert id selected) ids
total_same id ids selected =
    if_cases (λ more. selected ++ from_keys selected (id ∷ ids) ≡ more ++ from_keys more ids)
      (text_in id selected) selected (selected ++ (id ∷ []))
      (λ old. ap (λ l. selected ++ l) (from_keys-old id ids selected old))
      (λ new. from_keys-new id ids selected new)

refused_of :
    (maximum : ℕ) (ids selected : List Text)
    → (all_source_ids ids && leb (length selected) maximum) ≡ false
    → err (failure ErrorKind.value_error) ≡ selected_of maximum ids selected
refused_of maximum ids selected h = rw h refl

select_from-selected :
    (maximum : ℕ) (values selected : List Text)
    → length selected ≤ maximum
    → select_from maximum selected values
      ≡ selected_of maximum (map strip values) (selected ++ from_keys selected (map strip values))
unfolding select_from from_keys
select_from-selected maximum [] selected h =
    let fits : leb (length selected) maximum ≡ true = ground (arith, h) in
    rw (append-nil selected, fits) refl
select_from-selected maximum (v ∷ vs) selected h =
    let id = strip v in
    let more = insert id selected in
    let rest = from_keys more (map strip vs) in
    (if_cases (λ r. r ≡ selected_of maximum (id ∷ map strip vs) (more ++ rest))
      (not (is_source_id id)) _ _
      (λ bad. refused_of maximum (id ∷ map strip vs) (more ++ rest) (ground (arith, bad)))
      (λ good.
        let valid : is_source_id id ≡ true = ground (arith, good) in
        if_cases (λ r. r ≡ selected_of maximum (id ∷ map strip vs) (more ++ rest))
          (ltb maximum (length more)) _ _
          (λ over.
            refused_of maximum (id ∷ map strip vs) (more ++ rest)
              (ground (arith, over, length-append more rest)))
          (λ room.
            select_from-selected maximum vs more (ground (arith, room))
            ∙ ap
                (λ b.
                  if b && leb (length (more ++ rest)) maximum
                  then ok (more ++ rest)
                  else err (failure ErrorKind.value_error))
                (sym (ap (λ b. b && all_source_ids (map strip vs)) valid)))))
    ∙ ap (selected_of maximum (id ∷ map strip vs)) (sym (total_same id (map strip vs) selected))

-- `_source_ids` returns the stripped values, each once and in the order of its first mention, where
-- all of them are source identifiers and, without repetitions, no more than `maximum`; otherwise it
-- raises a `ValueError`, whichever of its checks fails first.
pub source_ids-selected :
    (maximum : ℕ) (values : List Text)
    → source_ids maximum values
      ≡ selected_of maximum (map strip values) (from_keys [] (map strip values))
source_ids-selected maximum values = select_from-selected maximum values [] (omega arith)
