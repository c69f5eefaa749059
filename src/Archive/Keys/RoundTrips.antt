-- ===== src/Archive/Keys/RoundTrips.antt =====
-- The keys of adapters/archive/keys.py and their parsers undo each other.
use makolet.Prelude.{
  ◌≡◌, ◌↔◌, refl, sym, ap, ◌∙◌, true, ◌||◌, not, Option, none, some, [], ◌∷◌, ◌++◌, append_assoc,
  length, take, drop, if_cases, if◌then◌else◌, text_eq, text_eq_iff, text_eq_refl, arith,
}
use makolet.Domain.Values.{Text, literal}
use makolet.Domain.Remote.{all_hex_digits, is_sha256}
use makolet.Exec.{Result, ok, err}
use makolet.Archive.Keys.{
  KeyMatch, canonical_key, key_for_digest, after_prefix, match_key, checked_digest, digest_for_key,
  normalize_key_prefix, is_blank, marker, qualified, service_key_for_object, checked_key,
  unqualified, under_prefix, object_key_from_service_key,
}
use makolet.Archive.Keys.Matching.{
  after_prefix-append, after_prefix-found, IsKey, match_key-IsKey, match_key-found, digest_IsKey,
  is_sha256_iff,
}

read_back :
    (d : Text)
    → is_sha256 d ≡ true
    → digest_for_key (canonical_key (take 2 d) (take 2 (drop 2 d)) d) none ≡ ok d
unfolding digest_for_key
read_back d h =
    ap (checked_digest none) (match_key-IsKey _ (digest_IsKey d h))
    ∙ rw (text_eq_refl (take 2 d), text_eq_refl (take 2 (drop 2 d))) refl

written_then_read :
    (digest key : Text) → key_for_digest digest ≡ ok key → digest_for_key key none ≡ ok digest
unfolding key_for_digest
written_then_read digest key =
    if_cases (λ r. r ≡ ok key → digest_for_key key none ≡ ok digest) (not (is_sha256 digest)) _ _
      (λ _ h. cc h)
      (λ valid h.
        let e : canonical_key (take 2 digest) (take 2 (drop 2 digest)) digest ≡ key = cc h in
        ap (λ k. digest_for_key k none) (sym e) ∙ read_back digest (ground (arith, valid)))

-- A digest that is read passed the tests of its groups.
abbrev IsChecked : Option KeyMatch → Text → Type 0
IsChecked o digest =
    (m : KeyMatch) × (o ≡ some m)
    × (m.digest ≡ digest)
    × (m.first ≡ take 2 m.digest)
    × (m.second ≡ take 2 (drop 2 m.digest))

checked_digest-IsChecked :
    (o : Option KeyMatch) (digest : Text) → checked_digest none o ≡ ok digest → IsChecked o digest
checked_digest-IsChecked none digest h = cc h
checked_digest-IsChecked (some m) digest h =
    if_cases (λ r. r ≡ ok digest → IsChecked (some m) digest)
      (not (text_eq m.first (take 2 m.digest)) || not (text_eq m.second (take 2 (drop 2 m.digest))))
      _ _ (λ _ k. cc k)
      (λ same k. (
        m,
        refl,
        cc k,
        (text_eq_iff m.first (take 2 m.digest)).0 (ground (arith, same)),
        (text_eq_iff m.second (take 2 (drop 2 m.digest))).0 (ground (arith, same)),
      ))
      h

canonical_digest :
    (m : KeyMatch) (key digest : Text)
    → IsKey key m
    → m.digest ≡ digest
    → m.first ≡ take 2 m.digest
    → m.second ≡ take 2 (drop 2 m.digest)
    → key_for_digest digest ≡ ok key
unfolding key_for_digest
canonical_digest m key digest k e first second =
    let valid : is_sha256 digest ≡ true =
      (is_sha256_iff digest).1
        (ap length (sym e) ∙ k.digest_length, ap all_hex_digits (sym e) ∙ k.digest_digits) in
    let spelled : canonical_key (take 2 digest) (take 2 (drop 2 digest)) digest ≡ key =
      cc (k.spelled, e, first, second) in
    rw valid (ap ok spelled)

read_then_written :
    (digest key : Text) → digest_for_key key none ≡ ok digest → key_for_digest digest ≡ ok key
unfolding digest_for_key
read_then_written digest key h =
    let (m, found, e, first, second) = checked_digest-IsChecked (match_key key) digest h in
    canonical_digest m key digest (match_key-found key m found) e first second

-- `key_for_digest` makes a key of a digest exactly where `digest_for_key`, without an expected digest,
-- reads that digest from that key: each undoes the other, and neither accepts what the other does
-- not.
pub key_for_digest_iff :
    (digest key : Text) → (key_for_digest digest ≡ ok key) ↔ (digest_for_key key none ≡ ok digest)
key_for_digest_iff digest key = (written_then_read digest key, read_then_written digest key)

-- What is put before an object's key is taken off again.
marked :
    (prefix key : Text)
    → (if is_blank prefix then key else prefix ++ (literal "/" ++ key)) ≡ marker prefix ++ key
marked [] key = refl
marked (c ∷ cs) key = sym (append_assoc (c ∷ cs) (literal "/") key)

module _ (object_key service_key : Text) where
  unqualified_again :
      (digest prefix : Result Text)
      → digest_for_key object_key none ≡ digest
      → qualified object_key digest prefix ≡ ok service_key
      → under_prefix service_key none prefix ≡ ok object_key
  unqualified_again (err e) prefix d h = cc h
  unqualified_again (ok digest) (err e) d h = cc h
  unqualified_again (ok digest) (ok prefix) d h =
      let e : marker prefix ++ object_key ≡ service_key = sym (marked prefix object_key) ∙ cc h in
      ap (λ s. unqualified none (after_prefix (marker prefix) s)) (sym e)
      ∙ ap (unqualified none) (after_prefix-append (marker prefix) object_key)
      ∙ ap (checked_key object_key) d

  qualified_again :
      (prefix : Result Text)
      → under_prefix service_key none prefix ≡ ok object_key
      → qualified object_key (digest_for_key object_key none) prefix ≡ ok service_key
  qualified_again (err e) h = cc h
  qualified_again (ok prefix) h = from (after_prefix (marker prefix) service_key) refl h
    where
      checked :
          (key : Text) (d : Result Text)
          → digest_for_key key none ≡ d
          → service_key ≡ marker prefix ++ key
          → checked_key key d ≡ ok object_key
          → qualified object_key (digest_for_key object_key none) (ok prefix) ≡ ok service_key
      checked key (err e) d s k = cc k
      checked key (ok digest) d s k =
          let same : key ≡ object_key = cc k in
          ap (λ r. qualified object_key r (ok prefix))
            (ap (λ x. digest_for_key x none) (sym same) ∙ d)
          ∙ ap ok (marked prefix object_key ∙ ap (λ x. marker prefix ++ x) (sym same) ∙ sym s)

      from :
          (o : Option Text)
          → after_prefix (marker prefix) service_key ≡ o
          → unqualified none o ≡ ok object_key
          → qualified object_key (digest_for_key object_key none) (ok prefix) ≡ ok service_key
      from none e k = cc k
      from (some key) e k =
          checked key (digest_for_key key none) refl
            (after_prefix-found (marker prefix) service_key key e) k

-- Under any prefix, `service_key_for_object` makes a service key of an object's key exactly where
-- `object_key_from_service_key`, without an expected digest, reads that object's key from it.
pub service_key_for_object_iff :
    (object_key service_key key_prefix : Text)
    → (service_key_for_object object_key key_prefix ≡ ok service_key)
      ↔ (object_key_from_service_key service_key key_prefix none ≡ ok object_key)
unfolding service_key_for_object object_key_from_service_key
service_key_for_object_iff object_key service_key key_prefix = (
  unqualified_again object_key service_key (digest_for_key object_key none)
      (normalize_key_prefix key_prefix) refl,
  qualified_again object_key service_key (normalize_key_prefix key_prefix),
)
