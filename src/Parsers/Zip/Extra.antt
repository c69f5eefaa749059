-- ===== src/Parsers/Zip/Extra.antt =====
-- adapters/parsers/streams.py: the extra fields that `_reject_zip64_extra` lets through.
use makolet.Prelude.{
  ℕ, zero, suc, ◌+◌, ◌≤◌, ◌<◌, ◌≡◌, ◌≢◌, ◌↔◌, refl, sym, ap, ◌∙◌, [], ◌∷◌, ◌++◌, length,
  length-append, length-take, length-drop, take, drop, take-append-drop, take_part, drop_part,
  arith,
}
use makolet.Exec.{ok}
use makolet.Parsers.Limits.{Bytes}
use makolet.Parsers.Zip.{byte_at, u16_at, reject_zip64_extra}

byte_at-take : (n i : ℕ) (bytes : Bytes) → i < n → byte_at (take n bytes) i ≡ byte_at bytes i
unfolding byte_at
byte_at-take zero i bytes h = absurd (omega arith)
byte_at-take (suc n) i [] h = refl
byte_at-take (suc n) zero (b ∷ bs) h = refl
byte_at-take (suc n) (suc i) (b ∷ bs) h = byte_at-take n i bs (omega arith)

pub u16_at-take : (n i : ℕ) (bytes : Bytes) → i + 2 ≤ n → u16_at (take n bytes) i ≡ u16_at bytes i
u16_at-take n i bytes h =
    rw (byte_at-take n i bytes (omega arith), byte_at-take n (i + 1) bytes (omega arith)) refl

-- The extra fields of an entry, as the ZIP format lays them out, none of them of ZIP64.
pub data IsExtra : Bytes → Type 0 where
  no_fields : IsExtra []
  field :
      (header payload rest bytes : Bytes)
      → bytes ≡ header ++ (payload ++ rest)
      → length header ≡ 4
      → length payload ≡ u16_at header 2
      → u16_at header 0 ≢ 1
      → IsExtra rest
      → IsExtra bytes

-- One round of the loop.
extra_round :
    (rounds : ℕ) (b : ℕ) (bs : Bytes)
    → (reject_zip64_extra (suc rounds) (b ∷ bs) ≡ ok tt) ↔ (
        (4 + u16_at (b ∷ bs) 2 ≤ length (b ∷ bs))
        × (u16_at (b ∷ bs) 0 ≢ 1)
        × (reject_zip64_extra rounds (drop (u16_at (b ∷ bs) 2) (drop 4 (b ∷ bs))) ≡ ok tt))
unfolding reject_zip64_extra
extra_round rounds b bs = ground arith

reject_zip64_extra-IsExtra :
    (rounds : ℕ) (extra : Bytes)
    → length extra ≤ rounds
    → reject_zip64_extra rounds extra ≡ ok tt
    → IsExtra extra
reject_zip64_extra-IsExtra rounds [] h e = no_fields
reject_zip64_extra-IsExtra zero (b ∷ bs) h e = absurd (omega arith)
reject_zip64_extra-IsExtra (suc rounds) (b ∷ bs) h e =
    let extra = b ∷ bs in
    let (long, other, further) = (extra_round rounds b bs).0 e in
    let size = u16_at extra 2 in
    let after = drop 4 extra in
    let left = length-drop 4 extra in
    field (take 4 extra) (take size after) (drop size after) extra
      (sym (rw (take-append-drop size after) (take-append-drop 4 extra)))
      (length-take 4 extra (omega arith))
      (length-take size after (omega arith) ∙ sym (u16_at-take 4 2 extra (omega arith)))
      (rw (u16_at-take 4 0 extra (omega arith)) other)
      (reject_zip64_extra-IsExtra rounds (drop size after) (omega (arith, length-drop size after))
        further)

IsExtra-reject_zip64_extra :
    (rounds : ℕ) (extra : Bytes)
    → length extra ≤ rounds
    → IsExtra extra
    → reject_zip64_extra rounds extra ≡ ok tt
IsExtra-reject_zip64_extra rounds [] h x = unfold reject_zip64_extra in refl
IsExtra-reject_zip64_extra zero (b ∷ bs) h x = absurd (omega arith)
IsExtra-reject_zip64_extra (suc rounds) (b ∷ bs) h
      (field header payload rest _ e four sized other further) =
    let extra = b ∷ bs in
    let head = take_part 4 extra header (payload ++ rest) e four in
    let after = drop_part 4 extra header (payload ++ rest) e four in
    let size : u16_at extra 2 ≡ length payload =
      sym (u16_at-take 4 2 extra (omega arith)) ∙ ap (λ l. u16_at l 2) head ∙ sym sized in
    let kind : u16_at extra 0 ≡ u16_at header 0 =
      sym (u16_at-take 4 0 extra (omega arith)) ∙ ap (λ l. u16_at l 0) head in
    let long : length extra ≡ 4 + (length payload + length rest) =
      omega
        (arith, ap length e, length-append header (payload ++ rest), length-append payload rest) in
    let left : drop (u16_at extra 2) (drop 4 extra) ≡ rest =
      drop_part (u16_at extra 2) (drop 4 extra) payload rest after (sym size) in
    (extra_round rounds b bs).1 (
      omega arith,
      rw kind other,
      rw left (IsExtra-reject_zip64_extra rounds rest (omega arith) further),
    )

-- `_reject_zip64_extra` lets exactly such fields through, and its loop never runs out of rounds.
pub reject_zip64_extra_iff :
    (extra : Bytes) → (reject_zip64_extra (length extra) extra ≡ ok tt) ↔ IsExtra extra
reject_zip64_extra_iff extra = (
  reject_zip64_extra-IsExtra (length extra) extra (omega arith),
  IsExtra-reject_zip64_extra (length extra) extra (omega arith),
)
