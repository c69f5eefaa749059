-- ===== src/Parsers/Streams/Uncompressed.antt =====
-- adapters/parsers/streams.py, `_uncompressed`: the content passes as it is, cut into chunks.
use makolet.Prelude.{
  ℕ, zero, suc, ◌+◌, ◌≤◌, ◌<◌, ◌≡◌, refl, sym, ap, ◌∙◌, Option, List, [], ◌∷◌, ◌++◌, append_assoc,
  append-nil, length, length-take_le, length-append, length-drop, take, drop, take-append-drop,
  concat, concat-append, length-concat, All, All-append, arith,
}
use makolet.Domain.Errors.{Failure}
use makolet.Exec.{Result, ok, err, Exec, >>=-cases, lift, pure, check, ◌>>=◌}
use makolet.Parsers.Limits.{Bytes, CompressionLimits, check_decompressed-ok}
use makolet.Parsers.Streams.{
  Progress, Loop, ended, out_of_rounds, yield, yield_slices, unless_stuck, count_uncompressed,
  uncompressed,
}
use makolet.Parsers.Streams.Bounds.{IsWithin}
use makolet.Parsers.Streams.Ending.{IsSettled}

abbrev IsSmall : CompressionLimits → List Bytes → Type 0
IsSmall limits = All (λ o. length o ≤ limits.maximum_chunk_bytes)

-- One slice more.
concat_slice :
    (n : ℕ) (xs : Bytes) (outputs : List Bytes)
    → concat (outputs ++ take n xs ∷ []) ++ drop n xs ≡ concat outputs ++ xs
concat_slice n xs outputs =
    rw
      (
        concat-append outputs (take n xs ∷ []),
        append-nil (take n xs),
        append_assoc (concat outputs) (take n xs) (drop n xs),
        take-append-drop n xs,
      )
      refl

module _ {D : Type 0} (limits : CompressionLimits) where
  -- What a run over the chunks has yielded where it returns.
  abbrev pub Passes : List Bytes → Progress D → Result Loop → Progress D → Type 0
  Passes chunks p (ok ended) q =
      (concat q.outputs ≡ concat p.outputs ++ concat chunks) × IsSettled limits q
  Passes chunks p (ok out_of_rounds) q = ⊥
  Passes chunks p (err e) q = Unit

module _ {D : Type 0} (limits : CompressionLimits) (positive : 0 < limits.maximum_chunk_bytes) where
  slices_of :
      (rounds : ℕ) (xs : Bytes) (p : Progress D)
      → length xs ≤ rounds
      → IsSmall limits p.outputs
      → let r = yield_slices rounds limits.maximum_chunk_bytes xs p in
        (r.0 ≡ ok ended)
        × (concat r.1.outputs ≡ concat p.outputs ++ xs)
        × (r.1.decompressed ≡ p.decompressed)
        × IsSmall limits r.1.outputs
  unfolding yield_slices ◌>>=◌
  slices_of zero [] p h small = (refl, sym (append-nil (concat p.outputs)), refl, small)
  slices_of zero (b ∷ bs) p h small = absurd (omega arith)
  slices_of (suc rounds) [] p h small = (refl, sym (append-nil (concat p.outputs)), refl, small)
  slices_of (suc rounds) (b ∷ bs) p h small =
      let xs = b ∷ bs in
      let step = limits.maximum_chunk_bytes in
      let q = (yield (take step xs) p).1 in
      let (returns, whole, same, all) =
        slices_of rounds (drop step xs) q (omega (arith, length-drop step xs))
          (All-append _ p.outputs (take step xs ∷ []) small (length-take_le step xs, tt)) in
      (returns, whole ∙ concat_slice step xs p.outputs, same, all)

  IsSettled-IsWithin :
      (p : Progress D) → IsSettled limits p → IsSmall limits p.outputs → IsWithin limits p
  IsSettled-IsWithin p h small = (omega (arith, h.0), omega (arith, h.0, h.1), small)

  -- The chunks of the iterator are settled one by one.
  next_chunk :
      (chunk : Bytes) (chunks : List Bytes) (loop : Loop) (next : Exec (Progress D) Loop)
      (p s : Progress D)
      → loop ≡ ended
      → concat s.outputs ≡ concat p.outputs ++ chunk
      → IsWithin limits (next s).1 × Passes limits chunks s (next s).0 (next s).1
      → let r = unless_stuck loop next s in
        IsWithin limits r.1 × Passes limits (chunk ∷ chunks) p r.0 r.1
  next_chunk chunk chunks ended next p s e whole (within, passes) =
      (within, carry (next s).0 (next s).1 passes)
    where
      carry :
          (r : Result Loop) (q : Progress D)
          → Passes limits chunks s r q
          → Passes limits (chunk ∷ chunks) p r q
      carry (ok ended) q h =
          (h.0 ∙ (rw whole (append_assoc (concat p.outputs) chunk (concat chunks))), h.1)
      carry (ok out_of_rounds) q h = h
      carry (err x) q h = tt
  next_chunk chunk chunks out_of_rounds next p s e whole h = absurd (cc e)

  -- `_uncompressed` ends; what it yields are slices of its input in order and within the limits, and all
  -- of its input where it returns.
  pub uncompressed-Passes :
      (chunks : List Bytes) (end : Option Failure) (p : Progress D)
      → IsSettled limits p
      → IsSmall limits p.outputs
      → let r = uncompressed limits chunks end p in
        IsWithin limits r.1 × Passes limits chunks p r.0 r.1
  unfolding uncompressed count_uncompressed
  uncompressed-Passes [] end p h small =
      let now = IsSettled-IsWithin p h small in
      >>=-cases (λ r. IsWithin limits r.1 × Passes limits [] p r.0 r.1) (lift (check end))
        (λ _. pure ended) p (λ _ _. (now, (sym (append-nil (concat p.outputs)), h)))
        (λ _ _. (now, tt))
  uncompressed-Passes (chunk ∷ chunks) end p h small =
      let P = λ (r : Result Loop × Progress D).
        IsWithin limits r.1 × Passes limits (chunk ∷ chunks) p r.0 r.1 in
      let q = record p { decompressed = p.decompressed + length chunk } in
      let s = (yield_slices (length chunk) limits.maximum_chunk_bytes chunk q).1 in
      let (returns, whole, same, all) = slices_of (length chunk) chunk q (omega arith) small in
      >>=-cases P (count_uncompressed limits chunk) _ p
        (λ u below.
          >>=-cases P (yield_slices (length chunk) limits.maximum_chunk_bytes chunk) _ q
            (λ loop e.
              let settled : IsSettled limits s = (
                omega (
                  arith,
                  h.0,
                  same,
                  ap length whole,
                  length-concat s.outputs,
                  length-concat p.outputs,
                  length-append (concat p.outputs) chunk,
                ),
                omega (arith, same, check_decompressed-ok q.decompressed limits u below),
              ) in
              next_chunk chunk chunks loop (uncompressed limits chunks end) p s (cc (e, returns))
                whole (uncompressed-Passes chunks end s settled all))
            (λ _ e. absurd (cc (e, returns))))
        (λ _ _. ((omega (arith, h.0), omega (arith, h.0, h.1), small), tt))
