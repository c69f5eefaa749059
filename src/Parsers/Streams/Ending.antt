-- ===== src/Parsers/Streams/Ending.antt =====
-- adapters/parsers/streams.py: the loops over a compressed stream end, and count what they yield.
use makolet.Prelude.{
  ℕ, zero, suc, ◌+◌, ◌≤◌, ◌<◌, ◌≡◌, refl, subst, true, false, ◌||◌, Option, List, [], ◌∷◌, length,
  sum_by-append, if_cases, arith,
}
use makolet.Domain.Errors.{Failure}
use makolet.Exec.{Result, ok, err, Exec, >>=-cases, lift, pure, check, ◌>>◌}
use makolet.Parsers.Limits.{Bytes, CompressionLimits}
use makolet.Parsers.Streams.{
  Decompressor, returned, invalid, raised, Decompressed, Progress, Loop, ended, out_of_rounds,
  yield, count_compressed, within_limits, deliver, emit, unless_stuck, each_chunk,
  after_gzip_output, after_zstandard_output, decompressed_round, gzip_rounds, zstandard_rounds,
}
use makolet.Parsers.Streams.Bounds.{yielded, within_limits-ok, within_limits-state}

module _ {D : Type 0} (limits : CompressionLimits) where
  -- Where no error was raised, every byte counted has been yielded.
  abbrev pub IsSettled : Progress D → Type 0
  IsSettled p = (yielded p ≡ p.decompressed) × (p.decompressed ≤ limits.maximum_decompressed_bytes)

  -- The loop has not run out of rounds, and has settled if it returns.
  abbrev pub Ends : Result Loop → Progress D → Type 0
  Ends (ok ended) p = IsSettled p
  Ends (ok out_of_rounds) p = ⊥
  Ends (err e) p = Unit

  deliver_settles :
      (input : ℕ) (output : Bytes) (p : Progress D)
      → IsSettled p
      → (u : Unit {0})
      → let r = deliver limits input output p in
        r.0 ≡ ok u
        → IsSettled r.1
          × (r.1.decompressed ≡ p.decompressed + length output)
          × (r.1.decoder ≡ p.decoder)
  unfolding deliver
  deliver_settles input output p h u =
      let q = record p { decompressed = p.decompressed + length output } in
      >>=-cases
        (λ r.
          r.0 ≡ ok u
          → IsSettled r.1
            × (r.1.decompressed ≡ p.decompressed + length output)
            × (r.1.decoder ≡ p.decoder))
        (within_limits limits input) (λ _. yield output) q
        (λ v returned _. rw (within_limits-state limits input q) (
          (
            omega (arith, sum_by-append length p.outputs (output ∷ [])),
            (within_limits-ok limits input q v returned).0,
          ),
          refl,
          refl,
        ))
        (λ e _ returned. cc)

  pub emit_settles :
      (output : Bytes) (p : Progress D)
      → IsSettled p
      → (u : Unit {0})
      → let r = emit limits output p in
        r.0 ≡ ok u
        → IsSettled r.1
          × (r.1.decompressed ≡ p.decompressed + length output)
          × (r.1.decoder ≡ p.decoder)
  emit_settles [] p h u e = (h, omega arith, refl)
  emit_settles (b ∷ bs) p h u e = deliver_settles p.compressed (b ∷ bs) p h u e

  refused-Ends :
      (r : Result (Unit {0})) (p : Progress D)
      → IsSettled p
      → let s = (lift r >> pure ended) p in Ends s.0 s.1
  refused-Ends r p h =
      >>=-cases (λ s. Ends s.0 s.1) (lift r) (λ _. pure ended) p (λ _ _. h) (λ _ _. tt)

-- Data is left unconsumed only where the output was at its limit, so where there is some.
abbrev pub ConsumesSilently : {D : Type 0} → Decompressor D → Type 0
ConsumesSilently {D} z =
    (d d' : D) (pending : Bytes) (n : ℕ)
    → 0 < n
    → z.decompress d pending n ≡ returned [] d'
    → z.unconsumed_tail d' ≡ []

-- A decompressor that returns nothing is at the end or needs input.
abbrev pub NeedsInput : {D : Type 0} → Decompressor D → Type 0
NeedsInput {D} z =
    (d d' : D) (pending : Bytes) (n : ℕ)
    → 0 < n
    → z.decompress d pending n ≡ returned [] d'
    → (z.eof d' || z.needs_input d') ≡ true

module _ {D : Type 0} (z : Decompressor D) (limits : CompressionLimits) where
  -- Rounds that are enough from here on.
  abbrev Suffice : ℕ → Progress D → Type 0
  Suffice rounds p = limits.maximum_decompressed_bytes + 2 ≤ rounds + p.decompressed

  abbrev EndsIn : ℕ → (Bytes → Exec (Progress D) Loop) → Type 0
  EndsIn rounds next =
      (pending : Bytes) (p : Progress D)
      → IsSettled limits p
      → Suffice rounds p
      → Ends limits (next pending p).0 (next pending p).1

  after_gzip_output-Ends :
      (rounds : ℕ) (next : Bytes → Exec (Progress D) Loop)
      → EndsIn rounds next
      → (output : Bytes) (p : Progress D) → IsSettled limits p
      → (output ≡ [] → z.unconsumed_tail p.decoder ≡ [])
      → limits.maximum_decompressed_bytes + 2 + length output ≤ suc rounds + p.decompressed
      → let r = after_gzip_output z limits next output p in Ends limits r.0 r.1
  after_gzip_output-Ends rounds next ends [] p h silent enough =
      if_cases {A = Result Loop × Progress D} (λ r. Ends limits r.0 r.1) (z.eof p.decoder) _ _
        (λ _. refused-Ends limits _ p h) (λ _. rw (silent refl) h)
  after_gzip_output-Ends rounds next ends (b ∷ bs) p h silent enough =
      if_cases {A = Result Loop × Progress D} (λ r. Ends limits r.0 r.1) (z.eof p.decoder) _ _
        (λ _. refused-Ends limits _ p h) (λ _. ends _ p h (omega arith))

  -- A round after which the loop goes on has returned a byte.
  has_output :
      (rounds : ℕ) (output : Bytes) (p : Progress D)
      → (output ≡ [] → (z.eof p.decoder || z.needs_input p.decoder) ≡ true)
      → z.eof p.decoder ≡ false
      → z.needs_input p.decoder ≡ false
      → limits.maximum_decompressed_bytes + 2 + length output ≤ suc rounds + p.decompressed
      → Suffice rounds p
  has_output rounds [] p silent running fed enough =
      let stuck = silent refl in absurd (ground arith)
  has_output rounds (b ∷ bs) p silent running fed enough = omega arith

  after_zstandard_output-Ends :
      (rounds : ℕ) (next : Bytes → Exec (Progress D) Loop)
      → EndsIn rounds next
      → (output : Bytes) (p : Progress D) → IsSettled limits p
      → (output ≡ [] → (z.eof p.decoder || z.needs_input p.decoder) ≡ true)
      → limits.maximum_decompressed_bytes + 2 + length output ≤ suc rounds + p.decompressed
      → let r = after_zstandard_output z limits next output p in Ends limits r.0 r.1
  after_zstandard_output-Ends rounds next ends output p h silent enough =
      let P = λ (r : Result Loop × Progress D). Ends limits r.0 r.1 in
      if_cases {A = Result Loop × Progress D} P (z.eof p.decoder) _ _
        (λ _. refused-Ends limits _ p h)
        (λ running.
          if_cases {A = Result Loop × Progress D} P (z.needs_input p.decoder) _ _ (λ _. h)
            (λ fed. ends [] p h (has_output rounds output p silent running fed enough)))

  -- A round with its output, before the next.
  decompressed_round-Ends :
      (rounds : ℕ) (after : Bytes → Exec (Progress D) Loop) (r : Decompressed D) (p : Progress D)
      → IsSettled limits p
      → Suffice (suc rounds) p
      → ((output : Bytes) (q : Progress D)
          → r ≡ returned output q.decoder
          → IsSettled limits q
          → limits.maximum_decompressed_bytes + 2 + length output ≤ suc rounds + q.decompressed
          → Ends limits (after output q).0 (after output q).1)
      → let s = decompressed_round z limits after r p in Ends limits s.0 s.1
  decompressed_round-Ends rounds after invalid p h enough ends = tt
  decompressed_round-Ends rounds after (raised e) p h enough ends = tt
  decompressed_round-Ends rounds after (returned output d) p h enough ends =
      let start = record p { decoder = d } in
      >>=-cases (λ s. Ends limits s.0 s.1) (emit limits output) (λ _. after output) start
        (λ u returned.
          let (settled, counted, same) = emit_settles limits output start h u returned in
          ends output (emit limits output start).1 (rw same refl) settled (omega arith))
        (λ e _. tt)

  module _ (silent : ConsumesSilently z) (positive : 0 < limits.maximum_chunk_bytes) where
    pub gzip_rounds-Ends : (rounds : ℕ) → EndsIn rounds (gzip_rounds z limits rounds)
    unfolding gzip_rounds
    gzip_rounds-Ends zero [] p h enough = h
    gzip_rounds-Ends zero (b ∷ bs) p h enough = omega arith
    gzip_rounds-Ends (suc rounds) [] p h enough = h
    gzip_rounds-Ends (suc rounds) (b ∷ bs) p h enough =
        decompressed_round-Ends rounds (after_gzip_output z limits (gzip_rounds z limits rounds))
          (z.decompress p.decoder (b ∷ bs) limits.maximum_chunk_bytes) p h enough
          (λ output q made settled more.
            after_gzip_output-Ends rounds (gzip_rounds z limits rounds) (gzip_rounds-Ends rounds)
              output q settled
              (λ nothing.
                silent p.decoder q.decoder (b ∷ bs) limits.maximum_chunk_bytes positive
                  (rw nothing at made))
              more)

  module _ (needs : NeedsInput z) (positive : 0 < limits.maximum_chunk_bytes) where
    pub zstandard_rounds-Ends : (rounds : ℕ) → EndsIn rounds (zstandard_rounds z limits rounds)
    unfolding zstandard_rounds
    zstandard_rounds-Ends zero pending p h enough = omega arith
    zstandard_rounds-Ends (suc rounds) pending p h enough =
        decompressed_round-Ends rounds
          (after_zstandard_output z limits (zstandard_rounds z limits rounds))
          (z.decompress p.decoder pending limits.maximum_chunk_bytes) p h enough
          (λ output q made settled more.
            after_zstandard_output-Ends rounds (zstandard_rounds z limits rounds)
              (zstandard_rounds-Ends rounds) output q settled
              (λ nothing.
                needs p.decoder q.decoder pending limits.maximum_chunk_bytes positive
                  (rw nothing at made))
              more)

module _ {D : Type 0} (limits : CompressionLimits) (body : Bytes → Exec (Progress D) Loop)
    (ends : (chunk : Bytes) (p : Progress D)
      → IsSettled limits p
      → Ends limits (body chunk p).0 (body chunk p).1) where
  next_chunk-Ends :
      (loop : Loop) (next : Exec (Progress D) Loop) (p : Progress D)
      → Ends limits (ok loop) p
      → (IsSettled limits p → Ends limits (next p).0 (next p).1)
      → Ends limits (unless_stuck loop next p).0 (unless_stuck loop next p).1
  next_chunk-Ends ended next p h goes = goes h
  next_chunk-Ends out_of_rounds next p h goes = h

  pub each_chunk-Ends :
      (chunks : List Bytes) (end : Option Failure) (p : Progress D)
      → IsSettled limits p
      → let r = each_chunk limits body chunks end p in Ends limits r.0 r.1
  unfolding each_chunk count_compressed
  each_chunk-Ends [] end p h = refused-Ends limits (check end) p h
  each_chunk-Ends (chunk ∷ chunks) end p h =
      >>=-cases (λ r. Ends limits r.0 r.1) (count_compressed limits chunk) _ p
        (λ _ _.
          let q = record p { compressed = p.compressed + length chunk } in
          >>=-cases (λ r. Ends limits r.0 r.1) (body chunk) _ q
            (λ loop returned.
              next_chunk-Ends loop _ (body chunk q).1
                (subst (λ s. Ends limits s (body chunk q).1) returned (ends chunk q h))
                (each_chunk-Ends chunks end (body chunk q).1))
            (λ _ _. tt))
        (λ _ _. tt)
