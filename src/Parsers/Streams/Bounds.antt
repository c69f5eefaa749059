-- ===== src/Parsers/Streams/Bounds.antt =====
-- adapters/parsers/streams.py: what the decompressed streams yield stays within the limits.
use makolet.Prelude.{
  ℕ, zero, suc, ◌+◌, ◌*◌, ◌≤◌, ◌<◌, ◌≡◌, refl, ◌&&◌, [], ◌∷◌, length, sum_by, sum_by-append, All,
  All-append, if_cases, arith,
}
use makolet.Exec.{Result, ok, err, Exec, Keeps, >>=-Keeps, >>=-cases, lift, pure, ◌>>=◌, ◌>>◌}
use makolet.Parsers.Limits.{Bytes, CompressionLimits, check_decompressed, check_ratio}
use makolet.Parsers.Streams.{
  Decompressor, returned, invalid, raised, Decompressed, Progress, Loop, ended, yield,
  within_limits, is_empty, deliver, emit, after_gzip_output, after_zstandard_output,
  decompressed_round, gzip_rounds, zstandard_rounds,
}

module _ {D : Type 0} where
  -- The bytes that a generator has yielded.
  abbrev pub yielded : Progress D → ℕ
  yielded p = sum_by length p.outputs

  -- They are counted, within the limit, and came in chunks within the limit.
  abbrev pub IsWithin : CompressionLimits → Progress D → Type 0
  IsWithin limits p =
      (yielded p ≤ p.decompressed)
      × (yielded p ≤ limits.maximum_decompressed_bytes)
      × All (λ o. length o ≤ limits.maximum_chunk_bytes) p.outputs

  -- They are no more than the bytes read allow.
  abbrev pub IsProportional : CompressionLimits → Progress D → Type 0
  IsProportional limits p = yielded p ≤ p.compressed * limits.maximum_expansion_ratio

  -- Both, and no more than `read` bytes were read.
  abbrev pub IsBounded : CompressionLimits → ℕ → Progress D → Type 0
  IsBounded limits read p = IsWithin limits p × IsProportional limits p × (p.compressed ≤ read)

module _ {D : Type 0} (limits : CompressionLimits) where
  -- What the checks before a yield have shown.
  pub within_limits-ok :
      (input : ℕ) (p : Progress D) (u : Unit {0})
      → (within_limits limits input p).0 ≡ ok u
      → (p.decompressed ≤ limits.maximum_decompressed_bytes)
        × (p.decompressed ≤ input * limits.maximum_expansion_ratio)
  unfolding ◌>>=◌ check_decompressed check_ratio
  within_limits-ok input p u h = (ground arith, ground arith)

  pub within_limits-state : (input : ℕ) (p : Progress D) → (within_limits limits input p).1 ≡ p
  unfolding ◌>>=◌ check_decompressed check_ratio
  within_limits-state input p = ground arith

  yield-IsWithin :
      (output : Bytes) (p : Progress D)
      → length output ≤ limits.maximum_chunk_bytes
      → yielded p + length output ≤ p.decompressed
      → p.decompressed ≤ limits.maximum_decompressed_bytes
      → IsWithin limits p
      → IsWithin limits (yield output p).1
  yield-IsWithin output p small counted below h = (
    omega (arith, sum_by-append length p.outputs (output ∷ [])),
    omega (arith, sum_by-append length p.outputs (output ∷ [])),
    All-append _ p.outputs (output ∷ []) h.2 (small, tt),
  )

  -- The checks leave the generator as it is, so a rule for `deliver` has the two cases of its tests.
  deliver-cases :
      (P : Progress D → Type 0) (input : ℕ) (output : Bytes) (p : Progress D)
      → let q = record p { decompressed = p.decompressed + length output } in
        (q.decompressed ≤ limits.maximum_decompressed_bytes
          → q.decompressed ≤ input * limits.maximum_expansion_ratio
          → P (yield output q).1)
        → P q
        → P (deliver limits input output p).1
  unfolding deliver
  deliver-cases P input output p yields raises =
      let q = record p { decompressed = p.decompressed + length output } in
      >>=-cases (λ r. P r.1) (within_limits limits input) (λ _. yield output) q
        (λ u returned.
          let (below, proportional) = within_limits-ok input q u returned in
          rw (within_limits-state input q) (yields below proportional))
        (λ e _. rw (within_limits-state input q) raises)

  pub deliver-IsWithin :
      (input : ℕ) (output : Bytes) (p : Progress D)
      → length output ≤ limits.maximum_chunk_bytes
      → IsWithin limits p
      → IsWithin limits (deliver limits input output p).1
  deliver-IsWithin input output p small h =
      let q = record p { decompressed = p.decompressed + length output } in
      deliver-cases (IsWithin limits) input output p
        (λ below _. yield-IsWithin output q small (omega arith) below (omega arith, h.1, h.2))
        (omega arith, h.1, h.2)

  deliver-IsProportional :
      (output : Bytes) (p : Progress D)
      → IsWithin limits p
      → IsProportional limits p
      → IsProportional limits (deliver limits p.compressed output p).1
  deliver-IsProportional output p h k =
      deliver-cases (IsProportional limits) p.compressed output p
        (λ _ proportional. omega (arith, sum_by-append length p.outputs (output ∷ []))) k

  emit-IsBounded :
      (read : ℕ) (output : Bytes)
      → length output ≤ limits.maximum_chunk_bytes
      → Keeps (IsBounded {D = D} limits read) (emit limits output)
  emit-IsBounded read [] small p h = h
  emit-IsBounded read (b ∷ bs) small p h = (
    deliver-IsWithin p.compressed (b ∷ bs) p small h.0,
    deliver-IsProportional (b ∷ bs) p h.0 h.1,
    deliver-cases (λ q. q.compressed ≤ read) p.compressed (b ∷ bs) p (λ _ _. h.2) h.2,
  )

  pub refused-IsBounded :
      (read : ℕ) (r : Result (Unit {0}))
      → Keeps (IsBounded {D = D} limits read) (lift r >> pure ended)
  refused-IsBounded read r =
      >>=-Keeps (IsBounded limits read) (lift r) (λ _. pure ended) (λ p h. h) (λ _ p h. h)

-- Two checks that have passed.
module _ {D : Type 0} where
  pub both_ok :
      (a b : Result (Unit {0})) (p : Progress D) (u : Unit {0})
      → ((lift a >> lift b) p).0 ≡ ok u
      → (((lift a >> lift b) p).1 ≡ p) × (a ≡ ok tt) × (b ≡ ok tt)
  unfolding ◌>>=◌
  both_ok (ok _) b p u h = (refl, refl, h)
  both_ok (err e) b p u h = cc

-- A decompressor that is asked for some bytes returns no more. Asked for none, zlib has no limit.
abbrev pub RespectsMaximum : {D : Type 0} → Decompressor D → Type 0
RespectsMaximum {D} z =
    (d d' : D) (pending output : Bytes) (n : ℕ)
    → 0 < n
    → z.decompress d pending n ≡ returned output d'
    → length output ≤ n

module _ {D : Type 0} (z : Decompressor D) (limits : CompressionLimits)
    (respects : RespectsMaximum z) (positive : 0 < limits.maximum_chunk_bytes) (read : ℕ) where
  decompressed_round-IsBounded :
      (after : Bytes → Exec (Progress D) Loop)
      → ((output : Bytes) → Keeps (IsBounded limits read) (after output))
      → (r : Decompressed D) (p : Progress D)
      → ((output : Bytes) (d : D)
          → r ≡ returned output d
          → length output ≤ limits.maximum_chunk_bytes)
      → IsBounded limits read p
      → IsBounded limits read (decompressed_round z limits after r p).1
  decompressed_round-IsBounded after keeps invalid p small h = h
  decompressed_round-IsBounded after keeps (raised e) p small h = h
  decompressed_round-IsBounded after keeps (returned output d) p small h =
      >>=-Keeps (IsBounded limits read) (emit limits output) (λ _. after output)
        (emit-IsBounded limits read output (small output d refl)) (λ _. keeps output)
        (record p { decoder = d }) h

  after_gzip_output-IsBounded :
      (next : Bytes → Exec (Progress D) Loop)
      → ((pending : Bytes) → Keeps (IsBounded limits read) (next pending))
      → (output : Bytes) → Keeps (IsBounded limits read) (after_gzip_output z limits next output)
  after_gzip_output-IsBounded next keeps output p h =
      let P = λ (r : Result Loop × Progress D). IsBounded limits read r.1 in
      if_cases {A = Result Loop × Progress D} P (z.eof p.decoder) _ _
        (λ _. refused-IsBounded limits read _ p h)
        (λ _.
          if_cases {A = Result Loop × Progress D} P
            (is_empty output && is_empty (z.unconsumed_tail p.decoder)) _ _ (λ _. h)
            (λ _. keeps _ p h))

  after_zstandard_output-IsBounded :
      (next : Bytes → Exec (Progress D) Loop)
      → ((pending : Bytes) → Keeps (IsBounded limits read) (next pending))
      → (output : Bytes)
      → Keeps (IsBounded limits read) (after_zstandard_output z limits next output)
  after_zstandard_output-IsBounded next keeps output p h =
      let P = λ (r : Result Loop × Progress D). IsBounded limits read r.1 in
      if_cases {A = Result Loop × Progress D} P (z.eof p.decoder) _ _
        (λ _. refused-IsBounded limits read _ p h)
        (λ _.
          if_cases {A = Result Loop × Progress D} P (z.needs_input p.decoder) _ _ (λ _. h)
            (λ _. keeps [] p h))

  pub gzip_rounds-IsBounded :
      (rounds : ℕ) (pending : Bytes)
      → Keeps (IsBounded limits read) (gzip_rounds z limits rounds pending)
  unfolding gzip_rounds
  gzip_rounds-IsBounded zero [] p h = h
  gzip_rounds-IsBounded zero (b ∷ bs) p h = h
  gzip_rounds-IsBounded (suc rounds) [] p h = h
  gzip_rounds-IsBounded (suc rounds) (b ∷ bs) p h =
      decompressed_round-IsBounded (after_gzip_output z limits (gzip_rounds z limits rounds))
        (after_gzip_output-IsBounded (gzip_rounds z limits rounds) (gzip_rounds-IsBounded rounds))
        (z.decompress p.decoder (b ∷ bs) limits.maximum_chunk_bytes) p
        (λ output d. respects p.decoder d (b ∷ bs) output limits.maximum_chunk_bytes positive) h

  pub zstandard_rounds-IsBounded :
      (rounds : ℕ) (pending : Bytes)
      → Keeps (IsBounded limits read) (zstandard_rounds z limits rounds pending)
  unfolding zstandard_rounds
  zstandard_rounds-IsBounded zero pending p h = h
  zstandard_rounds-IsBounded (suc rounds) pending p h =
      decompressed_round-IsBounded
        (after_zstandard_output z limits (zstandard_rounds z limits rounds))
        (after_zstandard_output-IsBounded (zstandard_rounds z limits rounds)
          (zstandard_rounds-IsBounded rounds))
        (z.decompress p.decoder pending limits.maximum_chunk_bytes) p
        (λ output d. respects p.decoder d pending output limits.maximum_chunk_bytes positive) h
