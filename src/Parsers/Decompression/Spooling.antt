-- ===== src/Parsers/Decompression/Spooling.antt =====
-- adapters/parsers/streams.py, `_zip`: the spool holds what was read, and what is opened is an archive.
use makolet.Prelude.{
  ◌+◌, ◌≡◌, refl, sym, ap, ◌∙◌, Option, List, [], ◌∷◌, ◌++◌, length, concat, sum_by, append_assoc,
  append-nil, ltb, if_cases, arith,
}
use makolet.Domain.Errors.{Failure}
use makolet.Exec.{Result, ok, err, check}
use makolet.Parsers.Limits.{Bytes, CompressionLimits, check_compressed}
use makolet.Parsers.Member.{
  ZipPorts, ZipInfo, Spool, opened, write_chunk, written, required_bytes, if_ok, spool_next,
  spool_compressed, synced, member_of,
}
use makolet.Parsers.Zip.{preflight_zip}
use makolet.Parsers.Zip.Layout.{IsArchive, preflight_zip-IsArchive}

-- The spool holds all that was read.
abbrev pub Holds : List Bytes → Spool → Result Spool → Type 0
Holds chunks start (ok s) =
    (s.content ≡ start.content ++ concat chunks) × (s.total ≡ start.total + sum_by length chunks)
Holds chunks start (err e) = Unit

if_ok-Holds :
    (chunks : List Bytes) (start : Spool) (c : Result (Unit {0})) (m : Result Spool)
    → Holds chunks start m
    → Holds chunks start (if_ok c m)
if_ok-Holds chunks start (ok _) m h = h
if_ok-Holds chunks start (err e) m h = tt

write_chunk-Holds :
    (ports : ZipPorts) (limits : CompressionLimits) (chunk : Bytes) (s : Spool)
    → Holds (chunk ∷ []) s (write_chunk ports limits chunk s)
write_chunk-Holds ports limits chunk s =
    let P = Holds (chunk ∷ []) s in
    let holds : P (ok (written s chunk)) =
      (ap (λ c. s.content ++ c) (sym (append-nil chunk)), omega arith) in
    if_cases P (ltb limits.spool_memory_bytes (s.total + length chunk)) _ _
      (λ _.
        if_cases P (ports.reserve s.calls (required_bytes limits s chunk)) _ _ (λ _. holds)
          (λ _. tt))
      (λ _. holds)

Holds-cons :
    (chunk : Bytes) (chunks : List Bytes) (s t : Spool) (m : Result Spool)
    → Holds (chunk ∷ []) s (ok t)
    → Holds chunks t m
    → Holds (chunk ∷ chunks) s m
Holds-cons chunk chunks s t (ok u) h k = (
  k.0 ∙ rw (h.0, append-nil chunk) (append_assoc s.content chunk (concat chunks)),
  omega (arith, h.1, k.1),
)
Holds-cons chunk chunks s t (err e) h k = tt

spool_next-Holds :
    (chunk : Bytes) (chunks : List Bytes) (s : Spool) (next : Spool → Result Spool)
    (r : Result Spool)
    → Holds (chunk ∷ []) s r
    → ((t : Spool) → Holds chunks t (next t))
    → Holds (chunk ∷ chunks) s (spool_next next r)
spool_next-Holds chunk chunks s next (ok t) h k = Holds-cons chunk chunks s t (next t) h (k t)
spool_next-Holds chunk chunks s next (err e) h k = tt

pub spool_compressed-Holds :
    (ports : ZipPorts) (limits : CompressionLimits) (chunks : List Bytes) (end : Option Failure)
    (s : Spool)
    → Holds chunks s (spool_compressed ports limits chunks end s)
unfolding spool_compressed
spool_compressed-Holds ports limits [] end s =
    if_ok-Holds [] s (check end) (ok s) (sym (append-nil s.content), omega arith)
spool_compressed-Holds ports limits (chunk ∷ chunks) end s =
    if_ok-Holds (chunk ∷ chunks) s (check_compressed (s.total + length chunk) limits) _ (
      spool_next-Holds chunk chunks s (spool_compressed ports limits chunks end)
        (write_chunk ports limits chunk s) (write_chunk-Holds ports limits chunk s)
        (spool_compressed-Holds ports limits chunks end))

if_ok-ok {ℓ} :
    {A : Type ℓ} (c : Result (Unit {0})) (m : Result A) (a : A)
    → if_ok c m ≡ ok a
    → (c ≡ ok tt) × (m ≡ ok a)
if_ok-ok (ok _) m a h = (refl, h)
if_ok-ok (err e) m a h = absurd (cc h)

-- Where a member is opened, the spool has passed the preflight.
pub opened-IsArchive :
    (ports : ZipPorts) (limits : CompressionLimits) (s : Spool) (entry : ZipInfo)
    → s.total ≡ length s.content
    → opened ports limits s ≡ ok entry
    → IsArchive limits s.content
unfolding opened
opened-IsArchive ports limits s entry counted h =
    let (_, passed) = if_ok-ok (synced ports limits s) _ entry h in
    let (checked, _) =
      if_ok-ok (preflight_zip s.content s.total limits)
        (member_of limits (ports.infolist s.content)) entry passed in
    preflight_zip-IsArchive s.content limits (rw (sym counted) checked)
