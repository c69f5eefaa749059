-- ===== src/Parsers/Decompression/Bounds.antt =====
-- adapters/parsers/streams.py, `_zip`: what is yielded of a member stays within the limits.
use makolet.Prelude.{ℕ, ◌*◌, ◌≤◌, not, List, [], ◌∷◌, length, All, ◌==◌}
use makolet.Exec.{Result, ok, err, Keeps, >>=-Keeps, >>=-cases, lift, pure, ◌>>◌}
use makolet.Parsers.Limits.{Bytes, CompressionLimits, refuse_archive, check_ratio, check_ratio-ok}
use makolet.Parsers.Streams.{Progress, Loop, ended, out_of_rounds, deliver}
use makolet.Parsers.Streams.Bounds.{IsWithin, both_ok, deliver-IsWithin}
use makolet.Parsers.Member.{
  ZipPorts, ZipInfo, Spool, ReadEnd, read_whole, handled, unhandled, read_outputs, finish_member,
  read_zip_member,
}

-- The calls of `read` return no more than they are asked for.
abbrev pub RespectsSize : ZipPorts → Type 0
RespectsSize ports =
    (content : Bytes) (entry : ZipInfo) (n : ℕ)
    → All (λ o. length o ≤ n) (ports.read_member content entry n).0

module _ {D : Type 0} (limits : CompressionLimits) where
  read_outputs-IsWithin :
      (entry : ZipInfo) (outputs : List Bytes) (how : ReadEnd)
      → All (λ o. length o ≤ limits.maximum_chunk_bytes) outputs
      → Keeps (IsWithin {D = D} limits) (read_outputs limits entry outputs how)
  unfolding read_outputs
  read_outputs-IsWithin entry [] read_whole small p h = h
  read_outputs-IsWithin entry [] handled small p h = h
  read_outputs-IsWithin entry [] (unhandled e) small p h = h
  read_outputs-IsWithin entry ([] ∷ outputs) how small p h = h
  read_outputs-IsWithin entry ((b ∷ bs) ∷ outputs) how small p h =
      >>=-Keeps (IsWithin limits) (deliver limits entry.compress_size (b ∷ bs)) _
        (λ p. deliver-IsWithin limits entry.compress_size (b ∷ bs) p small.0)
        (λ _. read_outputs-IsWithin entry outputs how small.1) p h

  -- The end of a member: where it returns, all counted bytes are in proportion to the spool.
  abbrev pub IsExpanded : ℕ → Result Loop → Progress D → Type 0
  IsExpanded compressed (ok ended) p = p.decompressed ≤ compressed * limits.maximum_expansion_ratio
  IsExpanded compressed (ok out_of_rounds) p = ⊥
  IsExpanded compressed (err e) p = Unit

  finish_member-IsExpanded :
      (entry : ZipInfo) (compressed : ℕ) (p : Progress D)
      → IsWithin limits p
      → let r = finish_member limits entry compressed p in
        IsWithin limits r.1 × IsExpanded compressed r.0 r.1
  finish_member-IsExpanded entry compressed p h =
      let P =
        λ (r : Result Loop × Progress D). IsWithin limits r.1 × IsExpanded compressed r.0 r.1 in
      let size = refuse_archive (not (p.decompressed == entry.file_size)) in
      let ratio = check_ratio compressed p.decompressed limits in
      >>=-cases P (lift size >> lift ratio) (λ _. pure ended) p
        (λ u returned.
          let (same, _, proportional) = both_ok size ratio p u returned in
          rw same (h, check_ratio-ok compressed p.decompressed limits tt proportional))
        (λ _ _. (
          >>=-Keeps (IsWithin limits) (lift size) (λ _. lift ratio) (λ s k. k) (λ _ s k. k) p h,
          tt,
        ))

  pub read_zip_member-IsExpanded :
      (ports : ZipPorts)
      → RespectsSize ports
      → (s : Spool) (entry : ZipInfo) (p : Progress D) → IsWithin limits p
      → let r = read_zip_member ports limits s entry p in
        IsWithin limits r.1 × IsExpanded s.total r.0 r.1
  unfolding read_zip_member
  read_zip_member-IsExpanded ports respects s entry p h =
      let P = λ (r : Result Loop × Progress D). IsWithin limits r.1 × IsExpanded s.total r.0 r.1 in
      let reads = ports.read_member s.content entry limits.maximum_chunk_bytes in
      let kept =
        read_outputs-IsWithin entry reads.0 reads.1
          (respects s.content entry limits.maximum_chunk_bytes) p h in
      >>=-cases P (read_outputs limits entry reads.0 reads.1) _ p
        (λ _ _. finish_member-IsExpanded entry s.total _ kept) (λ _ _. (kept, tt))
