-- ===== src/Identity/Gzip/Bounded.antt =====
-- The decompression ceiling of packages/identity/src/status-list.ts, and what the platform's streams
-- are relied on for.
use mathlib.Core.List.{append_assoc, append-nil}
use stellar_onramp.Base.{
  ℕ, ◌+◌, ◌≤◌, ◌≡◌, refl, sym, ap, arith, true, List, [], ◌∷◌, ◌++◌, ltb, length, length-append, ok,
  Bytes, AreBytes, Bool-cases, inl, inr,
}
use stellar_onramp.Identity.Gzip.{
  Read, chunk, no_value, failure, GzipStreams, max_status_list_bytes, read_capped, gunzip, join,
}

-- The stream hands over `raw` and does not fail.
pub data Delivers : List Read → Bytes → Type 0 where
  done : Delivers [] []
  skip : {reads : List Read} {raw : Bytes} → Delivers reads raw → Delivers (no_value ∷ reads) raw
  more :
      {reads : List Read} {raw all : Bytes} (c : Bytes)
      → all ≡ c ++ raw
      → Delivers reads raw
      → Delivers (chunk c ∷ reads) all

-- Documented behaviour of the platform: what `CompressionStream` writes is bytes, and
-- `DecompressionStream` gives the input back.
pub record IsGzip (streams : GzipStreams) : Type 0 where
  pub decompresses : streams.can_decompress ≡ true
  pub compresses : streams.can_compress ≡ true
  pub compressed_bytes : (raw : Bytes) → AreBytes raw → AreBytes (join (streams.compress raw))
  pub restores :
      (raw : Bytes) → AreBytes raw → Delivers (streams.decompress (join (streams.compress raw))) raw

read_capped-bounded :
    (reads : List Read) (total : ℕ) (out : Bytes) {raw : Bytes}
    → length out ≡ total
    → total ≤ max_status_list_bytes
    → read_capped reads total out ≡ ok raw
    → length raw ≤ max_status_list_bytes
unfolding read_capped
read_capped-bounded [] total out e h r = ground arith
read_capped-bounded (failure ∷ reads) total out e h r = absurd (cc)
read_capped-bounded (no_value ∷ reads) total out e h r = read_capped-bounded reads total out e h r
read_capped-bounded (chunk c ∷ reads) total out e h r =
    elim (Bool-cases (ltb max_status_list_bytes (total + length c))) [
      | inl over ↦ absurd (ground (arith, over))
      | inr within ↦
          read_capped-bounded reads (total + length c) (out ++ c)
            (omega (arith, length-append out c)) (ground (arith, within)) (ground (arith, within))
    ]

-- Whatever the stream hands over, what `gunzip` returns is no longer than the ceiling.
pub gunzip-bounded :
    (streams : GzipStreams) (compressed : Bytes) {raw : Bytes}
    → gunzip streams compressed ≡ ok raw
    → length raw ≤ max_status_list_bytes
unfolding gunzip
gunzip-bounded streams compressed h =
    read_capped-bounded (streams.decompress compressed) 0 [] refl (omega arith) (ground arith)

read_capped-Delivers :
    {reads : List Read} {raw : Bytes} (total : ℕ) (out : Bytes)
    → Delivers reads raw
    → total + length raw ≤ max_status_list_bytes
    → read_capped reads total out ≡ ok (out ++ raw)
unfolding read_capped
read_capped-Delivers total out done h = ap ok (sym (append-nil out))
read_capped-Delivers total out (skip d) h = read_capped-Delivers total out d h
read_capped-Delivers total out (more {raw = raw} c e d) h =
    let fits : total + length c + length raw ≤ max_status_list_bytes =
      omega (arith, ap length e, length-append c raw) in
    let rest = read_capped-Delivers (total + length c) (out ++ c) d fits in
    ground (arith, rest, append_assoc out c raw, e)

-- `gunzip` of the chunks that the platform compresses bytes to, joined as `gzip` joins them, gives the
-- bytes back, up to the ceiling and where the platform's streams give back what they compress.
pub gunzip-gzip :
    (streams : GzipStreams) (raw : Bytes)
    → IsGzip streams
    → AreBytes raw
    → length raw ≤ max_status_list_bytes
    → gunzip streams (join (streams.compress raw)) ≡ ok raw
unfolding gunzip
gunzip-gzip streams raw law h n =
    rw law.decompresses (read_capped-Delivers 0 [] (law.restores raw h) (omega arith))
