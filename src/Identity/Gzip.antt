-- ===== src/Identity/Gzip.antt =====
-- `gunzip` and `gzip` of packages/identity/src/status-list.ts. The Compression Streams of the
-- platform are parameters: what a reader hands over, chunk by chunk.
pub mod Bounded
use stellar_onramp.Base.{
  ℕ, ◌+◌, ◌*◌, Bool, List, [], ◌∷◌, ◌++◌, ltb, if◌then◌else◌, length, Result, ok, err, ◌>>=◌, ◌>>◌,
  guard, Bytes,
}
use stellar_onramp.Identity.StatusListError.{
  StatusListError, stream_unavailable, too_large, invalid_gzip,
}

-- What one call of `reader.read()` gives before the stream is done.
pub data Read : Type 0 where
  chunk : Bytes → Read
  no_value : Read
  failure : Read

pub record GzipStreams : Type 0 where
  pub can_decompress : Bool
  pub can_compress : Bool
  pub decompress : Bytes → List Read
  pub compress : Bytes → List Bytes

abbrev pub max_status_list_bytes : ℕ
max_status_list_bytes = 16 * 1024 * 1024

-- The read loop: the total is checked before the chunk is kept. `out` is the chunks kept, in one.
unfoldable pub read_capped : List Read → ℕ → Bytes → Result StatusListError Bytes
read_capped [] total out = ok out
read_capped (failure ∷ _) total out = err invalid_gzip
read_capped (no_value ∷ reads) total out = read_capped reads total out
read_capped (chunk c ∷ reads) total out =
    let rest = read_capped reads (total + length c) (out ++ c) in
    if ltb max_status_list_bytes (total + length c) then err too_large else rest

unfoldable pub gunzip : GzipStreams → Bytes → Result StatusListError Bytes
gunzip streams compressed = do
  guard streams.can_decompress stream_unavailable
  read_capped (streams.decompress compressed) 0 []

unfoldable pub join : List Bytes → Bytes
join [] = []
join (c ∷ cs) = c ++ join cs

unfoldable pub gzip : GzipStreams → Bytes → Result StatusListError Bytes
gzip streams raw = do
  guard streams.can_compress stream_unavailable
  ok (join (streams.compress raw))
