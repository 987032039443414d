-- ===== src/Decompression/Loops.antt =====
-- app/core/middleware/request_decompression.py: the loops end, and what they keep is within the limit.
use firecrawl_lb.Prelude.{
  ℕ, zero, suc, false, ◌+◌, ◌-◌, ◌≤◌, ◌<◌, ltb, ◌==◌, Option, none, some, List, [], ◌∷◌, ◌++◌, ◌≡◌,
  refl, arith, length, length-append, if_cases, if_elim,
}
use firecrawl_lb.Decompression.{
  Bytes, Codecs, Decompressed, body, too_large, unsupported, broken, on_chunk, read_loop,
  read_limited, Fed, fed, stopped, on_output, feed, on_drained, drain, then_fed, feed_all, finished,
  decompress_gzip, zstd_or_stream, decompress_zstd, decompress_deflate, chunks,
}

-- A result that is there, and whose body is no longer than the limit.
abbrev pub Ends : ℕ → Option Decompressed → Type 0
Ends max_size none = ⊥
Ends max_size (some (body bytes)) = length bytes ≤ max_size
Ends max_size (some too_large) = Unit
Ends max_size (some unsupported) = Unit
Ends max_size (some broken) = Unit

module _ (codecs : Codecs) (max_size : ℕ) where
  chunk-Ends :
      (total : ℕ) (buffer : Bytes) (r : Option (Bytes × codecs.Reader))
      (next : codecs.Reader → ℕ → Bytes → Option Decompressed)
      → length buffer ≡ total
      → total ≤ max_size
      → ((reader : codecs.Reader) (total' : ℕ) (buffer' : Bytes)
          → length buffer' ≡ total'
          → total' ≤ max_size
          → total < total'
          → Ends max_size (next reader total' buffer'))
      → Ends max_size (on_chunk codecs max_size total buffer r next)
  chunk-Ends total buffer none next e le h = tt
  chunk-Ends total buffer (some ([], reader)) next e le h = omega arith
  chunk-Ends total buffer (some (b ∷ bs, reader)) next e le h =
      if_cases (Ends max_size) (ltb max_size (total + length (b ∷ bs))) (λ _. tt)
        (λ fits.
          h reader (total + length (b ∷ bs)) (buffer ++ (b ∷ bs))
            (omega (arith, length-append buffer (b ∷ bs))) (ground arith) (omega arith))

  loop-Ends :
      (fuel : ℕ) (reader : codecs.Reader) (total : ℕ) (buffer : Bytes)
      → length buffer ≡ total
      → total ≤ max_size
      → max_size + 2 ≤ fuel + total
      → Ends max_size (read_loop codecs max_size fuel reader total buffer)
  unfolding read_loop
  loop-Ends zero reader total buffer e le enough = absurd (omega arith)
  loop-Ends (suc fuel) reader total buffer e le enough =
      chunk-Ends total buffer (codecs.read reader) (read_loop codecs max_size fuel) e le
        (λ reader' total' buffer' e' le' more.
          loop-Ends fuel reader' total' buffer' e' le' (omega arith))

  pub read_limited-Ends :
      (reader : codecs.Reader) → Ends max_size (read_limited codecs max_size reader)
  unfolding read_limited
  read_limited-Ends reader = loop-Ends (max_size + 2) reader 0 [] refl (omega arith) (omega arith)

  pub gzip-Ends : (data_in : Bytes) → Ends max_size (decompress_gzip codecs max_size data_in)
  unfolding decompress_gzip
  gzip-Ends data_in = read_limited-Ends (codecs.gzip_reader data_in)

  stream-Ends :
      (data_in : Bytes) (o : Option Bytes)
      → Ends max_size (zstd_or_stream codecs max_size data_in o)
  stream-Ends data_in none = read_limited-Ends (codecs.zstd_reader data_in)
  stream-Ends data_in (some bytes) =
      if_cases (Ends max_size) (ltb max_size (length bytes)) (λ _. tt) (λ fits. ground arith)

  pub zstd-Ends : (data_in : Bytes) → Ends max_size (decompress_zstd codecs max_size data_in)
  unfolding decompress_zstd
  zstd-Ends data_in = stream-Ends data_in (codecs.zstd_decompress data_in max_size)

  -- The loops of deflate: a buffer within the limit, or an exception.
  abbrev pub Feeds : Option (Fed codecs max_size) → Type 0
  Feeds none = ⊥
  Feeds (some (fed d buffer)) = length buffer ≤ max_size
  Feeds (some (stopped e)) = Ends max_size (some e)

  abbrev Output :
      codecs.Decompressor → Bytes → ℕ → Option (Bytes × Bytes × codecs.Decompressor) → Type 0
  Output d chunk max_length o = codecs.decompress d chunk max_length ≡ o

  Output-Feeds :
      (d : codecs.Decompressor) (b : ℕ) (bs buffer : Bytes)
      (o : Option (Bytes × Bytes × codecs.Decompressor))
      (next : codecs.Decompressor → Bytes → Bytes → Option (Fed codecs max_size))
      → length buffer ≤ max_size
      → (max_size - length buffer == 0) ≡ false
      → Output d (b ∷ bs) (max_size - length buffer) o
      → ((after : codecs.Decompressor) (tail buffer' : Bytes)
          → length buffer' ≤ max_size
          → length tail + length buffer < length (b ∷ bs) + length buffer'
          → length tail ≤ length (b ∷ bs)
          → length buffer ≤ length buffer'
          → Feeds (next after tail buffer'))
      → Feeds (on_output codecs max_size buffer o next)
  Output-Feeds d b bs buffer none next le room e h = tt
  Output-Feeds d b bs buffer (some (out, tail, after)) next le room e h =
      let within =
        codecs.within d after (b ∷ bs) out tail (max_size - length buffer) (ground (arith, room))
          e in
      let (shorter, step) =
        codecs.progress d after (b ∷ bs) out tail (max_size - length buffer) e in
      let joined = length-append buffer out in
      let moved = step (omega arith) in
      h after tail (buffer ++ out) (omega arith) (omega arith) shorter (omega arith)

  feed-Feeds :
      (fuel : ℕ) (d : codecs.Decompressor) (chunk buffer : Bytes)
      → length buffer ≤ max_size
      → max_size + length chunk + 1 ≤ fuel + length buffer
      → Feeds (feed codecs max_size fuel d chunk buffer)
  unfolding feed
  feed-Feeds fuel d [] buffer le enough = le
  feed-Feeds zero d (b ∷ bs) buffer le enough = absurd (omega arith)
  feed-Feeds (suc fuel) d (b ∷ bs) buffer le enough =
      if_cases Feeds (max_size - length buffer == 0) (λ _. tt)
        (λ room.
          Output-Feeds d b bs buffer (codecs.decompress d (b ∷ bs) (max_size - length buffer))
            (feed codecs max_size fuel) le room refl
            (λ after tail buffer' le' moved shorter grown.
              feed-Feeds fuel after tail buffer' le' (omega arith)))

  drained-Feeds :
      (d : codecs.Decompressor) (buffer : Bytes) (o : Option (Bytes × Bytes × codecs.Decompressor))
      (next : codecs.Decompressor → Bytes → Option (Fed codecs max_size))
      → length buffer ≤ max_size
      → (max_size - length buffer == 0) ≡ false
      → Output d [] (max_size - length buffer) o
      → ((after : codecs.Decompressor) (buffer' : Bytes)
          → length buffer' ≤ max_size
          → length buffer < length buffer'
          → Feeds (next after buffer'))
      → Feeds (on_drained codecs max_size buffer o next)
  drained-Feeds d buffer none next le room e h = tt
  drained-Feeds d buffer (some ([], tail, after)) next le room e h = le
  drained-Feeds d buffer (some (b ∷ out, tail, after)) next le room e h =
      let within =
        codecs.within d after [] (b ∷ out) tail (max_size - length buffer) (ground (arith, room))
          e in
      let joined = length-append buffer (b ∷ out) in
      h after (buffer ++ (b ∷ out)) (omega arith) (omega arith)

  drain-Feeds :
      (fuel : ℕ) (d : codecs.Decompressor) (buffer : Bytes)
      → length buffer ≤ max_size
      → max_size + 1 ≤ fuel + length buffer
      → Feeds (drain codecs max_size fuel d buffer)
  unfolding drain
  drain-Feeds zero d buffer le enough = absurd (omega arith)
  drain-Feeds (suc fuel) d buffer le enough =
      if_cases Feeds (max_size - length buffer == 0) (λ _. tt)
        (λ room.
          drained-Feeds d buffer (codecs.decompress d [] (max_size - length buffer))
            (drain codecs max_size fuel) le room refl
            (λ after buffer' le' more. drain-Feeds fuel after buffer' le' (omega arith)))

  then-Feeds :
      (o : Option (Fed codecs max_size))
      (next : codecs.Decompressor → Bytes → Option (Fed codecs max_size))
      → Feeds o
      → ((d : codecs.Decompressor) (buffer : Bytes)
          → length buffer ≤ max_size
          → Feeds (next d buffer))
      → Feeds (then_fed codecs max_size o next)
  then-Feeds none next h k = absurd h
  then-Feeds (some (stopped e)) next h k = h
  then-Feeds (some (fed d buffer)) next h k = k d buffer h

  all-Feeds :
      (more : List Bytes) (d : codecs.Decompressor) (buffer : Bytes)
      → length buffer ≤ max_size
      → Feeds (feed_all codecs max_size more d buffer)
  unfolding feed_all
  all-Feeds [] d buffer le = le
  all-Feeds (chunk ∷ more) d buffer le =
      then-Feeds (feed codecs max_size (max_size + length chunk + 1) d chunk buffer)
        (feed_all codecs max_size more)
        (feed-Feeds (max_size + length chunk + 1) d chunk buffer le (omega arith)) (all-Feeds more)

  finished-Ends :
      (o : Option (Fed codecs max_size)) → Feeds o → Ends max_size (finished codecs max_size o)
  finished-Ends none h = absurd h
  finished-Ends (some (stopped e)) h = h
  finished-Ends (some (fed d buffer)) h = if_elim (Ends max_size) (codecs.eof d) h tt

  pub deflate-Ends : (data_in : Bytes) → Ends max_size (decompress_deflate codecs max_size data_in)
  unfolding decompress_deflate
  deflate-Ends data_in = finished-Ends _ (
      then-Feeds
        (feed_all codecs max_size (chunks codecs max_size (length data_in) data_in)
          codecs.decompressobj [])
        (drain codecs max_size (max_size + 1))
        (all-Feeds (chunks codecs max_size (length data_in) data_in) codecs.decompressobj []
          (omega arith))
        (λ d buffer le. drain-Feeds (max_size + 1) d buffer le (omega arith)))
