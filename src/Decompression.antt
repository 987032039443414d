-- ===== src/Decompression.antt =====
-- app/core/middleware/request_decompression.py: the body of a compressed request. A body is a list of bytes.
-- gzip's and zstd's readers, zstd's single call and zlib's decompressor are an interface; an exception of theirs is
-- `none`. The two kinds of loops run on fuel.
pub mod Limits
pub mod Loops
use firecrawl_lb.Prelude.{
  ℕ, zero, suc, ◌+◌, ◌-◌, ◌≤◌, ◌<◌, ltb, ◌==◌, max, String, Bool, true, false, not, ◌&&◌, ◌||◌,
  Option, none, some, List, [], ◌∷◌, ◌++◌, ◌≡◌, ◌≢◌, ◌⊎◌, map, keep, any, length, if◌then◌else◌,
}
use firecrawl_lb.Prelude.Text.{
  codes, codes_eq, strip, lower, split_commas, is_empty, starts_with, strip_right,
}
use mathlib.Core.List.{reverse}

abbrev pub Bytes : Type 0
Bytes = List ℕ

abbrev pub chunk_size : ℕ
chunk_size = 65536

-- `zlib` hands out no more than a positive `max_length`, and without bound for 0; a call on some input makes
-- output or takes input.
pub record Codecs : Type 1 where
  pub Reader : Type 0
  pub gzip_reader : Bytes → Reader
  pub zstd_reader : Bytes → Reader
  pub read : Reader → Option (Bytes × Reader)
  pub zstd_decompress : Bytes → ℕ → Option Bytes
  pub Decompressor : Type 0
  pub decompressobj : Decompressor
  pub decompress : Decompressor → Bytes → ℕ → Option (Bytes × Bytes × Decompressor)
  pub eof : Decompressor → Bool
  pub within :
      (d after : Decompressor) (chunk out tail : Bytes) (max_length : ℕ)
      → 0 < max_length
      → decompress d chunk max_length ≡ some (out, tail, after)
      → length out ≤ max_length
  pub progress :
      (d after : Decompressor) (chunk out tail : Bytes) (max_length : ℕ)
      → decompress d chunk max_length ≡ some (out, tail, after)
      → (length tail ≤ length chunk)
        × ((0 < length chunk) → length tail < length chunk + length out)

-- The bytes, `_DecompressedBodyTooLarge`, the `ValueError` of an encoding, or another exception.
pub data Decompressed : Type 0 where
  body : Bytes → Decompressed
  too_large unsupported broken : Decompressed

module _ (codecs : Codecs) (max_size : ℕ) where
  abbrev pub on_chunk :
      ℕ
      → Bytes
      → Option (Bytes × codecs.Reader)
      → (codecs.Reader → ℕ → Bytes → Option Decompressed)
      → Option Decompressed
  on_chunk total buffer none next = some broken
  on_chunk total buffer (some ([], reader)) next = some (body buffer)
  on_chunk total buffer (some (b ∷ bs, reader)) next =
      let total' = total + length (b ∷ bs) in
      if ltb max_size total' then some too_large else next reader total' (buffer ++ (b ∷ bs))

  -- The loop of `_read_limited`; `none` is the end of the fuel.
  unfoldable pub read_loop : ℕ → codecs.Reader → ℕ → Bytes → Option Decompressed
  read_loop zero reader total buffer = none
  read_loop (suc fuel) reader total buffer =
      on_chunk total buffer (codecs.read reader) (read_loop fuel)

  -- Every round but the last reads a byte, and no more than `max_size` bytes are kept.
  unfoldable pub read_limited : codecs.Reader → Option Decompressed
  read_limited reader = read_loop (max_size + 2) reader 0 []

  unfoldable pub decompress_gzip : Bytes → Option Decompressed
  decompress_gzip data_in = read_limited (codecs.gzip_reader data_in)

  abbrev pub zstd_or_stream : Bytes → Option Bytes → Option Decompressed
  zstd_or_stream data_in none = read_limited (codecs.zstd_reader data_in)
  zstd_or_stream data_in (some decompressed) =
      if ltb max_size (length decompressed) then some too_large else some (body decompressed)

  unfoldable pub decompress_zstd : Bytes → Option Decompressed
  decompress_zstd data_in = zstd_or_stream data_in (codecs.zstd_decompress data_in max_size)

  -- What a loop of `_decompress_deflate` leaves, or the exception that it raises.
  pub data Fed : Type 0 where
    fed : codecs.Decompressor → Bytes → Fed
    stopped : Decompressed → Fed

  abbrev pub on_output :
      Bytes
      → Option (Bytes × Bytes × codecs.Decompressor)
      → (codecs.Decompressor → Bytes → Bytes → Option Fed)
      → Option Fed
  on_output buffer none next = some (stopped broken)
  on_output buffer (some (out, tail, d)) next = next d tail (buffer ++ out)

  -- `while chunk:`
  unfoldable pub feed : ℕ → codecs.Decompressor → Bytes → Bytes → Option Fed
  feed fuel d [] buffer = some (fed d buffer)
  feed zero d (b ∷ chunk) buffer = none
  feed (suc fuel) d (b ∷ chunk) buffer =
      let remaining = max_size - length buffer in
      let next = on_output buffer (codecs.decompress d (b ∷ chunk) remaining) (feed fuel) in
      if remaining == 0 then some (stopped too_large) else next

  abbrev pub on_drained :
      Bytes
      → Option (Bytes × Bytes × codecs.Decompressor)
      → (codecs.Decompressor → Bytes → Option Fed)
      → Option Fed
  on_drained buffer none next = some (stopped broken)
  on_drained buffer (some ([], tail, d)) next = some (fed d buffer)
  on_drained buffer (some (b ∷ out, tail, d)) next = next d (buffer ++ (b ∷ out))

  -- `while True:`
  unfoldable pub drain : ℕ → codecs.Decompressor → Bytes → Option Fed
  drain zero d buffer = none
  drain (suc fuel) d buffer =
      let remaining = max_size - length buffer in
      let next = on_drained buffer (codecs.decompress d [] remaining) (drain fuel) in
      if remaining == 0 then some (stopped too_large) else next

  abbrev pub then_fed : Option Fed → (codecs.Decompressor → Bytes → Option Fed) → Option Fed
  then_fed none next = none
  then_fed (some (stopped e)) next = some (stopped e)
  then_fed (some (fed d buffer)) next = next d buffer

  abbrev pub take : ℕ → Bytes → Bytes
  take n [] = []
  take zero (b ∷ bs) = []
  take (suc n) (b ∷ bs) = b ∷ take n bs

  abbrev pub drop : ℕ → Bytes → Bytes
  drop n [] = []
  drop zero (b ∷ bs) = b ∷ bs
  drop (suc n) (b ∷ bs) = drop n bs

  -- `data[start : start + chunk_size]` for each start; a body has no more chunks than bytes.
  unfoldable pub chunks : ℕ → Bytes → List Bytes
  chunks zero bs = []
  chunks (suc fuel) [] = []
  chunks (suc fuel) (b ∷ bs) = take chunk_size (b ∷ bs) ∷ chunks fuel (drop chunk_size (b ∷ bs))

  unfoldable pub feed_all : List Bytes → codecs.Decompressor → Bytes → Option Fed
  feed_all [] d buffer = some (fed d buffer)
  feed_all (chunk ∷ more) d buffer =
      then_fed (feed (max_size + length chunk + 1) d chunk buffer) (feed_all more)

  abbrev pub finished : Option Fed → Option Decompressed
  finished none = none
  finished (some (stopped e)) = some e
  finished (some (fed d buffer)) = if codecs.eof d then some (body buffer) else some broken

  unfoldable pub decompress_deflate : Bytes → Option Decompressed
  decompress_deflate data_in = finished (
      then_fed (feed_all (chunks (length data_in) data_in) codecs.decompressobj [])
        (drain (max_size + 1)))

pub data Encoding : Type 0 where
  zstd gzip deflate identity : Encoding

-- `none` is no supported encoding.
abbrev pub encoding_of : Bytes → Option Encoding
encoding_of name =
    if codes_eq name (codes "zstd")
    then some zstd
    else if codes_eq name (codes "gzip")
    then some gzip
    else if codes_eq name (codes "deflate")
    then some deflate
    else if codes_eq name (codes "identity")
    then some identity
    else none

abbrev pub all_known : Option Encoding → Option (List Encoding) → Option (List Encoding)
all_known (some e) (some es) = some (e ∷ es)
all_known _ _ = none

unfoldable pub supported : List Bytes → Option (List Encoding)
supported [] = some []
supported (name ∷ names) = all_known (encoding_of name) (supported names)

module _ (codecs : Codecs) (max_size : ℕ) where
  unfoldable pub decode : Encoding → Bytes → Option Decompressed
  decode zstd data_in = decompress_zstd codecs max_size data_in
  decode gzip data_in = decompress_gzip codecs max_size data_in
  decode deflate data_in = decompress_deflate codecs max_size data_in
  decode identity data_in = some (body data_in)

  abbrev pub then_decode : Option Decompressed → (Bytes → Option Decompressed) → Option Decompressed
  then_decode (some (body result)) next = next result
  then_decode other next = other

  -- The last encoding first.
  unfoldable pub decode_all : List Encoding → Bytes → Option Decompressed
  decode_all [] result = some (body result)
  decode_all (e ∷ es) result = then_decode (decode e result) (decode_all es)

  abbrev pub decode_supported : Option (List Encoding) → Bytes → Option Decompressed
  decode_supported none data_in = some unsupported
  decode_supported (some encodings) data_in = decode_all (reverse encodings) data_in

  unfoldable pub decompress_body : Bytes → List Bytes → Option Decompressed
  decompress_body data_in encodings = decode_supported (supported encodings) data_in

-- `[enc.strip().lower() for enc in content_encoding.split(",") if enc.strip()]`
unfoldable pub encodings_of : String → List Bytes
encodings_of content_encoding =
    map (λ enc. lower (strip enc))
      (keep (λ enc. not (is_empty (strip enc))) (split_commas content_encoding))

pub record BodyLimits : Type 0 where
  pub max_decompressed_body_bytes : ℕ
  pub max_decompressed_responses_body_bytes : ℕ

-- `path.rstrip("/")` starts with `/v2/`, for the rest of the path without its last slashes.
unfoldable pub max_decompressed_body_bytes_for_request : BodyLimits → String → ℕ
max_decompressed_body_bytes_for_request limits stripped_path =
    if starts_with stripped_path "/v2/"
    then max limits.max_decompressed_body_bytes limits.max_decompressed_responses_body_bytes
    else limits.max_decompressed_body_bytes

-- The request goes on as it is or with another body, or is refused with a status.
pub data Passage : Type 0 where
  passed : Passage
  replaced : Bytes → Passage
  refused : ℕ → Passage

abbrev pub passage_of : Decompressed → Passage
passage_of (body bytes) = replaced bytes
passage_of too_large = refused 413
passage_of unsupported = refused 400
passage_of broken = refused 400

abbrev pub answered : Option Decompressed → Option Passage
answered none = none
answered (some d) = some (passage_of d)

module _ (codecs : Codecs) (limits : BodyLimits) where
  abbrev pub with_encodings : String → Bytes → List Bytes → Option Passage
  with_encodings stripped_path data_in [] = some passed
  with_encodings stripped_path data_in (e ∷ es) = answered (
      decompress_body codecs (max_decompressed_body_bytes_for_request limits stripped_path) data_in
        (e ∷ es))

  unfoldable pub request_decompression : Option String → String → Bytes → Option Passage
  request_decompression none stripped_path data_in = some passed
  request_decompression (some content_encoding) stripped_path data_in =
      if is_empty content_encoding
      then some passed
      else with_encodings stripped_path data_in (encodings_of content_encoding)
