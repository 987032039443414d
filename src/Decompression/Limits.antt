-- ===== src/Decompression/Limits.antt =====
-- app/core/middleware/request_decompression.py: the middleware answers, and the bodies that it lets through.
use firecrawl_lb.Prelude.{
  ℕ, ◌≤◌, Option, none, some, List, [], ◌∷◌, ◌≡◌, refl, arith, ◌⊎◌, inl, inr, length,
}
use mathlib.Core.List.{reverse}
use firecrawl_lb.Decompression.{
  Bytes, Codecs, Decompressed, body, too_large, unsupported, broken, Encoding, zstd, gzip, deflate,
  identity, decode, then_decode, decode_all, supported, decode_supported, decompress_body,
}
use firecrawl_lb.Decompression.Loops.{Ends, gzip-Ends, zstd-Ends, deflate-Ends}

module _ (codecs : Codecs) (max_size : ℕ) where
  -- A result that is there, and whose body is no longer than the limit or the body that came in.
  abbrev pub EndsWithin : Bytes → Option Decompressed → Type 0
  EndsWithin data_in none = ⊥
  EndsWithin data_in (some (body bytes)) = (length bytes ≤ max_size) ⊎ (bytes ≡ data_in)
  EndsWithin data_in (some too_large) = Unit
  EndsWithin data_in (some unsupported) = Unit
  EndsWithin data_in (some broken) = Unit

  Ends-EndsWithin :
      (data_in : Bytes) (o : Option Decompressed) → Ends max_size o → EndsWithin data_in o
  Ends-EndsWithin data_in none h = h
  Ends-EndsWithin data_in (some (body bytes)) h = inl h
  Ends-EndsWithin data_in (some too_large) h = tt
  Ends-EndsWithin data_in (some unsupported) h = tt
  Ends-EndsWithin data_in (some broken) h = tt

  decode-EndsWithin :
      (e : Encoding) (data_in : Bytes) → EndsWithin data_in (decode codecs max_size e data_in)
  unfolding decode
  decode-EndsWithin zstd data_in = Ends-EndsWithin data_in _ (zstd-Ends codecs max_size data_in)
  decode-EndsWithin gzip data_in = Ends-EndsWithin data_in _ (gzip-Ends codecs max_size data_in)
  decode-EndsWithin deflate data_in =
      Ends-EndsWithin data_in _ (deflate-Ends codecs max_size data_in)
  decode-EndsWithin identity data_in = inr refl

  -- What holds of a text within the limit or of the first text holds after one more encoding.
  then-EndsWithin :
      (first data_in : Bytes) (o : Option Decompressed) (next : Bytes → Option Decompressed)
      → (length data_in ≤ max_size) ⊎ (data_in ≡ first)
      → EndsWithin data_in o
      → ((bytes : Bytes)
          → (length bytes ≤ max_size) ⊎ (bytes ≡ first)
          → EndsWithin first (next bytes))
      → EndsWithin first (then_decode codecs max_size o next)
  then-EndsWithin first data_in none next from h k = absurd h
  then-EndsWithin first data_in (some (body bytes)) next from (inl le) k = k bytes (inl le)
  then-EndsWithin first data_in (some (body bytes)) next (inl le) (inr e) k =
      k bytes (inl (ground (arith, e)))
  then-EndsWithin first data_in (some (body bytes)) next (inr f) (inr e) k = k bytes (inr (cc))
  then-EndsWithin first data_in (some too_large) next from h k = tt
  then-EndsWithin first data_in (some unsupported) next from h k = tt
  then-EndsWithin first data_in (some broken) next from h k = tt

  all-EndsWithin :
      (first : Bytes) (es : List Encoding) (data_in : Bytes)
      → (length data_in ≤ max_size) ⊎ (data_in ≡ first)
      → EndsWithin first (decode_all codecs max_size es data_in)
  unfolding decode_all
  all-EndsWithin first [] data_in from = from
  all-EndsWithin first (e ∷ es) data_in from =
      then-EndsWithin first data_in (decode codecs max_size e data_in)
        (decode_all codecs max_size es) from (decode-EndsWithin e data_in) (all-EndsWithin first es)

  supported-EndsWithin :
      (data_in : Bytes) (o : Option (List Encoding))
      → EndsWithin data_in (decode_supported codecs max_size o data_in)
  supported-EndsWithin data_in none = tt
  supported-EndsWithin data_in (some es) = all-EndsWithin data_in (reverse es) data_in (inr refl)

  -- Every body is decompressed or refused: no loop goes on for ever, not even for a reader that never ends, since
  -- each round keeps another byte or takes input and no more than the limit is kept. The body that comes out
  -- has no more bytes than the limit, or it is the one that came in, whatever encodings are listed.
  pub decompress_body-EndsWithin :
      (data_in : Bytes) (encodings : List Bytes)
      → EndsWithin data_in (decompress_body codecs max_size data_in encodings)
  unfolding decompress_body
  decompress_body-EndsWithin data_in encodings = supported-EndsWithin data_in (supported encodings)
