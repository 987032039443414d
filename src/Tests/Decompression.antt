-- ===== src/Tests/Decompression.antt =====
-- Decompression with a reader that never ends, and one that hands out a byte at a time.
use firecrawl_lb.Prelude.{
  ℕ, ◌≡◌, refl, Option, none, some, [], ◌∷◌, true, arith, length, ◌≤◌, ◌<◌, ◌+◌, zero, suc,
}
use firecrawl_lb.Prelude.Text.{codes}
use firecrawl_lb.Decompression.{Bytes, Codecs, too_large, decompress_body, read_limited, read_loop}
use firecrawl_lb.Decompression.Limits.{EndsWithin, decompress_body-EndsWithin}

abbrev pub next_byte : Bytes → Option (Bytes × Bytes)
next_byte [] = some ([], [])
next_byte (b ∷ bs) = some (b ∷ [], bs)

-- A byte at a time, or all that there is without a bound.
abbrev pub inflate : ℕ → Bytes → ℕ → Option (Bytes × Bytes × ℕ)
inflate d [] max_length = some ([], [], d)
inflate d (b ∷ bs) zero = some (b ∷ bs, [], d)
inflate d (b ∷ bs) (suc n) = some (b ∷ [], bs, d)

inflate-within :
    (d after : ℕ) (chunk out tail : Bytes) (max_length : ℕ)
    → 0 < max_length
    → inflate d chunk max_length ≡ some (out, tail, after)
    → length out ≤ max_length
inflate-within d after [] out tail n pos e = ground (arith, e)
inflate-within d after (b ∷ bs) out tail zero pos e = absurd (omega arith)
inflate-within d after (b ∷ bs) out tail (suc n) pos e = ground (arith, e)

inflate-progress :
    (d after : ℕ) (chunk out tail : Bytes) (max_length : ℕ)
    → inflate d chunk max_length ≡ some (out, tail, after)
    → (length tail ≤ length chunk) × ((0 < length chunk) → length tail < length chunk + length out)
inflate-progress d after [] out tail n e = (ground (arith, e), λ h. absurd (omega arith))
inflate-progress d after (b ∷ bs) out tail zero e = (ground (arith, e), λ h. ground (arith, e))
inflate-progress d after (b ∷ bs) out tail (suc n) e = (ground (arith, e), λ h. ground (arith, e))

-- Every encoding hands the body out as it is.
abbrev plain_codecs : Codecs
plain_codecs = record {
  Reader = Bytes;
  gzip_reader = λ bytes. bytes;
  zstd_reader = λ bytes. bytes;
  read = next_byte;
  zstd_decompress = λ bytes max_length. none;
  Decompressor = ℕ;
  decompressobj = 0;
  decompress = inflate;
  eof = λ d. true;
  within = inflate-within;
  progress = inflate-progress;
}

abbrev endless_codecs : Codecs
endless_codecs = record plain_codecs { read = λ reader. some (0 ∷ [], reader) }

decompress_body-EndsWithin_example :
    EndsWithin plain_codecs 3
      (1 ∷ 2 ∷ [])
      (decompress_body plain_codecs 3 (1 ∷ 2 ∷ []) (codes "deflate" ∷ []))
decompress_body-EndsWithin_example =
    decompress_body-EndsWithin plain_codecs 3 (1 ∷ 2 ∷ []) (codes "deflate" ∷ [])

endless : read_limited endless_codecs 3 [] ≡ some too_large
unfolding read_limited read_loop
endless = refl
