-- ===== src/Compression/IntegerBlock.antt =====
-- `EncodedIntegerBlock` of src/compression/compress.rs: raw, delta or variable-byte integers.
-- `encode` returns `Ok` on every input in the source; the model returns the block itself.
mod Tests
use drusdenx.Prelude.{
  ℕ, ◌/◌, ◌%◌, ◌^◌, ◌<◌, ◌≡◌, ◌≢◌, refl, List, [], ◌∷◌, ◌++◌, arith, length, Result, ok, err,
  internal, All, ◌∙◌,
}
use drusdenx.Compression.VByte
use drusdenx.Compression.VByte.{IsU32}
use drusdenx.Compression.VByte.Decode.{decode_u32_list-ne-internal}
use drusdenx.Compression.VByte.RoundTrip.{decode_u32_list-encode_u32_list}
use drusdenx.Compression.Delta
use drusdenx.Compression.Delta.{to_le_bytes, from_le_bytes}
use drusdenx.Compression.Delta.RoundTrip.{
  decode_delta-encode_delta, decode_delta-ne-internal, from_le_bytes-to_le_bytes,
}

pub data IntegerEncodingType : Type 0 where
  raw delta vbyte : IntegerEncodingType

pub record EncodedIntegerBlock : Type 0 where
  pub bytes : List ℕ
  pub original_count : ℕ
  pub encoding : IntegerEncodingType

encode_raw : List ℕ → List ℕ
encode_raw [] = []
encode_raw (num ∷ nums) = to_le_bytes num ++ encode_raw nums

-- `chunks_exact(4)`: what is left over at the end is skipped.
decode_raw : List ℕ → List ℕ
decode_raw (a ∷ b ∷ c ∷ d ∷ rest) = from_le_bytes a b c d ∷ decode_raw rest
decode_raw _ = []

encode_bytes : List ℕ → IntegerEncodingType → List ℕ
encode_bytes nums raw = encode_raw nums
encode_bytes nums delta = Delta.encode_u32_list nums
encode_bytes nums vbyte = VByte.encode_u32_list nums

pub encode : List ℕ → IntegerEncodingType → EncodedIntegerBlock
unfolding encode_bytes
encode nums encoding = record {
  bytes = encode_bytes nums encoding;
  original_count = length nums;
  encoding = encoding;
}

decode_bytes : List ℕ → IntegerEncodingType → Result (List ℕ)
decode_bytes bytes raw = ok (decode_raw bytes)
decode_bytes bytes delta = Delta.decode_u32_list bytes
decode_bytes bytes vbyte = VByte.decode_u32_list bytes

pub decode : EncodedIntegerBlock → Result (List ℕ)
unfolding decode_bytes
decode block = decode_bytes block.bytes block.encoding

decode_raw-encode_raw : (nums : List ℕ) → All IsU32 nums → decode_raw (encode_raw nums) ≡ nums
unfolding encode_raw decode_raw
decode_raw-encode_raw [] h = refl
decode_raw-encode_raw (num ∷ nums) (hn, hs) =
    rw (from_le_bytes-to_le_bytes num hn, decode_raw-encode_raw nums hs)

-- In each of the three encodings a block decodes to the u32s that it was built from.
pub decode-encode :
    (nums : List ℕ) (encoding : IntegerEncodingType)
    → All IsU32 nums
    → decode (encode nums encoding) ≡ ok nums
unfolding encode decode
decode-encode nums raw h = rw (decode_raw-encode_raw nums h)
decode-encode nums delta h = decode_delta-encode_delta nums h
decode-encode nums vbyte h = decode_u32_list-encode_u32_list nums h

-- `decode` ends on every block, corrupt or not: no fuel of its decoders runs out.
pub decode-ne-internal : (block : EncodedIntegerBlock) → decode block ≢ err internal
unfolding decode
decode-ne-internal block = by_encoding block.bytes block.encoding
  where
    by_encoding :
        (bytes : List ℕ) (encoding : IntegerEncodingType)
        → decode_bytes bytes encoding ≢ err internal
    by_encoding bytes raw = λ e. cc
    by_encoding bytes delta = decode_delta-ne-internal bytes
    by_encoding bytes vbyte = decode_u32_list-ne-internal bytes
