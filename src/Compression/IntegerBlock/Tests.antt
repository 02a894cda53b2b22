-- ===== src/Compression/IntegerBlock/Tests.antt =====
-- Runs of `EncodedIntegerBlock` (src/compression/compress.rs), and its theorems at concrete inputs.
use drusdenx.Prelude.{◌≡◌, refl, [], ◌∷◌, arith, ok}
use drusdenx.Compression.IntegerBlock.{
  EncodedIntegerBlock, raw, vbyte, delta, encode, decode, decode_raw, decode-encode,
}

decode_trailing :
    decode (record { bytes = 1 ∷ 1 ∷ 0 ∷ 0 ∷ 9 ∷ []; original_count = 1; encoding = raw })
    ≡ ok (257 ∷ [])
unfolding decode decode_raw
decode_trailing = refl

decode-encode_example : decode (encode (70000 ∷ 2 ∷ []) delta) ≡ ok (70000 ∷ 2 ∷ [])
decode-encode_example = decode-encode (70000 ∷ 2 ∷ []) delta (omega arith)

abbrev cut : EncodedIntegerBlock
cut = record { bytes = 200 ∷ []; original_count = 1; encoding = vbyte }
