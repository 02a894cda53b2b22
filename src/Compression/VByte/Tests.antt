-- ===== src/Compression/VByte/Tests.antt =====
-- Runs of src/compression/vbyte.rs, and its theorems at concrete inputs.
use drusdenx.Prelude.{◌≡◌, ◌≢◌, refl, [], ◌∷◌, arith, ok, err, parse, internal}
use drusdenx.Compression.VByte.{encode_u32, encode_u32_list, decode_u32, decode_u32_list}
use drusdenx.Compression.VByte.Decode.{decode_u32_list-ne-internal}
use drusdenx.Compression.VByte.RoundTrip.{decode_u32_list-encode_u32_list}

encode_300 : encode_u32 (7 ∷ []) 300 ≡ 7 ∷ 172 ∷ 2 ∷ []
unfolding encode_u32
encode_300 = refl

decode_300 : decode_u32 (172 ∷ 2 ∷ 9 ∷ []) ≡ ok (300, 2)
unfolding decode_u32
decode_300 = refl

-- A sixth byte is refused, and so is an input that ends inside a number.
decode_long : decode_u32 (128 ∷ 128 ∷ 128 ∷ 128 ∷ 128 ∷ 1 ∷ []) ≡ err parse
unfolding decode_u32
decode_long = refl

decode_cut : decode_u32_list (5 ∷ 172 ∷ []) ≡ err parse
unfolding decode_u32_list
decode_cut = refl

decode_u32_list-ne-internal_example : decode_u32_list (5 ∷ 172 ∷ []) ≢ err internal
decode_u32_list-ne-internal_example = decode_u32_list-ne-internal (5 ∷ 172 ∷ [])

decode_u32_list-encode_u32_list_example :
    decode_u32_list (encode_u32_list (300 ∷ 5 ∷ [])) ≡ ok (300 ∷ 5 ∷ [])
decode_u32_list-encode_u32_list_example =
    decode_u32_list-encode_u32_list (300 ∷ 5 ∷ []) (omega arith)
