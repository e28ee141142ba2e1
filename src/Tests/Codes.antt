-- ===== src/Tests/Codes.antt =====
-- nsd/uuencode.c at small inputs.
use anansi.Common.{◌≡◌, refl, [], ◌∷◌, Bytes, arith}
use anansi.Base64
use anansi.Base64.{encode, decode}
use anansi.Base64.RoundTrip.{decode-encode}

-- "any!"
abbrev text : Bytes
text = 97 ∷ 110 ∷ 121 ∷ 33 ∷ []

-- "YW55IQ=="
encode-text : encode text ≡ 89 ∷ 87 ∷ 53 ∷ 53 ∷ 73 ∷ 81 ∷ 61 ∷ 61 ∷ []
unfolding encode Base64.encode_from Base64.quad Base64.six2pr
encode-text = refl

decode-encode_example : decode (encode text) ≡ text
decode-encode_example =
    decode-encode text (omega arith, (omega arith, (omega arith, (omega arith, tt))))
