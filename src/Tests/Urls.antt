-- ===== src/Tests/Urls.antt =====
-- nsd/urlencode.c at small inputs.
use anansi.Common.{◌≡◌, refl, none, [], ◌∷◌, arith, Bytes}
use anansi.UrlEncode.{
  query, path, is_literal, hex_digit, encode_byte, encode_from, url_encode, plain, decode_from,
  url_decode,
}
use anansi.UrlEncode.RoundTrip.{url_decode-url_encode}

-- "a b/"
abbrev segment : Bytes
segment = b'a' ∷ 32 ∷ b'b' ∷ b'/' ∷ []

-- "a+b%2f"
url_encode-segment : url_encode [] segment none query ≡ b'a' ∷ b'+' ∷ b'b' ∷ b'%' ∷ b'2' ∷ b'f' ∷ []
unfolding url_encode encode_from encode_byte is_literal hex_digit
url_encode-segment = refl

-- The string "xy" with "ab": the end is lost.
url_decode-cut : url_decode (b'x' ∷ b'y' ∷ []) (b'a' ∷ b'b' ∷ []) none query ≡ b'x' ∷ b'y' ∷ []
unfolding url_decode decode_from plain
url_decode-cut = refl

url_decode-url_encode_example : url_decode [] (url_encode [] segment none path) none path ≡ segment
url_decode-url_encode_example =
    url_decode-url_encode path segment
      (omega arith, (omega arith, (omega arith, (omega arith, tt))))
