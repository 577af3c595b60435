-- ===== src/Tests/UrlText.antt =====
-- `url_encode` and `url_decode` on concrete texts.
use network_programming_lab.Prelude.{◌≡◌, refl, arith, some, none, Bytes, codes}
use network_programming_lab.Url.{
  url_encode, encode_from, encode_byte, url_decode, is_xdigit, hex_value,
}
use network_programming_lab.Url.RoundTrip.{url_decode-url_encode, IsEncoded, url_encode-IsEncoded}

abbrev file_name : Bytes
file_name = codes "my file+1%.txt"

encodes : url_encode 512 file_name ≡ some (codes "my%20file%2B1%25.txt")
unfolding url_encode encode_from encode_byte
encodes = refl

decodes : url_decode (codes "a+b%2fc%zz%") ≡ codes "a b/c%zz%"
unfolding url_decode is_xdigit hex_value
decodes = refl

-- With ten bytes the encoder stops in front of the second escape.
truncates : url_encode 10 (codes "a b c d") ≡ some (codes "a%20b%20")
unfolding url_encode encode_from encode_byte
truncates = refl

url_decode-url_encode_example :
    (text : Bytes) × (url_encode 512 file_name ≡ some text) × (url_decode text ≡ file_name)
url_decode-url_encode_example =
    url_decode-url_encode 512 file_name (omega arith) (omega arith) (omega arith)

-- With three bytes nothing stops the loop.
writes_on : url_encode 3 (codes "abc") ≡ none
unfolding url_encode encode_from encode_byte
writes_on = refl

url_encode-IsEncoded_example : IsEncoded 10 file_name (url_encode 10 file_name)
url_encode-IsEncoded_example = url_encode-IsEncoded 10 file_name (omega arith) (omega arith)
