-- ===== src/Base64/Tests.antt =====
-- Runs of the Base64 loops.
use alkaidlab_fw.Base.{◌≡◌, refl, ◌≢◌, arith, Bytes, codes, All}
use alkaidlab_fw.Base64.{base64_encode, base64_decode, symbol_at, decode_char, decode_group}
use alkaidlab_fw.Base64.RoundTrip.{decode-encode, encode-no_dollar}

abbrev greeting : Bytes
greeting = codes "Hello, World"

encode_runs : base64_encode (codes "Ma") ≡ codes "TWE="
unfolding base64_encode symbol_at
encode_runs = refl

decode_runs : base64_decode (codes "TWE=TWFu") ≡ codes "MaMan"
unfolding base64_decode decode_char decode_group
decode_runs = refl

-- A character outside the alphabet in front of a group ends the decoding.
decode_stops : base64_decode (codes "TWFu*WFu") ≡ codes "Man"
unfolding base64_decode decode_char decode_group
decode_stops = refl

decode-encode_example : base64_decode (base64_encode greeting) ≡ greeting
decode-encode_example = decode-encode greeting (omega arith)

encode-no_dollar_run : All (λ c. c ≢ b'$') (base64_encode greeting)
encode-no_dollar_run = encode-no_dollar greeting (omega arith)
