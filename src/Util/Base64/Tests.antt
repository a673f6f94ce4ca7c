-- ===== src/Util/Base64/Tests.antt =====
-- Runs of the base64 functions, and instances of their theorems.
use mcaster1dnas.Util.Base64.RoundTrip.{base64_decode-base64_encode}
use mcaster1dnas.Base.{[], codes, none, refl, some, ◌∷◌, ◌≡◌, Bytes, arith}
use mcaster1dnas.Util.Base64.{base64_encode, base64_decode, bin_to_hex}

encode_user : base64_encode (codes "source:hackme") ≡ codes "c291cmNlOmhhY2ttZQ=="
unfolding base64_encode
encode_user = refl

decode_user : base64_decode (codes "c291cmNlOmhhY2ttZQ==") ≡ some (codes "source:hackme")
unfolding base64_decode
decode_user = refl

decode_short : base64_decode (codes "c29") ≡ none
unfolding base64_decode
decode_short = refl

hex_of : bin_to_hex (1 ∷ 0xfe ∷ []) ≡ codes "01fe"
unfolding bin_to_hex
hex_of = refl

abbrev user : Bytes
user = codes "source:hackme"

base64_decode-base64_encode_example : base64_decode (base64_encode user) ≡ some user
base64_decode-base64_encode_example = base64_decode-base64_encode user (omega arith)
