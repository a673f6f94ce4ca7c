-- ===== src/Util/Uri/Tests.antt =====
-- Runs of the functions of src/util.c on URIs, and instances of their theorems.
use mcaster1dnas.Util.Uri.Escape.{url_unescape-url_escape, IsPrintable}
use mcaster1dnas.Util.Uri.Verify.{Traverses, verify_path_iff}
use mcaster1dnas.Util.Uri.Normalise.{first_byte, normalise_uri-IsSafe}
use mcaster1dnas.Base.{◌≡◌, refl, some, none, codes, All, Bytes, [], arith, false, true, ◌↔◌, ◌≢◌}
use mcaster1dnas.Util.Uri.{url_escape, url_unescape, normalise_uri, has_double, verify_path}

escape_space : url_escape (some (codes "a b/c")) ≡ codes "a%20b%2fc"
unfolding url_escape
escape_space = refl

unescape_space : url_unescape (codes "a%20b%2Fc%0a%") ≡ codes "a b/c%0a%"
unfolding url_unescape
unescape_space = refl

normalise_keeps : normalise_uri (codes "/a/b%20c") ≡ some (codes "/a/b c")
unfolding normalise_uri
normalise_keeps = refl

normalise_dots : normalise_uri (codes "/a/%2e%2e/b") ≡ none
unfolding normalise_uri
normalise_dots = refl

normalise_double : normalise_uri (codes "/admin//x") ≡ some (codes "/x")
unfolding normalise_uri
normalise_double = refl

abbrev plain_text : Bytes
plain_text = codes "a b/c"

plain_text-IsPrintable : All IsPrintable plain_text
plain_text-IsPrintable = omega arith

url_unescape-url_escape_example : url_unescape (url_escape (some plain_text)) ≡ plain_text
url_unescape-url_escape_example = url_unescape-url_escape plain_text plain_text-IsPrintable

verify_path_iff_example :
    (verify_path (codes "/a/../b") ≡ true)
    ↔ ((codes "/a/../b" ≢ []) × ¬ Traverses (codes "/a/../b"))
verify_path_iff_example = verify_path_iff (codes "/a/../b")

normalise_uri-IsSafe_example :
    (first_byte (codes "/a/b c") ≡ some b'/')
    × (has_double (codes "/a/b c") ≡ false)
    × ¬ Traverses (codes "/a/b c")
unfolding normalise_uri
normalise_uri-IsSafe_example = normalise_uri-IsSafe (codes "/a/b%20c") (codes "/a/b c") refl
