-- ===== src/Params/Http/Cors.antt =====
-- The CORS headers of src/params.c: what `_send_cors_hdr` lets into a response.
use mcaster1dnas.Base.{
  All, Bool, Bool-cases, Bytes, List, Option, Option-cases, [], arith, false, inl, inr, none, refl,
  some, true, ◌∷◌, ◌≡◌, ◌≢◌, codes, if◌then◌else◌, str_eq, ap, ◌∙◌,
}
use mcaster1dnas.Params.Table.{
  find_entry, refuses, pass, keeps, same_name, sets, store, stored_value,
}
use mcaster1dnas.Params.Table.Update.{value_of, find_entry-store_other, find_entry-store_plain}
use mcaster1dnas.Params.Http.{
  Http, Header, answered, apply_one, call, cors, http_apply, allow_credentials, allow_origin,
  cors_hdr, star,
}

-- A named header whose callback is `_send_cors_hdr`.
abbrev pub IsCors : Header → Type 0
IsCors hdr = (hdr.callback ≡ some cors) × (hdr.name ≢ none)

apply_one-no_origin :
    (now : Option Bytes) (h : Http) (name : Bytes) (hdr : Header)
    → h.in_origin ≡ none
    → hdr.callback ≡ some cors
    → (done : Bool) × (apply_one now h name hdr ≡ some (h, done))
unfolding apply_one call answered
apply_one-no_origin now h name hdr o c =
    elim (Bool-cases (refuses (find_entry name h.headers.entries))) [
      | inl e ↦ (false, rw (c, e))
      | inr e ↦ (true, ground arith)
    ]

-- Where the request has no `Origin`, no header with the CORS callback changes the response.
pub http_apply-no_origin :
    (now : Option Bytes) (h : Http) (hs : List Header)
    → h.in_origin ≡ none
    → All IsCors hs
    → http_apply now h hs ≡ some (h, true)
unfolding http_apply
http_apply-no_origin now h [] o a = refl
http_apply-no_origin now h (hdr ∷ hs) o a = elim (Option-cases hdr.name) [
  | inl e ↦ absurd (a.0.1 e)
  | inr (name, e) ↦
      let (done, f) = apply_one-no_origin now h name hdr o a.0.0 in
      rw (e, f, http_apply) (http_apply-no_origin now h hs o a.1)
]

abbrev pub origin_header : Header
origin_header = record {
  name = some allow_origin;
  value = some star;
  flags = pass;
  callback = some cors;
}

abbrev pub credentials_header : Header
credentials_header = record {
  name = some allow_credentials;
  value = some (codes "true");
  flags = pass;
  callback = some cors;
}

names_apart : same_name allow_origin allow_credentials ≡ false
unfolding same_name
names_apart = refl

names_apart' : same_name allow_credentials allow_origin ≡ false
unfolding same_name
names_apart' = refl

module _ (now : Option Bytes) (h : Http) (o : Bytes) (e : h.in_origin ≡ some o) where
  abbrev with_origin : Http
  with_origin = record h {
    wildcard_origin = str_eq o star;
    headers = store h.headers allow_origin pass (some star) (sets (some o));
  }

  apply_one-origin :
      find_entry allow_origin h.headers.entries ≡ none
      → apply_one now h allow_origin origin_header ≡ some (with_origin, true)
  unfolding apply_one call answered cors_hdr same_name
  apply_one-origin p = rw p (ground arith)

  abbrev with_credentials : Http
  with_credentials = record with_origin {
    headers = store with_origin.headers allow_credentials pass (some (codes "true")) keeps;
  }

  credentials_free :
      find_entry allow_credentials h.headers.entries ≡ none
      → find_entry allow_credentials with_origin.headers.entries ≡ none
  credentials_free q =
      find_entry-store_other h.headers allow_origin allow_credentials pass _ _ names_apart ∙ q

  apply_one-credentials :
      find_entry allow_credentials h.headers.entries ≡ none
      → apply_one now with_origin allow_credentials credentials_header
        ≡ some (if str_eq o star then (with_origin, false) else (with_credentials, true))
  unfolding apply_one call answered cors_hdr same_name
  apply_one-credentials q = elim (Bool-cases (str_eq o star)) [
    | inl s ↦ rw (credentials_free q) (ground arith)
    | inr s ↦ rw (credentials_free q) (ground arith)
  ]

  origin_value :
      h.headers.escaped ≡ false
      → value_of (find_entry allow_origin with_origin.headers.entries) ≡ some o
  unfolding stored_value
  origin_value plain = find_entry-store_plain h.headers _ _ (some star) (sets (some o)) plain

  origin_value_after :
      h.headers.escaped ≡ false
      → value_of (find_entry allow_origin with_credentials.headers.entries) ≡ some o
  origin_value_after plain =
      ap value_of (
        find_entry-store_other with_origin.headers allow_credentials allow_origin pass
          (some (codes "true")) keeps names_apart')
      ∙ origin_value plain

  credentials_value :
      h.headers.escaped ≡ false
      → value_of (find_entry allow_credentials with_credentials.headers.entries)
        ≡ some (codes "true")
  unfolding stored_value
  credentials_value plain =
      find_entry-store_plain with_origin.headers _ _ (some (codes "true")) keeps
        (unfold store in plain)

-- With the default CORS headers a request from `o` is answered with `o` itself as the allowed
-- origin, never with `*` unless `o` is `*`; and credentials are allowed exactly when `o` is not
-- `*`. The response holds neither header before.
pub http_apply-origin :
    (now : Option Bytes) (h : Http) (o : Bytes)
    → h.in_origin ≡ some o
    → h.headers.escaped ≡ false
    → find_entry allow_origin h.headers.entries ≡ none
    → find_entry allow_credentials h.headers.entries ≡ none
    → (g : Http) × (http_apply now h (origin_header ∷ credentials_header ∷ []) ≡ some (g, true))
      × (value_of (find_entry allow_origin g.headers.entries) ≡ some o)
      × (value_of (find_entry allow_credentials g.headers.entries)
          ≡ (if str_eq o star then none else some (codes "true")))
unfolding http_apply
http_apply-origin now h o e plain p q = elim (Bool-cases (str_eq o star)) [
  | inl s ↦ (
    with_origin now h o e,
    rw (apply_one-origin now h o e p, apply_one-credentials now h o e q, s, http_apply),
    origin_value now h o e plain,
    ap value_of (credentials_free now h o e q) ∙ rw s,
  )
  | inr s ↦ (
    with_credentials now h o e,
    rw (apply_one-origin now h o e p, apply_one-credentials now h o e q, s, http_apply),
    origin_value_after now h o e plain,
    credentials_value now h o e plain ∙ rw s,
  )
]
