-- ===== src/Params/Http.antt =====
-- src/params.c, lines 39 to 105, 203 to 267 and 357 to 391: the headers of one response, with the
-- callbacks that fill some of them in from the request.
pub mod Cors
pub mod Keep
mod Tests
use mcaster1dnas.Base.{
  ℕ, Bool, Bytes, List, Option, [], codes, false, if◌then◌else◌, length, none, not, some, str_eq,
  true, ◌%◌, ◌&&◌, ◌*◌, ◌++◌, ◌+◌, ◌==◌, ◌∷◌,
}
use mcaster1dnas.Params.Table.{
  Answer, ParamFlags, Params, apply_plain, find_entry, keeps, refuses, same_name, sets, store, u32,
}

-- The entries of `default_headers` that have a callback.
pub data Callback : Type 0 where
  date server connection cors : Callback

-- A header to be applied; `none` is a NULL pointer.
pub record Header : Type 0 where
  pub name : Option Bytes
  pub value : Option Bytes
  pub flags : ParamFlags
  pub callback : Option Callback

-- `in_length`, an `off_t` that is -1 where it is not set.
pub data Length : Type 0 where
  unset : Length
  known : ℕ → Length

-- `mc_http_t`, with what its functions use of the client: its keep-alive flag, its response code
-- and its chain of buffers.
pub record Http : Type 0 where
  pub headers : Params
  pub respcode : Bytes
  pub in_major : ℕ
  pub in_minor : ℕ
  pub in_length : Length
  pub msg : Option Bytes
  pub in_connection : Option Bytes
  pub in_origin : Option Bytes
  pub wildcard_origin : Bool
  pub keepalive : Bool
  pub buffers : List Bytes

-- A callback's result: the state, whether it returned 0, and what it left as the value.
pub record Called : Type 0 where
  pub http : Http
  pub succeeds : Bool
  pub answer : Answer

-- `in_length >= 0`
unfoldable pub is_known : Length → Bool
is_known unset = false
is_known (known n) = true

-- Whether the request has a `Connection: keep-alive`.
unfoldable pub asks_keepalive : Option Bytes → Bool
unfolding same_name
asks_keepalive none = false
asks_keepalive (some c) = same_name c (codes "keep-alive")

-- Whether `_connection_hdr` keeps the connection.
unfoldable pub keeps_alive : Http → Bool
unfolding is_known asks_keepalive
keeps_alive h =
    (h.in_major == 1) && (h.in_minor == 1) && is_known h.in_length && asks_keepalive h.in_connection

-- `_connection_hdr`
pub connection_hdr : Http → Called
unfolding keeps_alive
connection_hdr h =
    if keeps_alive h
    then record {
      http = record h { keepalive = true };
      succeeds = true;
      answer = sets (some (codes "keep-alive"));
    }
    else record { http = record h { keepalive = false }; succeeds = true; answer = sets none }

abbrev pub allow_origin : Bytes
allow_origin = codes "Access-Control-Allow-Origin"

abbrev pub allow_credentials : Bytes
allow_credentials = codes "Access-Control-Allow-Credentials"

abbrev pub star : Bytes
star = codes "*"

-- `_send_cors_hdr` where the request has an origin; `none` is `strcmp` of a NULL pointer.
pub cors_hdr : Http → Bytes → Bytes → Option Bytes → Option Called
unfolding same_name
cors_hdr h origin name value =
    if same_name name allow_origin
    then elim value [
      | none ↦ none
      | some v ↦
          let sent : Bytes = if str_eq v star then origin else v in
          some (record {
            http = record h { wildcard_origin = str_eq sent star };
            succeeds = true;
            answer = if str_eq v star then sets (some origin) else keeps;
          })
    ]
    else some (record {
      http = h;
      succeeds = not (same_name name allow_credentials && h.wildcard_origin);
      answer = keeps;
    })

-- A call of a callback. `now` is the text of the date, if the clock gives one.
pub call : Callback → Option Bytes → Http → Bytes → Option Bytes → Option Called
unfolding connection_hdr cors_hdr
call date now h name value = elim now [
  | none ↦ some (record { http = h; succeeds = false; answer = keeps })
  | some d ↦ some (record { http = h; succeeds = true; answer = sets (some d) })
]
call server now h name value =
    some (record { http = h; succeeds = true; answer = sets (some (codes "Mcaster1DNAS")) })
call connection now h name value = some (connection_hdr h)
call cors now h name value = elim h.in_origin [
  | none ↦ some (record { http = h; succeeds = false; answer = sets none })
  | some origin ↦ cors_hdr h origin name value
]

-- Whether a callback left no value.
abbrev pub left_none : Option Bytes → Answer → Bool
left_none none keeps = true
left_none (some v) keeps = false
left_none value (sets none) = true
left_none value (sets (some t)) = false

-- The end of `_ice_params_apply` after the callback: its failure leaves the list as it was, and
-- counts as success where it left no value.
pub answered : Bytes → ParamFlags → Option Bytes → Called → Http × Bool
answered name flags value c =
    if c.succeeds
    then (record c.http { headers = store c.http.headers name flags value c.answer }, true)
    else (c.http, left_none value c.answer)

-- `_ice_params_apply` on the headers of a response.
unfoldable pub apply_one : Option Bytes → Http → Bytes → Header → Option (Http × Bool)
unfolding call answered
apply_one now h name hdr = elim hdr.callback [
  | none ↦
      let (pm, done) = apply_plain h.headers name hdr.flags hdr.value in
      some (record h { headers = pm }, done)
  | some cb ↦
      if refuses (find_entry name h.headers.entries)
      then some (h, false)
      else elim (call cb now h name hdr.value) [
        | none ↦ none
        | some c ↦ some (answered name hdr.flags hdr.value c)
      ]
]

-- `mc_http_apply` on a list of headers: the state, and whether it returns 0.
unfoldable pub http_apply : Option Bytes → Http → List Header → Option (Http × Bool)
unfolding apply_one
http_apply now h [] = some (h, true)
http_apply now h (hdr ∷ hs) = elim hdr.name [
  | none ↦ elim hdr.value [
    | none ↦ some (h, false)
    | some v ↦ http_apply now (record h { msg = some v }) hs
  ]
  | some name ↦ elim (apply_one now h name hdr) [
    | none ↦ none
    | some (h', done) ↦ http_apply now h' hs
  ]
]

-- `mc_http_apply_cfg`; `matches` is `fnmatch` of a pattern of response codes.
unfoldable pub apply_cfg :
    (Bytes → Bytes → Bool) → Option Bytes → Http → List (Bytes × Bytes × Header) → Option Http
unfolding apply_one
apply_cfg matches now h [] = some h
apply_cfg matches now h ((pattern', name, hdr) ∷ hs) =
    let rest = apply_cfg matches now h hs in
    if matches h.respcode pattern'
    then elim (apply_one now h name hdr) [
      | none ↦ none
      | some (h', done) ↦ apply_cfg matches now h' hs
    ]
    else rest

-- `mc_http_apply_block` for a buffer; `extra_len` is a `uint32_t`.
unfoldable pub apply_block : Http → Bytes → Http × ℕ
apply_block h block =
    let extra = (h.headers.extra_len + length block) % u32 in
    (
      record h {
        headers = record (h.headers) { extra_len = extra };
        buffers = h.buffers ++ block ∷ [];
        in_length = elim h.in_length [
          | unset ↦ unset
          | known n ↦ if n == 0 then unset else known n
        ];
      },
      extra,
    )

-- `mc_http_status_lookup`
unfoldable pub status_lookup : ℕ → ℕ × Bytes
status_lookup status =
    if status == 100
    then (100, codes "Continue")
    else if status == 200
    then (200, codes "OK")
    else if status == 204
    then (204, codes "No Content")
    else if status == 206
    then (206, codes "Partial Content")
    else if status == 302
    then (302, codes "Found")
    else if status == 401
    then (401, codes "Authentication Required")
    else if status == 403
    then (403, codes "Forbidden")
    else if status == 404
    then (404, codes "File Not Found")
    else if status == 416
    then (416, codes "Request Range Not Satisfiable")
    else if status == 501
    then (501, codes "Not Implemented")
    else (400, codes "Bad Request")
