-- ===== src/Params/Output.antt =====
-- src/params.c, lines 270 to 354 and 499 to 562: formatted headers, and the text of a response.
-- `snprintf` with no more room than its text and a NUL fails here, as the code takes that for an
-- error.
pub mod Text
pub mod Response
mod Tests
use mcaster1dnas.Base.{
  ℕ, Bool, Bytes, List, Option, [], codes, false, if◌then◌else◌, leb, length, ltb, none, some, suc,
  take, true, zero, ◌%◌, ◌++◌, ◌+◌, ◌-◌, ◌/◌, ◌==◌, ◌∷◌,
}
use mcaster1dnas.Params.Table.{Param, ParamFlags, Params, params_apply, params_clear, pass}
use mcaster1dnas.Params.Http.{Http, known, unset}

-- The loop of `mc_params_printf` and `mc_http_printf` where the formatted text has `n` bytes: the
-- buffer has `size` and one more. It ends with the text (`some true`) or with -1 (`some false`);
-- `none` is out of fuel.
pub printf_loop : ℕ → ℕ → ℕ → Option Bool
printf_loop zero size n = none
printf_loop (suc fuel) size n =
    let again = printf_loop fuel n n in
    if ltb n (size + 1) then some true else if ltb n 8000 then again else some false

-- Whether a text of `n` bytes is short enough; two rounds are always enough.
pub printf_fits : ℕ → Option Bool
unfolding printf_loop
printf_fits n = printf_loop 2 1023 n

-- `mc_params_printf`; `text` is what the format gives, `none` a NULL format. A result of
-- `false` is -1.
unfoldable pub params_printf : Params → Bytes → ParamFlags → Option Bytes → Params × Bool
unfolding printf_fits
params_printf pm name flags none = (pm, false)
params_printf pm name flags (some text) = elim (printf_fits (length text)) [
  | none ↦ (pm, false)
  | some fits ↦
      if fits then (params_apply pm ((name, flags, some text) ∷ []), true) else (pm, false)
]

-- The decimal digits of a number, as `%d` prints it.
pub decimal_from : ℕ → ℕ → Bytes → Bytes
decimal_from zero n acc = acc
decimal_from (suc fuel) n acc =
    let rest = decimal_from fuel (n / 10) ((n % 10 + b'0') ∷ acc) in
    if ltb n 10 then (n + b'0') ∷ acc else rest

unfoldable pub decimal : ℕ → Bytes
unfolding decimal_from
decimal n = decimal_from (n + 1) n []

-- The divider behind a name.
abbrev pub divider : Params → Bytes → Bytes
divider pm [] = []
divider pm (c ∷ n) = pm.entry_div

-- The text of one entry, with the separator where another one follows.
unfoldable pub entry_text : Params → Param → Bool → Bytes
entry_text pm p more =
    p.name ++ (divider pm p.name ++ (p.value ++ (if more then pm.entry_end else [])))

-- `_ice_params_complete` from an entry on, with room for `remain` bytes; `none` is -1.
pub complete_from : Params → ℕ → List Param → Option Bytes
unfolding entry_text
complete_from pm remain [] = some []
complete_from pm remain (p ∷ ps) =
    let text = entry_text pm p (elim ps [ [] ↦ false | _ ∷ _ ↦ true ]) in
    let rest = complete_from pm (remain - length text) ps in
    if leb remain (length text) then none else elim rest [ none ↦ none | some t ↦ some (text ++ t) ]

-- `_ice_params_complete` for a buffer of so many bytes.
unfoldable pub params_complete_in : Params → ℕ → Option Bytes
unfolding complete_from
params_complete_in pm size = complete_from pm size pm.entries

-- `mc_params_complete`: the text that is sent, where the buffer is large enough, and the empty list.
unfoldable pub params_complete : Params → Option (Option Bytes × Params)
unfolding params_complete_in
params_complete pm = elim pm.entries [
  | [] ↦ none
  | p ∷ ps ↦ some (params_complete_in pm (pm.extra_len + pm.len), params_clear pm)
]

abbrev pub blank_line : Bytes
blank_line = 13 ∷ 10 ∷ []

-- The number that `mc_http_complete` announces, if the length is known: what was set, or else
-- the length of the message and of the blocks behind it.
unfoldable pub content_length : Http → ℕ → Option ℕ
content_length h msg_len = elim h.in_length [
  | unset ↦ none
  | known n ↦ some (if n == 0 then msg_len + h.headers.extra_len else n)
]

unfoldable pub with_length : Params → Option ℕ → Params
unfolding decimal
with_length pm none = pm
with_length pm (some n) = (params_printf pm (codes "Content-Length") pass (some (decimal n))).0

-- The headers of a response with those that `mc_http_complete` adds: the length and a blank line.
unfoldable pub final_headers : Http → ℕ → Params
unfolding content_length with_length
final_headers h msg_len =
    params_apply (with_length h.headers (content_length h msg_len))
      (([], pass, some blank_line) ∷ [])

-- `mc_http_complete`, where the client is set: the first buffer of the response, or -1.
unfoldable pub http_complete : Http → Option Bytes
unfolding final_headers params_complete_in
http_complete h = elim h.headers.entries [
  | [] ↦ none
  | p ∷ ps ↦
      let msg : Bytes = elim h.msg [ none ↦ [] | some m ↦ m ] in
      let pm = final_headers h (length msg) in
      let room = length msg + pm.len in
      elim (params_complete_in pm room) [
        | none ↦ none
        | some text ↦ some (text ++ take (room - length text - 1) msg)
      ]
]
