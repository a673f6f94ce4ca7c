-- ===== src/Params/Output/Response.antt =====
-- The text of a response: mc_http_complete always gives all headers and the whole message.
use mcaster1dnas.Params.Output.Text.{text_of, complete_from-room, length-text_of}
use mcaster1dnas.Params.Http.{Http}
use mcaster1dnas.Params.Table.Size.{HasRoom, added_size, old_len-le, store-HasRoom, text_size}
use mcaster1dnas.Params.Table.{
  apply_plain, u32, Params, find_entry, pass, refuses, store, stored_value, ParamFlags, keeps,
  old_len, Param, params_apply,
}
use mcaster1dnas.Params.Output.{
  decimal, printf_fits, decimal_from, printf_loop, blank_line, complete_from, content_length,
  final_headers, http_complete, params_complete_in, params_printf, with_length,
}
use native.Mathlib.Nat.{pow-suc}
use mcaster1dnas.Base.{
  ℕ, Bool-cases, Bytes, [], arith, false, inl, inr, length, ltb, refl, some, suc, true, zero, ◌%◌,
  ◌+◌, ◌-◌, ◌/◌, ◌<◌, ◌^◌, ◌∷◌, ◌≡◌, ◌≤◌, Option, not, ◌&&◌, ◌||◌, List, ap, codes, none, take,
  ◌++◌, ◌∙◌,
}

params_printf-short :
    (pm : Params) (name : Bytes) (flags : ParamFlags) (t : Bytes)
    → length t < 8000
    → params_printf pm name flags (some t) ≡ (params_apply pm ((name, flags, some t) ∷ []), true)
unfolding params_printf printf_fits printf_loop
params_printf-short pm name flags t h = ground arith

decimal_from-length :
    (fuel n k : ℕ) (acc : Bytes)
    → n < 10 ^ k
    → length (decimal_from fuel n acc) ≤ length acc + k + 1
unfolding decimal_from
decimal_from-length zero n k acc h = omega arith
decimal_from-length (suc fuel) n zero acc h = ground arith
decimal_from-length (suc fuel) n (suc k) acc h = elim (Bool-cases (ltb n 10)) [
  | inl e ↦ rw e (omega arith)
  | inr e ↦
      let small : n / 10 < 10 ^ k = omega (arith, pow-suc 10 k) in
      rw e (omega (arith, decimal_from-length fuel (n / 10) k ((n % 10 + b'0') ∷ acc) small))
]

decimal-short : (n : ℕ) → n < 2 ^ 64 → length (decimal n) ≤ 21
unfolding decimal
decimal-short n h =
    let small : n < 10 ^ 20 = omega arith in
    omega (arith, decimal_from-length (n + 1) n 20 [] small)

-- What a header may change: the length grows by its text at most.
pub record Grows (pm qm : Params) (by_size : ℕ) : Type 0 where
  pub len_le : qm.len ≤ pm.len + by_size
  pub same_escape : qm.escaped ≡ pm.escaped
  pub same_end : qm.entry_end ≡ pm.entry_end
  pub same_div : qm.entry_div ≡ pm.entry_div

len-bound :
    (len old added : ℕ)
    → old ≤ len
    → len + added < u32
    → ((len + u32 - old) % u32 + added) % u32 ≤ len + added
len-bound len old added h k = omega arith

store-Grows :
    (pm : Params) (name : Bytes) (flags : ParamFlags) (value : Option Bytes) (t : Bytes)
    → stored_value (not flags.verbatim && (pm.escaped || flags.esc)) value keeps ≡ t
    → HasRoom pm
    → pm.len + added_size pm name t < u32
    → Grows pm (store pm name flags value keeps) (added_size pm name t)
unfolding store
store-Grows pm name flags value t e r h = record {
  len_le = rw e (
      len-bound pm.len (old_len (find_entry name pm.entries)) (added_size pm name t)
        (omega (arith, r.room, old_len-le (text_size pm) name pm.entries r.counted)) h);
  same_escape = refl;
  same_end = refl;
  same_div = refl;
}

stored_plain :
    (pm : Params) (v : Bytes)
    → pm.escaped ≡ false
    → stored_value (not pass.verbatim && (pm.escaped || pass.esc)) (some v) keeps ≡ v
unfolding stored_value
stored_plain pm v e = rw e

apply_plain-Grows :
    (pm : Params) (name v : Bytes)
    → HasRoom pm
    → pm.escaped ≡ false
    → pm.len + added_size pm name v < u32
    → HasRoom (apply_plain pm name pass (some v)).0
      × Grows pm (apply_plain pm name pass (some v)).0 (added_size pm name v)
unfolding apply_plain
apply_plain-Grows pm name v r e h =
    let bound : pm.len
          + added_size pm name
              (stored_value (not pass.verbatim && (pm.escaped || pass.esc)) (some v) keeps)
        < u32 =
      rw (stored_plain pm v e) h in
    elim (Bool-cases (refuses (find_entry name pm.entries))) [
      | inl f ↦
          rw f (
            r,
            record { len_le = omega arith; same_escape = refl; same_end = refl; same_div = refl },
          )
      | inr f ↦ rw f (
        store-HasRoom pm name pass (some v) keeps r bound,
        store-Grows pm name pass (some v) v (stored_plain pm v e) r h,
      )
    ]

-- A list of headers for a response, as `mc_http_setup_flags` makes it, with no wrap in sight.
pub record IsResponse (pm : Params) : Type 0 where
  pub has_room : HasRoom pm
  pub no_escape : pm.escaped ≡ false
  pub short_marks : length pm.entry_div + length pm.entry_end ≤ 6
  pub below : pm.len + 64 < u32

-- The list with the length header, or without.
record IsLonger (pm qm : Params) : Type 0 where
  has_room : HasRoom qm
  grows : Grows pm qm 41

with_length-IsLonger :
    (pm : Params) (n : Option ℕ)
    → ((k : ℕ) → n ≡ some k → k < 2 ^ 64)
    → IsResponse pm
    → IsLonger pm (with_length pm n)
unfolding with_length params_apply
with_length-IsLonger pm none b s = record {
  has_room = s.has_room;
  grows = record { len_le = omega arith; same_escape = refl; same_end = refl; same_div = refl };
}
with_length-IsLonger pm (some n) b s =
    let short : length (decimal n) ≤ 21 = decimal-short n (b n refl) in
    let size : added_size pm (codes "Content-Length") (decimal n) ≤ 41 =
      omega (arith, s.short_marks, short) in
    let (room, g) =
      apply_plain-Grows pm (codes "Content-Length") (decimal n) s.has_room s.no_escape
        (omega (arith, s.below, size)) in
    rw
      (
        params_printf-short pm (codes "Content-Length") pass (decimal n) (omega (arith, short)),
        with_length,
      )
      (record {
        has_room = room;
        grows = record {
          len_le = omega (arith, g.len_le, size);
          same_escape = g.same_escape;
          same_end = g.same_end;
          same_div = g.same_div;
        };
      })

final_headers-HasRoom :
    (h : Http) (msg_len : ℕ)
    → ((k : ℕ) → content_length h msg_len ≡ some k → k < 2 ^ 64)
    → IsResponse h.headers
    → HasRoom (final_headers h msg_len)
unfolding final_headers params_apply
final_headers-HasRoom h msg_len b s =
    let l = with_length-IsLonger h.headers (content_length h msg_len) b s in
    (apply_plain-Grows (with_length h.headers (content_length h msg_len)) [] blank_line l.has_room
      (l.grows.same_escape ∙ s.no_escape)
      (omega (arith, l.grows.len_le, s.below, s.short_marks, ap length l.grows.same_end))).0

take-all : (k : ℕ) (s : Bytes) → length s ≤ k → take k s ≡ s
take-all zero [] h = refl
take-all zero (x ∷ s) h = absurd (omega arith)
take-all (suc k) [] h = refl
take-all (suc k) (x ∷ s) h = ap (λ t. x ∷ t) (take-all k s (omega arith))

abbrev pub message : Http → Bytes
message h = elim h.msg [ none ↦ [] | some m ↦ m ]

-- `mc_http_complete` never fails for want of room: it sends the text of all headers, those that it
-- adds included, and then the whole message.
pub http_complete-text :
    (h : Http) (p : Param) (ps : List Param)
    → h.headers.entries ≡ p ∷ ps
    → IsResponse h.headers
    → ((k : ℕ) → content_length h (length (message h)) ≡ some k → k < 2 ^ 64)
    → http_complete h
      ≡ some (
          text_of
            (final_headers h (length (message h)))
            (final_headers h (length (message h))).entries
          ++ message h)
unfolding http_complete params_complete_in
http_complete-text h p ps e s b =
    let pm : Params = final_headers h (length (message h)) in
    let r : HasRoom pm = final_headers-HasRoom h (length (message h)) b s in
    let full : complete_from pm (length (message h) + pm.len) pm.entries
        ≡ some (text_of pm pm.entries) =
      complete_from-room pm (length (message h) + pm.len) pm.entries (omega (arith, r.room)) in
    let kept : take (length (message h) + pm.len - length (text_of pm pm.entries) - 1) (message h)
        ≡ message h =
      take-all _ (message h) (omega (arith, r.room, length-text_of pm pm.entries)) in
    ground (arith, e, full, kept)
