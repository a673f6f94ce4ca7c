-- ===== src/Util/Pattern.antt =====
-- src/util.c, lines 1246 to 1295: the expansion of `${mount}` in a pattern. A buffer is measured by
-- the list of the bytes that are written to it, the final NUL left out.
pub mod Expansion
mod Tests
use mcaster1dnas.Base.{
  ℕ, Bytes, Option, [], codes, if◌then◌else◌, leb, length, ltb, none, some, str_eq, suc, take, zero,
  ◌++◌, ◌-◌, ◌==◌, ◌||◌, ◌∷◌,
}

-- What follows `${mount}` at the start of a pattern, if it stands there.
pub after_tag : Bytes → Option Bytes
after_tag (a ∷ b ∷ c ∷ d ∷ e ∷ f ∷ g ∷ h ∷ p) =
    if str_eq (a ∷ b ∷ c ∷ d ∷ e ∷ f ∷ g ∷ h ∷ []) (codes "${mount}") then some p else none
after_tag _ = none

-- The loop: `room` is `max - i`, or 0 from `max` on. Its fuel is the length of the pattern.
pub expand_loop : ℕ → ℕ → Bytes → Bytes → Bytes
unfolding after_tag
expand_loop zero room mnt p = []
expand_loop (suc fuel) zero mnt p = []
expand_loop (suc fuel) (suc room) mnt [] = []
expand_loop (suc fuel) (suc room) mnt (c ∷ p) =
    let copied = expand_loop fuel room mnt p in
    elim (after_tag (c ∷ p)) [
      | none ↦ c ∷ copied
      | some rest ↦ mnt ++ expand_loop fuel (suc room - length mnt) mnt rest
    ]

abbrev pub without_slash : Bytes → Bytes
without_slash [] = []
without_slash (c ∷ m) = if c == b'/' then m else c ∷ m

-- `snprintf (buf, size, "%s", s)`, with the length that it returns, for a size above 0; -1 for the
-- empty string.
abbrev pub print_alone : Bytes → ℕ → Option (Bytes × ℕ)
print_alone [] size = none
print_alone (c ∷ s) size = some (take (size - 1) (c ∷ s), length (c ∷ s))

-- `util_expand_pattern` with a buffer of `size` bytes, above 0: what is written, and the length
-- that is returned in `*len_p`. With two NULL pointers `snprintf` prints "(null)".
pub expand_pattern : Option Bytes → Option Bytes → ℕ → Option (Bytes × ℕ)
unfolding expand_loop
expand_pattern none none size = print_alone (codes "(null)") size
expand_pattern none (some p) size = print_alone p size
expand_pattern (some m) none size = print_alone m size
expand_pattern (some m) (some p) size =
    let text = expand_loop (length p) (size - 1) (without_slash m) p in
    if ltb (length m) 1 || leb (size - 1) (length m) then none else some (text, length text)
