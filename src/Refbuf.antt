-- ===== src/Refbuf.antt =====
-- src/refbuf.c and src/refbuf.h: buffers that are counted by their references. The heap is a list,
-- an address an index of it, and `none` stands there when the buffer was freed. An access to such a
-- place gives `none` as the result. Allocations succeed, and what they contain is an argument.
pub mod Chain
pub mod Release
pub mod Copies
mod Tests
use mcaster1dnas.Base.{
  ℕ, Bytes, List, Option, [], drop, get_elem?, if◌then◌else◌, leb, length, ltb, none, set, some,
  suc, take, zero, ◌%◌, ◌++◌, ◌+◌, ◌-◌, ◌==◌, ◌∷◌,
}

-- `refbuf_t`. `memory` is `data`, what was allocated for it, of which `len` bytes are in use.
pub record Refbuf : Type 0 where
  pub flags : ℕ
  pub count : ℕ
  pub next : Option ℕ
  pub associated : Option ℕ
  pub memory : Bytes
  pub len : ℕ

abbrev pub Heap : Type 0
Heap = List (Option Refbuf)

abbrev pub flat : Option (Option Refbuf) → Option Refbuf
flat none = none
flat (some c) = c

abbrev pub load : Heap → ℕ → Option Refbuf
load h a = flat (get_elem? h a)

abbrev pub save : Heap → ℕ → Refbuf → Heap
save h a b = set h a (some b)

abbrev pub fresh : Bytes → Refbuf
fresh m = record {
  flags = 0;
  count = 1;
  next = none;
  associated = none;
  memory = m;
  len = length m;
}

-- `refbuf_new`, for memory of the size asked for.
unfoldable pub refbuf_new : Heap → Bytes → Heap × ℕ
refbuf_new h m = (h ++ (some (fresh m) ∷ []), length h)

-- `refbuf_addref`
unfoldable pub refbuf_addref : Heap → Option ℕ → Option Heap
refbuf_addref h none = some h
refbuf_addref h (some a) = elim (load h a) [
  | none ↦ none
  | some b ↦ some (save h a (record b { count = (b.count + 1) % 4294967296 }))
]

-- One reference less.
abbrev pub less : Refbuf → Refbuf
less b = record b { count = (b.count + 4294967295) % 4294967296 }

-- What `refbuf_release_associated` does to a buffer before it releases it.
abbrev pub unlink : Refbuf → Refbuf
unlink b = if b.count == 1 then record b { next = none } else b

-- The buffer itself is freed.
abbrev pub freed : ℕ → Option Heap → Option Heap
freed a none = none
freed a (some h) = some (set h a none)

unfoldable mutual
  -- `refbuf_release`
  pub refbuf_release : ℕ → Heap → Option ℕ → Option Heap
  refbuf_release zero h p = none
  refbuf_release (suc fuel) h none = some h
  refbuf_release (suc fuel) h (some a) = elim (load h a) [
    | none ↦ none
    | some b ↦
        if (less b).count == 0
        then freed a (release_associated fuel (save h a (less b)) b.associated)
        else some (save h a (less b))
  ]

  -- `refbuf_release_associated`
  pub release_associated : ℕ → Heap → Option ℕ → Option Heap
  release_associated zero h p = none
  release_associated (suc fuel) h none = some h
  release_associated (suc fuel) h (some a) = elim (load h a) [
    | none ↦ none
    | some b ↦ elim (refbuf_release fuel (save h a (unlink b)) (some a)) [
      | none ↦ none
      | some g ↦ release_associated fuel g b.next
    ]
  ]

-- `refbuf_copy`; the bytes in use are read from the original.
unfoldable pub refbuf_copy : Heap → Option ℕ → Option (Heap × Option ℕ)
unfolding refbuf_new
refbuf_copy h none = some (h, none)
refbuf_copy h (some a) = elim (load h a) [
  | none ↦ none
  | some b ↦
      if leb b.len (length b.memory)
      then (let (g, c) = refbuf_new h (take b.len b.memory) in some (g, some c))
      else none
]

-- The loop of `refbuf_copy_default`, for the last copy `ref` and the original `orig`.
unfoldable pub copy_links : ℕ → Heap → Option ℕ → Option ℕ → Option Heap
unfolding refbuf_copy
copy_links fuel h ref none = some h
copy_links zero h ref (some o) = none
copy_links (suc fuel) h ref (some o) = elim (load h o) [
  | none ↦ none
  | some b ↦ elim (refbuf_copy h b.associated) [
    | none ↦ none
    | some (g, c) ↦ elim ref [
      | none ↦ none
      | some r ↦ elim (load g r) [
        | none ↦ none
        | some d ↦ copy_links fuel (save g r (record d { associated = c })) c b.associated
      ]
    ]
  ]
]

-- `refbuf_copy_default`, where `orig->associated` is read of the original.
unfoldable pub refbuf_copy_default : ℕ → Heap → Option ℕ → Option (Heap × Option ℕ)
unfolding copy_links refbuf_copy
refbuf_copy_default fuel h none = none
refbuf_copy_default fuel h (some a) = elim (load h a) [
  | none ↦ none
  | some b ↦ elim (refbuf_copy h (some a)) [
    | none ↦ none
    | some (g, ret) ↦ elim (copy_links fuel g ret b.associated) [
      | none ↦ none
      | some k ↦ some (k, ret)
    ]
  ]
]

-- A write of bytes at a place of the allocated memory.
abbrev pub put : Bytes → ℕ → Bytes → Option Bytes
put m at bytes =
    if leb (at + length bytes) (length m)
    then some (take at m ++ bytes ++ drop (at + length bytes) m)
    else none

-- `refbuf_appendv`, for the text that the format gives: the buffer and the result, which is -1 as
-- `none`. `vsnprintf` writes what fits with its NUL.
unfoldable pub refbuf_appendv : Refbuf → ℕ → Bytes → Option (Refbuf × Option ℕ)
refbuf_appendv b max_len text =
    let remain = max_len - b.len in
    if remain == 0
    then some (b, none)
    else elim (put b.memory b.len (take (remain - 1) text ++ (0 ∷ []))) [
      | none ↦ none
      | some m ↦ some (
        record b {
          memory = m;
          len = if ltb (length text) remain then b.len + length text else b.len;
        },
        some (length text),
      )
    ]

-- `refbuf_append`: the result is 0 where the buffer is still empty.
unfoldable pub refbuf_append : Refbuf → ℕ → Bytes → Option (Refbuf × Option ℕ)
unfolding refbuf_appendv
refbuf_append b max_len text = elim (refbuf_appendv b max_len text) [
  | none ↦ none
  | some (c, ret) ↦ some (c, if c.len == 0 then some 0 else ret)
]
