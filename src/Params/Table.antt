-- ===== src/Params/Table.antt =====
-- src/params.c, lines 107 to 234 and 394 to 403: a list of named values with the length of its
-- text. Allocations succeed. Lengths are `uint32_t`, the two of an entry `uint16_t`.
pub mod Names
pub mod Update
pub mod Size
mod Tests
use mcaster1dnas.Base.{
  ℕ, Bool, Bytes, List, Option, [], false, if◌then◌else◌, leb, length, none, not, some, true, ◌%◌,
  ◌&&◌, ◌+◌, ◌-◌, ◌==◌, ◌^◌, ◌||◌, ◌∷◌,
}
use mcaster1dnas.Util.Uri.{url_escape}

-- The bits of `flags` of a parameter: PARAM_NOCOPY, PARAM_AS, PARAM_ESC, PARAM_CONST, PARAM_MULTI.
pub record ParamFlags : Type 0 where
  pub nocopy : Bool
  pub verbatim : Bool
  pub esc : Bool
  pub fixed : Bool
  pub multi : Bool

abbrev pub pass : ParamFlags
pass = record { nocopy = false; verbatim = false; esc = false; fixed = false; multi = false }

-- `mc_param_t`, as it stands in a list.
pub record Param : Type 0 where
  pub name : Bytes
  pub value : Bytes
  pub flags : ParamFlags
  pub name_len : ℕ
  pub value_len : ℕ

-- `mc_params_t`; of its flags PARAMS_ESC. `entry_div` and `entry_end` hold at most three bytes.
pub record Params : Type 0 where
  pub entries : List Param
  pub len : ℕ
  pub escaped : Bool
  pub extra_len : ℕ
  pub entry_end : Bytes
  pub entry_div : Bytes

abbrev pub u32 : ℕ
u32 = 2 ^ 32

abbrev pub u16 : ℕ
u16 = 2 ^ 16

-- `tolower` in the C locale.
unfoldable pub lower : ℕ → ℕ
lower c = if leb b'A' c && leb c b'Z' then c + 32 else c

-- `strcasecmp (a, b) == 0`
unfoldable pub same_name : Bytes → Bytes → Bool
unfolding lower
same_name [] [] = true
same_name [] (b ∷ s) = false
same_name (a ∷ r) [] = false
same_name (a ∷ r) (b ∷ s) = (lower a == lower b) && same_name r s

-- `mc_params_setup`
unfoldable pub setup : Bytes → Bytes → Bool → Params
setup divider separator escaped = record {
  entries = [];
  len = 1;
  escaped = escaped;
  extra_len = 0;
  entry_end = separator;
  entry_div = divider;
}

-- `header->name[0] && strcasecmp (chdr->name, header->name) == 0`
abbrev pub clashes : Param → Bytes → Bool
clashes p [] = false
clashes p (c ∷ n) = same_name p.name (c ∷ n)

-- The walk of `_ice_params_apply`: the first entry of the name, if the name is not empty.
unfoldable pub find_entry : Bytes → List Param → Option Param
find_entry name [] = none
find_entry name (p ∷ ps) = let rest = find_entry name ps in if clashes p name then some p else rest

-- What a callback leaves in `curr->value`: the pointer that it found, or another one.
pub data Answer : Type 0 where
  keeps : Answer
  sets : Option Bytes → Answer

-- The text that `_ice_params_apply` stores for a header value, after the callback, if any.
unfoldable pub stored_value : Bool → Option Bytes → Answer → Bytes
stored_value encode value answer =
    let given : Bytes = elim value [ none ↦ [] | some v ↦ v ] in
    let source : Bytes = elim answer [
      | keeps ↦ given
      | sets w ↦ elim w [ none ↦ given | some t ↦ t ]
    ] in
    if encode then url_escape (some source) else source

-- The entry that replaces the first one of its name, or goes to the end.
unfoldable pub put_entry : Param → List Param → List Param
put_entry q [] = q ∷ []
put_entry q (p ∷ ps) = let rest = put_entry q ps in if clashes p q.name then q ∷ ps else p ∷ rest

-- The lengths that an entry's predecessor had, 0 for none.
abbrev pub old_len : Option Param → ℕ
old_len none = 0
old_len (some p) = p.name_len + p.value_len

-- The length that `_ice_params_apply` counts for a name, with the divider behind it.
abbrev pub name_size : Params → Bytes → ℕ
name_size pm [] = 0
name_size pm (c ∷ n) = length (c ∷ n) + length pm.entry_div

-- The end of `_ice_params_apply`, from the value that is to be stored on.
unfoldable pub store : Params → Bytes → ParamFlags → Option Bytes → Answer → Params
unfolding find_entry put_entry stored_value
store pm name flags value answer = record pm {
  entries = put_entry entry pm.entries;
  len = ((pm.len + u32 - old_len (find_entry name pm.entries)) % u32 + (nlen + vlen)) % u32;
}
  where
    encode : Bool
    encode = not flags.verbatim && (pm.escaped || flags.esc)

    text : Bytes
    text = stored_value encode value answer

    nlen : ℕ
    nlen = name_size pm name

    vlen : ℕ
    vlen = length text + length pm.entry_end

    entry : Param
    entry = record {
      name = name;
      value = text;
      flags = record flags { nocopy = false };
      name_len = nlen % u16;
      value_len = vlen % u16;
    }

-- Whether the entry that `_ice_params_apply` finds refuses to be replaced.
abbrev pub refuses : Option Param → Bool
refuses none = false
refuses (some p) = if p.flags.multi then false else p.flags.fixed

-- `_ice_params_apply` for a header without a callback: the list and whether it returns 0.
unfoldable pub apply_plain : Params → Bytes → ParamFlags → Option Bytes → Params × Bool
unfolding store
apply_plain pm name flags none = (pm, false)
apply_plain pm name flags (some v) =
    if refuses (find_entry name pm.entries)
    then (pm, false)
    else (store pm name flags (some v) keeps, true)

-- `mc_params_apply` on a list of headers without callbacks.
unfoldable pub params_apply : Params → List (Bytes × ParamFlags × Option Bytes) → Params
unfolding apply_plain
params_apply pm [] = pm
params_apply pm ((name, flags, value) ∷ hs) = params_apply (apply_plain pm name flags value).0 hs

-- `mc_params_clear`
unfoldable pub params_clear : Params → Params
params_clear pm = elim pm.entries [
  | [] ↦ pm
  | _ ∷ _ ↦ record {
    entries = [];
    len = 0;
    escaped = false;
    extra_len = 0;
    entry_end = [];
    entry_div = [];
  }
]
