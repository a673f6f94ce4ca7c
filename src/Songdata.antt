-- ===== src/Songdata.antt =====
-- src/songdata_api.c: the history of song titles, a ring of `limit` entries or a growing array.
-- The clock is an argument. `history_limit` is 0 also where the code has a negative number.
-- Allocations succeed. The mutex makes each function one step.
pub mod Recent
pub mod Spec
pub mod Scan
pub mod Added
pub mod Ring
pub mod Grow
pub mod Push
pub mod Duplicates
mod Tests
pub mod Promise
pub mod Kept
use mcaster1dnas.Base.{
  ℕ, Bool, Bytes, List, Option, [], false, get_elem?, if◌then◌else◌, leb, length, ltb, none,
  replicate, set, some, str_eq, suc, true, zero, ◌%◌, ◌&&◌, ◌*◌, ◌++◌, ◌+◌, ◌-◌, ◌==◌, ◌∷◌,
}

-- `songdata_entry_t`; `none` is a NULL pointer.
pub record Entry : Type 0 where
  pub mount : Option Bytes
  pub title : Option Bytes
  pub artist : Option Bytes
  pub codec : Option Bytes
  pub samplerate : ℕ
  pub channels : ℕ
  pub bitrate : ℕ
  pub listeners : ℕ
  pub played_at : ℕ
  pub ended_at : ℕ

-- What `calloc` and `memset` leave.
abbrev pub blank : Entry
blank = record {
  mount = none;
  title = none;
  artist = none;
  codec = none;
  samplerate = 0;
  channels = 0;
  bitrate = 0;
  listeners = 0;
  played_at = 0;
  ended_at = 0;
}

-- The static variables `history`, `history_len`, `history_used`, `history_head`, `history_limit`.
pub record History : Type 0 where
  pub slots : List Entry
  pub len : ℕ
  pub used : ℕ
  pub head : ℕ
  pub limit : ℕ

-- `songdata_init`
unfoldable pub init : ℕ → History
init limit =
    let len : ℕ = if ltb 0 limit then limit else 64 in
    record { slots = replicate len blank; len = len; used = 0; head = 0; limit = limit }

-- `while (idx < 0) idx += history_len;` where `idx` is `at - back`.
pub wrap : ℕ → ℕ → ℕ → ℕ → Option ℕ
wrap zero at back len = none
wrap (suc fuel) at back len =
    let again = wrap fuel (at + len) back len in if ltb at back then again else some (at - back)

-- `newest_idx`; `none` is -1. The fuel covers a walk in steps of one.
pub newest_idx : History → ℕ → Option ℕ
unfolding wrap
newest_idx h n =
    if leb h.used n
    then none
    else if ltb 0 h.limit
    then wrap (n + 2) h.head (n + 1) h.len
    else some (h.used - 1 - n)

-- `strcmp` of a field that may be NULL with a string.
abbrev pub is_str : Option Bytes → Bytes → Bool
is_str none s = false
is_str (some t) s = str_eq t s

-- How the loop before a push ends: an access out of the array, the early return for a title that
-- is already there, or with the history marked.
pub data Outcome : Type 0 where
  fault skip : Outcome
  proceed : History → Outcome

abbrev pub end_entry : Entry → ℕ → Entry
end_entry e now = if e.ended_at == 0 then record e { ended_at = now } else e

-- The loop of `songdata_push` over the `k` entries from the `n`-th newest on.
pub scan : ℕ → ℕ → History → Bytes → Bytes → ℕ → Outcome
unfolding newest_idx
scan zero n h m t now = proceed h
scan (suc k) n h m t now =
    let rest = scan k (n + 1) h m t now in
    elim (newest_idx h n) [
      | none ↦ proceed h
      | some i ↦ elim (get_elem? h.slots i) [
        | none ↦ fault
        | some e ↦
            if is_str e.mount m
            then (if is_str e.title t
                then skip
                else proceed (record h { slots = set h.slots i (end_entry e now) }))
            else rest
      ]
    ]

-- `strstr (raw, " - ")`: the texts before and behind the first separator.
pub split_at_dash : Bytes → Option (Bytes × Bytes)
split_at_dash (a ∷ b ∷ c ∷ s) =
    let rest = split_at_dash (b ∷ c ∷ s) in
    if (a == b' ') && (b == b'-') && (c == b' ')
    then some ([], s)
    else elim rest [ none ↦ none | some (x, y) ↦ some (a ∷ x, y) ]
split_at_dash _ = none

-- The two results, where the separator does not begin the text.
pub parts : Bytes → Bytes → Bytes → Option Bytes × Bytes
parts raw [] title = (none, raw)
parts raw (c ∷ artist) title = (some (c ∷ artist), title)

-- `split_title_artist`: the artist, and the title.
pub split_title_artist : Bytes → Option Bytes × Bytes
unfolding split_at_dash parts
split_title_artist raw = elim (split_at_dash raw) [
  | none ↦ (none, raw)
  | some (artist, title) ↦ parts raw artist title
]

-- The slot that `songdata_push` fills.
pub new_entry : Bytes → Bytes → ℕ → ℕ → Entry
unfolding split_title_artist
new_entry m raw listeners now =
    let (artist, title) = split_title_artist raw in
    record blank {
      mount = some m;
      title = some title;
      artist = artist;
      listeners = listeners;
      played_at = now;
    }

-- The array of at least one free slot in unlimited mode.
abbrev pub grown : History → History
grown h =
    if leb h.len h.used
    then record h { slots = h.slots ++ replicate (h.len * 2 - h.len) blank; len = h.len * 2 }
    else h

-- A write to the array.
abbrev pub store_slot : History → ℕ → Entry → Option History
store_slot h i e =
    if ltb i (length h.slots) then some (record h { slots = set h.slots i e }) else none

-- The slot is chosen and filled. `none` is a write out of the array.
pub add_entry : History → Entry → Option History
add_entry h e =
    if ltb 0 h.limit
    then store_slot
        (record h {
          head = (h.head + 1) % h.len;
          used = if ltb h.used h.len then h.used + 1 else h.used;
        })
        h.head e
    else store_slot (record (grown h) { used = h.used + 1 }) h.used e

-- `songdata_push`; `marked` and `now` are its two readings of the clock.
unfoldable pub push : History → Option Bytes → Option Bytes → ℕ → ℕ → ℕ → Option History
unfolding scan new_entry add_entry
push h none t listeners marked now = some h
push h (some m) none listeners marked now = some h
push h (some m) (some []) listeners marked now = some h
push h (some m) (some (c ∷ t)) listeners marked now = elim (scan h.used 0 h m (c ∷ t) marked) [
  | fault ↦ none
  | skip ↦ some h
  | proceed h' ↦ add_entry h' (new_entry m (c ∷ t) listeners now)
]

-- Whether `songdata_get_xml` takes an entry, for its filter.
abbrev pub wanted : Option Bytes → Entry → Bool
wanted none e = true
wanted (some m) e = is_str e.mount m

-- The snapshot of `songdata_get_xml`: the loop over the `k` entries from the `n`-th newest on.
-- `none` is a read out of the array.
pub snapshot_from : ℕ → ℕ → History → Option Bytes → Option (List Entry)
unfolding newest_idx
snapshot_from zero n h filter = some []
snapshot_from (suc k) n h filter =
    let rest = snapshot_from k (n + 1) h filter in
    elim (newest_idx h n) [
      | none ↦ some []
      | some i ↦ elim (get_elem? h.slots i) [
        | none ↦ none
        | some e ↦ elim rest [ none ↦ none | some l ↦ some (if wanted filter e then e ∷ l else l) ]
      ]
    ]

unfoldable pub snapshot : History → Option Bytes → Option (List Entry)
unfolding snapshot_from
snapshot h filter = snapshot_from h.used 0 h filter

-- `songdata_destroy`; the head and the limit keep their values.
unfoldable pub destroy : History → History
destroy h = record h { slots = []; used = 0; len = 0 }

-- The number of seconds on air that `songdata_get_xml` prints for an entry.
unfoldable pub on_air : Entry → ℕ → ℕ
on_air e now = (if ltb 0 e.ended_at then e.ended_at else now) - e.played_at
