-- ===== src/Songdata/Kept.antt =====
-- songdata_push does what Songdata/Promise says: the entry that it makes, the one that it ends, and
-- the guard against a already_there title.
use mcaster1dnas.Base.{
  ℕ, Bytes, List, Option, [], length, none, some, ◌++◌, ◌∷◌, ◌≡◌, ◌≢◌, ◌≤◌, Bool-cases, inl, inr,
  refl, ap, arith, true, false, str_eq→eq, str_eq_refl, ◌==◌, Option-cases, length-append, subst,
  suc, ◌&&◌, ◌+◌,
}
use mcaster1dnas.Songdata.{
  Entry, end_entry, is_str, split_at_dash, parts, new_entry, split_title_artist,
}
use mcaster1dnas.Songdata.Spec.{mark, bounded, spec_push}
use mcaster1dnas.Songdata.Promise.{
  separator, IsEnded, Others, IsLatest, IsNew, IsPush, IsSong, first, follows, leading, plain,
  already_there, split,
}

is_str→some : (o : Option Bytes) (s : Bytes) → is_str o s ≡ true → o ≡ some s
is_str→some none s h = absurd (ground arith)
is_str→some (some t) s h = ap some (str_eq→eq t s h)

not_str→ne : (o : Option Bytes) (s : Bytes) → is_str o s ≡ false → o ≢ some s
not_str→ne none s h e = cc
not_str→ne (some t) s h e = ground (arith, str_eq_refl s, e)

separator_fits : (s x y : Bytes) → s ≡ x ++ (separator ++ y) → length x + 3 ≤ length s
separator_fits s x y e = omega (arith, ap length e, length-append x (separator ++ y))

abbrev rest_of : Bytes → Bytes
rest_of [] = []
rest_of (c ∷ s) = s

split_at_dash-none : (s x y : Bytes) → split_at_dash s ≡ none → s ≢ x ++ (separator ++ y)
unfolding split_at_dash
split_at_dash-none [] x y h e = omega (arith, separator_fits [] x y e)
split_at_dash-none (a ∷ []) x y h e = omega (arith, separator_fits (a ∷ []) x y e)
split_at_dash-none (a ∷ b ∷ []) x y h e = omega (arith, separator_fits (a ∷ b ∷ []) x y e)
split_at_dash-none (a ∷ b ∷ c ∷ s) [] y h e = ground arith
split_at_dash-none (a ∷ b ∷ c ∷ s) (d ∷ x) y h e = elim (Option-cases (split_at_dash (b ∷ c ∷ s))) [
  | inl r ↦ split_at_dash-none (b ∷ c ∷ s) x y r (ap rest_of e)
  | inr (p, r) ↦ absurd (ground arith)
]

-- The first separator: where it stands, and that none stands before.
record IsSplit (s x y : Bytes) : Type 0 where
  parts_of : s ≡ x ++ (separator ++ y)
  is_first : (u v : Bytes) → s ≡ u ++ (separator ++ v) → length x ≤ length u

IsSplit-cons :
    (a : ℕ) (s x y : Bytes)
    → ((v : Bytes) → a ∷ s ≢ separator ++ v)
    → IsSplit s x y
    → IsSplit (a ∷ s) (a ∷ x) y
IsSplit-cons a s x y h k = record { parts_of = ap (λ t. a ∷ t) k.parts_of; is_first = later }
  where
    later : (u v : Bytes) → a ∷ s ≡ u ++ (separator ++ v) → suc (length x) ≤ length u
    later [] v e = absurd (h v e)
    later (d ∷ u) v e = omega (arith, k.is_first u v (ap rest_of e))

split_at_dash-some : (s x y : Bytes) → split_at_dash s ≡ some (x, y) → IsSplit s x y
unfolding split_at_dash
split_at_dash-some [] x y h = absurd (ground arith)
split_at_dash-some (a ∷ []) x y h = absurd (ground arith)
split_at_dash-some (a ∷ b ∷ []) x y h = absurd (ground arith)
split_at_dash-some (a ∷ b ∷ c ∷ s) x y h =
    elim (Bool-cases ((a == b' ') && (b == b'-') && (c == b' '))) [
      | inl t ↦
          let ex : [] ≡ x = ground arith in
          let ey : s ≡ y = ground arith in
          subst (λ z. IsSplit (a ∷ b ∷ c ∷ s) z y) ex
            (subst (IsSplit (a ∷ b ∷ c ∷ s) []) ey
              (record { parts_of = ground arith; is_first = λ u v e. omega arith }))
      | inr t ↦ elim (Option-cases (split_at_dash (b ∷ c ∷ s))) [
        | inl r ↦ absurd (ground arith)
        | inr ((u, v), r) ↦
            let ex : a ∷ u ≡ x = ground arith in
            let ey : v ≡ y = ground arith in
            subst (λ z. IsSplit (a ∷ b ∷ c ∷ s) z y) ex
              (subst (IsSplit (a ∷ b ∷ c ∷ s) (a ∷ u)) ey (
                IsSplit-cons a (b ∷ c ∷ s) u v (λ w e. absurd (ground arith))
                  (split_at_dash-some (b ∷ c ∷ s) u v r)))
      ]
    ]

split_title_artist-IsSong :
    (raw : Bytes) → IsSong raw (split_title_artist raw).0 (split_title_artist raw).1
unfolding split_title_artist parts
split_title_artist-IsSong raw = elim (Option-cases (split_at_dash raw)) [
  | inl e ↦ rw (e, split_title_artist) (plain (λ x y k. split_at_dash-none raw x y e k))
  | inr (([], y), e) ↦
      let k = split_at_dash-some raw [] y e in rw (e, split_title_artist) (leading y k.parts_of)
  | inr ((c ∷ x, y), e) ↦
      let k = split_at_dash-some raw (c ∷ x) y e in
      rw (e, split_title_artist) (split (c ∷ x) y (λ z. cc) k.parts_of k.is_first)
]

new_entry-IsNew :
    (m raw : Bytes) (listeners now : ℕ) → IsNew (new_entry m raw listeners now) m raw listeners now
unfolding new_entry
new_entry-IsNew m raw listeners now = record {
  mount = refl;
  song = (split_title_artist raw).1;
  title = refl;
  is_song = split_title_artist-IsSong raw;
  heard_by = refl;
  begun = refl;
  playing = refl;
  no_codec = refl;
  no_samplerate = refl;
  no_channels = refl;
  no_bitrate = refl;
}

end_entry-IsEnded : (e : Entry) (now : ℕ) → IsEnded e now (end_entry e now)
end_entry-IsEnded e now = elim (Bool-cases (e.ended_at == 0)) [
  | inl z ↦ rw z (record { ends = λ h. refl; ended = λ h. absurd (ground arith); same = refl })
  | inr z ↦ rw z (record { ends = λ h. absurd (ground arith); ended = λ h. refl; same = refl })
]

-- How `mark` goes over the entries.
data Marked (m raw : Bytes) (now : ℕ) (l : List Entry) : Option (List Entry) → Type 0 where
  same :
      (before : List Entry) (e : Entry) (after : List Entry)
      → IsLatest m l before e after
      → e.title ≡ some raw
      → Marked m raw now l none
  absent : Others m l → Marked m raw now l (some l)
  stamped :
      (before : List Entry) (e : Entry) (after : List Entry)
      → IsLatest m l before e after
      → e.title ≢ some raw
      → Marked m raw now l (some (before ++ (end_entry e now ∷ after)))

IsLatest-cons :
    (m : Bytes) (l before : List Entry) (e x : Entry) (after : List Entry)
    → x.mount ≢ some m
    → IsLatest m l before e after
    → IsLatest m (x ∷ l) (x ∷ before) e after
IsLatest-cons m l before e x after h k = record {
  parts = ap (λ t. x ∷ t) k.parts;
  others = (h, k.others);
  mount = k.mount;
}

Marked-cons :
    (m raw : Bytes) (now : ℕ) (x : Entry) (l : List Entry) (o : Option (List Entry))
    → x.mount ≢ some m
    → Marked m raw now l o
    → Marked m raw now (x ∷ l) (elim o [ none ↦ none | some r ↦ some (x ∷ r) ])
Marked-cons m raw now x l _ h (same before e after k t) =
    same (x ∷ before) e after (IsLatest-cons m l before e x after h k) t
Marked-cons m raw now x l _ h (absent k) = absent (h, k)
Marked-cons m raw now x l _ h (stamped before e after k t) =
    stamped (x ∷ before) e after (IsLatest-cons m l before e x after h k) t

mark-Marked : (m raw : Bytes) (now : ℕ) (l : List Entry) → Marked m raw now l (mark m raw now l)
unfolding mark
mark-Marked m raw now [] = absent tt
mark-Marked m raw now (e ∷ l) = elim (Bool-cases (is_str e.mount m)) [
  | inl t ↦
      let k : IsLatest m (e ∷ l) [] e l = record {
        parts = refl;
        others = tt;
        mount = is_str→some e.mount m t;
      } in
      elim (Bool-cases (is_str e.title raw)) [
        | inl u ↦ rw (t, u, mark) (same [] e l k (is_str→some e.title raw u))
        | inr u ↦ rw (t, u, mark) (stamped [] e l k (not_str→ne e.title raw u))
      ]
  | inr t ↦
      rw (t, mark)
        (Marked-cons m raw now e l (mark m raw now l) (not_str→ne e.mount m t)
          (mark-Marked m raw now l))
]

pub spec_push-IsPush :
    (limit : ℕ) (l : List Entry) (m raw : Bytes) (listeners marked now : ℕ)
    → IsPush limit l m raw listeners marked now (spec_push limit l m raw listeners marked now)
unfolding spec_push
spec_push-IsPush limit l m raw listeners marked now =
    pushed (mark m raw marked l) (mark-Marked m raw marked l)
  where
    pushed :
        (o : Option (List Entry))
        → Marked m raw marked l o
        → IsPush limit l m raw listeners marked now
            (elim o [ none ↦ l | some r ↦ bounded limit (new_entry m raw listeners now ∷ r) ])
    pushed _ (same before e after k t) = already_there before e after k t
    pushed _ (absent k) = first _ k (new_entry-IsNew m raw listeners now)
    pushed _ (stamped before e after k t) =
        follows _ before e (end_entry e marked) after k t (end_entry-IsEnded e marked)
          (new_entry-IsNew m raw listeners now)
