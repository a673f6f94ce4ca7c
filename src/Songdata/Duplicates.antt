-- ===== src/Songdata/Duplicates.antt =====
-- The duplicate guard of songdata_push, which compares the whole text of a title with the part of
-- the last one that was stored as its title.
use mcaster1dnas.Base.{
  ℕ, Bool-cases, Bytes, List, Option, Option-cases, [], ap, arith, false, inl, inr, length, none,
  some, str_eq, str_eq_refl, str_eq→eq, sym, ◌+◌, ◌<◌, ◌∙◌, ◌∷◌, ◌≡◌, ◌≢◌, ◌≤◌,
}
use mcaster1dnas.Songdata.{
  Entry, History, end_entry, new_entry, parts, push, split_at_dash, split_title_artist,
}
use mcaster1dnas.Songdata.Recent.{Inv, recent}
use mcaster1dnas.Songdata.Spec.{mark, bounded, spec_push}
use mcaster1dnas.Songdata.Push.{push-spec_push}

split_at_dash-shorter :
    (s : Bytes) (x y : Bytes) → split_at_dash s ≡ some (x, y) → length y + 3 ≤ length s
unfolding split_at_dash
split_at_dash-shorter [] x y h = cc
split_at_dash-shorter (a ∷ []) x y h = cc
split_at_dash-shorter (a ∷ b ∷ []) x y h = cc
split_at_dash-shorter (a ∷ b ∷ c ∷ s) x y h = elim (Option-cases (split_at_dash (b ∷ c ∷ s))) [
  | inl e ↦ ground arith
  | inr ((u, w), e) ↦ ground (arith, split_at_dash-shorter (b ∷ c ∷ s) u w)
]

-- The artist of a text, as stored.
abbrev pub artist_of : Bytes → Option Bytes
artist_of raw = (split_title_artist raw).0

abbrev pub title_of : Bytes → Bytes
title_of raw = (split_title_artist raw).1

title_of-shorter : (raw : Bytes) → artist_of raw ≢ none → length (title_of raw) < length raw
unfolding split_title_artist parts
title_of-shorter raw h = elim (Option-cases (split_at_dash raw)) [
  | inl e ↦ absurd (h (ground arith))
  | inr ((x, y), e) ↦ shorter x y e
]
  where
    shorter : (x y : Bytes) → split_at_dash raw ≡ some (x, y) → length (title_of raw) < length raw
    shorter [] y e = absurd (h (ground arith))
    shorter (c ∷ x) y e = ground (arith, split_at_dash-shorter raw (c ∷ x) y)

title_of-plain : (raw : Bytes) → artist_of raw ≡ none → title_of raw ≡ raw
unfolding split_title_artist parts
title_of-plain raw h = elim (Option-cases (split_at_dash raw)) [
  | inl e ↦ ground arith
  | inr ((x, y), e) ↦ whole x y e
]
  where
    whole : (x y : Bytes) → split_at_dash raw ≡ some (x, y) → title_of raw ≡ raw
    whole [] y e = ground arith
    whole (c ∷ x) y e = absurd (ground arith)

str_eq-shorter : (a b : Bytes) → length a < length b → str_eq a b ≡ false
str_eq-shorter a b h = elim (Bool-cases (str_eq a b)) [
  | inl e ↦ absurd (omega (arith, ap length (str_eq→eq a b e)))
  | inr e ↦ e
]

module _ (m : Bytes) (raw : Bytes) (old at : ℕ) (rest : List Entry) where
  abbrev pub last_played : Entry
  last_played = new_entry m raw old at

  mark-split :
      (now : ℕ)
      → artist_of raw ≢ none
      → mark m raw now (last_played ∷ rest) ≡ some (end_entry last_played now ∷ rest)
  unfolding mark new_entry
  mark-split now h =
      rw (str_eq_refl m, str_eq-shorter (title_of raw) raw (title_of-shorter raw h), mark)

  mark-title : (now : ℕ) → mark m (title_of raw) now (last_played ∷ rest) ≡ none
  unfolding mark new_entry
  mark-title now = rw (str_eq_refl m, str_eq_refl (title_of raw))

-- A title with an artist is never recognised as the one that is playing: pushed again, it is
-- entered again, and the first entry is ended.
pub push_again_with_artist :
    (h : History) (m : Bytes) (c : ℕ) (t : Bytes) (old at : ℕ) (rest : List Entry)
    (listeners marked now : ℕ)
    → Inv h
    → recent h ≡ new_entry m (c ∷ t) old at ∷ rest
    → artist_of (c ∷ t) ≢ none
    → (g : History) × (push h (some m) (some (c ∷ t)) listeners marked now ≡ some g)
      × (recent g
          ≡ bounded h.limit (
              new_entry m (c ∷ t) listeners now
              ∷ end_entry (new_entry m (c ∷ t) old at) marked
              ∷ rest))
push_again_with_artist h m c t old at rest listeners marked now v r a =
    let (g, e, p) = push-spec_push h m c t listeners marked now v in
    (
      g,
      e,
      p.entries
          ∙ rw r (unfold spec_push in rw (mark-split m (c ∷ t) old at rest marked a, spec_push)),
    )

-- A push of the text that is the stored title of what is playing leaves the entries as they are,
-- also where what is playing was pushed as "artist - title", which is another text.
pub push_title_alone :
    (h : History) (m : Bytes) (raw : Bytes) (c : ℕ) (t : Bytes) (old at : ℕ) (rest : List Entry)
    (listeners marked now : ℕ)
    → Inv h
    → recent h ≡ new_entry m raw old at ∷ rest
    → title_of raw ≡ c ∷ t
    → (g : History) × (push h (some m) (some (c ∷ t)) listeners marked now ≡ some g)
      × (recent g ≡ recent h)
push_title_alone h m raw c t old at rest listeners marked now v r a =
    let (g, e, p) = push-spec_push h m c t listeners marked now v in (g, e, p.entries ∙ quiet)
  where
    quiet : spec_push h.limit (recent h) m (c ∷ t) listeners marked now ≡ recent h
    quiet =
        unfold spec_push in
        rw r (
          rw (
            ap (λ x. mark m x marked (new_entry m raw old at ∷ rest)) (sym a)
                ∙ mark-title m raw old at rest marked,
            spec_push,
          ))

-- Where a title has no artist part, pushing it again changes nothing.
pub push_again_plain :
    (h : History) (m : Bytes) (c : ℕ) (t : Bytes) (old at : ℕ) (rest : List Entry)
    (listeners marked now : ℕ)
    → Inv h
    → recent h ≡ new_entry m (c ∷ t) old at ∷ rest
    → artist_of (c ∷ t) ≡ none
    → (g : History) × (push h (some m) (some (c ∷ t)) listeners marked now ≡ some g)
      × (recent g ≡ recent h)
push_again_plain h m c t old at rest listeners marked now v r a =
    push_title_alone h m (c ∷ t) c t old at rest listeners marked now v r (title_of-plain (c ∷ t) a)
