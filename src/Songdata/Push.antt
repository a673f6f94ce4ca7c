-- ===== src/Songdata/Push.antt =====
-- songdata_push keeps the invariant and does to the list of entries what the specification says.
use mcaster1dnas.Base.{
  subst, sym, ℕ, Bool-cases, Bytes, List, arith, inl, inr, length, ltb, ltb→lt, refl, some, ◌∙◌,
  ◌∷◌, ◌≡◌,
}
use mcaster1dnas.Songdata.{Entry, History, add_entry, new_entry, push, scan}
use mcaster1dnas.Songdata.Recent.{Inv, recent}
use mcaster1dnas.Songdata.Spec.{mark, spec_push}
use mcaster1dnas.Songdata.Promise.{IsPush}
use mcaster1dnas.Songdata.Kept.{spec_push-IsPush}
use mcaster1dnas.Songdata.Scan.{repeated, scan-mark, Scanned, written}
use mcaster1dnas.Songdata.Added.{Added, added}
use mcaster1dnas.Songdata.Ring.{add_entry-ring}
use mcaster1dnas.Songdata.Grow.{add_entry-array}

add_entry-Added : (h : History) (e : Entry) → Inv h → Added h e (add_entry h e)
add_entry-Added h e v = elim (Bool-cases (ltb 0 h.limit)) [
  | inl ring ↦ add_entry-ring h e v (ltb→lt 0 h.limit ring)
  | inr free ↦ add_entry-array h e v (ground arith)
]

marked-Inv :
    (h : History) (s : List Entry)
    → Inv h
    → length s ≡ length h.slots
    → Inv (record h { slots = s })
marked-Inv h s v e = record {
  slots_len = e ∙ v.slots_len;
  used_le = v.used_le;
  len_pos = v.len_pos;
  ring_len = v.ring_len;
  head_lt = v.head_lt;
  filling = v.filling;
}

-- The same, with the functions of the code.
pub record Listed (h g : History) (m t : Bytes) (listeners marked now : ℕ) : Type 0 where
  pub inv : Inv g
  pub limit_same : g.limit ≡ h.limit
  pub entries : recent g ≡ spec_push h.limit (recent h) m t listeners marked now

push-Scanned :
    (h : History) (m : Bytes) (c : ℕ) (t : Bytes) (listeners marked now : ℕ)
    → Inv h
    → Scanned h.used 0 h (scan h.used 0 h m (c ∷ t) marked) (mark m (c ∷ t) marked (recent h))
    → (g : History) × (push h (some m) (some (c ∷ t)) listeners marked now ≡ some g)
      × Listed h g m (c ∷ t) listeners marked now
unfolding push spec_push
push-Scanned h m c t listeners marked now v (repeated e f) =
    (h, rw (e, push), record { inv = v; limit_same = refl; entries = rw (f, spec_push) })
push-Scanned h m c t listeners marked now v (written s l e f len k before) = finish (
    add_entry-Added (record h { slots = s }) (new_entry m (c ∷ t) listeners now)
      (marked-Inv h s v len))
  where
    finish :
        Added
          (record h { slots = s })
          (new_entry m (c ∷ t) listeners now)
          (add_entry (record h { slots = s }) (new_entry m (c ∷ t) listeners now))
        → (g : History) × (push h (some m) (some (c ∷ t)) listeners marked now ≡ some g)
          × Listed h g m (c ∷ t) listeners marked now
    finish (added g p i q r) = (
      g,
      rw (e, push) p,
      record { inv = i; limit_same = q; entries = r ∙ rw (f, spec_push) (rw k) },
    )

pub push-spec_push :
    (h : History) (m : Bytes) (c : ℕ) (t : Bytes) (listeners marked now : ℕ)
    → Inv h
    → (g : History) × (push h (some m) (some (c ∷ t)) listeners marked now ≡ some g)
      × Listed h g m (c ∷ t) listeners marked now
push-spec_push h m c t listeners marked now v =
    push-Scanned h m c t listeners marked now v
      (scan-mark m (c ∷ t) marked h v h.used 0 (omega arith))

-- A push that did not leave the array.
pub record Pushed (h g : History) (m t : Bytes) (listeners marked now : ℕ) : Type 0 where
  pub inv : Inv g
  pub limit_same : g.limit ≡ h.limit
  pub entries : IsPush h.limit (recent h) m t listeners marked now (recent g)

-- From a valid history `songdata_push` of a text never reads or writes out of its array, whatever
-- the limit; the history stays valid. Its entries, newest first, stay as they are where the text is
-- the stored title of the newest entry of the mount. Otherwise that entry ends now, unless it had
-- ended before, and an entry comes first that plays since now, with the mount, the listeners, and
-- the artist and the title that the text is split into at its first separator; the entries beyond
-- the limit go.
pub push_refines :
    (h : History) (m : Bytes) (c : ℕ) (t : Bytes) (listeners marked now : ℕ)
    → Inv h
    → (g : History) × (push h (some m) (some (c ∷ t)) listeners marked now ≡ some g)
      × Pushed h g m (c ∷ t) listeners marked now
push_refines h m c t listeners marked now v =
    let (g, e, p) = push-spec_push h m c t listeners marked now v in
    (
      g,
      e,
      record {
        inv = p.inv;
        limit_same = p.limit_same;
        entries =
            subst (IsPush h.limit (recent h) m (c ∷ t) listeners marked now) (sym p.entries)
              (spec_push-IsPush h.limit (recent h) m (c ∷ t) listeners marked now);
      },
    )
