-- ===== src/Params/Http/Keep.antt =====
-- The Connection header of src/params.c and the keep-alive flag of the client.
use mcaster1dnas.Base.{
  ℕ, map, refl, arith, ◌↔◌, ◌∙◌, Bool, Bytes, Option, codes, false, some, true, ◌≡◌, Bool-cases,
  inl, inr, none, sym,
}
use mcaster1dnas.Params.Table.Names.{same_name→eq, eq→same_name}
use mcaster1dnas.Params.Table.{
  lower, same_name, find_entry, pass, refuses, Answer, Params, sets, store, stored_value,
}
use mcaster1dnas.Params.Table.Update.{value_of, find_entry-store_plain}
use mcaster1dnas.Params.Http.{
  Length, known, unset, is_known, asks_keepalive, Http, Header, apply_one, connection, keeps_alive,
  answered, call, connection_hdr,
}

-- The default header for connections.
abbrev pub connection_header : Header
connection_header = record {
  name = some (codes "Connection");
  value = some (codes "Close");
  flags = pass;
  callback = some connection;
}

abbrev pub sent_connection : Bool → Bytes
sent_connection true = codes "keep-alive"
sent_connection false = codes "Close"

-- A request in HTTP/1.1 with `Connection: keep-alive`, in any case, for a response whose length is
-- known.
pub record IsPersistent (h : Http) : Type 0 where
  pub major : h.in_major ≡ 1
  pub minor : h.in_minor ≡ 1
  pub length : ℕ
  pub length_known : h.in_length ≡ known length
  pub asked : Bytes
  pub asks : h.in_connection ≡ some asked
  pub keep : map lower asked ≡ codes "keep-alive"

is_known→known : (l : Length) → is_known l ≡ true → (n : ℕ) × (l ≡ known n)
unfolding is_known
is_known→known unset h = absurd (ground arith)
is_known→known (known n) h = (n, refl)

asks_keepalive→some :
    (o : Option Bytes)
    → asks_keepalive o ≡ true
    → (c : Bytes) × (o ≡ some c) × (map lower c ≡ codes "keep-alive")
unfolding asks_keepalive lower
asks_keepalive→some none h = absurd (ground arith)
asks_keepalive→some (some c) h = (c, refl, same_name→eq c (codes "keep-alive") h)

keeps_alive→IsPersistent : (h : Http) → keeps_alive h ≡ true → IsPersistent h
unfolding keeps_alive
keeps_alive→IsPersistent h k =
    let (n, e) = is_known→known h.in_length (ground arith) in
    let (c, o, m) = asks_keepalive→some h.in_connection (ground arith) in
    record {
      major = ground arith;
      minor = ground arith;
      length = n;
      length_known = e;
      asked = c;
      asks = o;
      keep = m;
    }

IsPersistent→keeps_alive : (h : Http) → IsPersistent h → keeps_alive h ≡ true
unfolding keeps_alive is_known asks_keepalive lower
IsPersistent→keeps_alive h p =
    let k : same_name p.asked (codes "keep-alive") ≡ true =
      eq→same_name p.asked (codes "keep-alive") p.keep in
    rw (p.major, p.minor, p.length_known, p.asks, k) refl

-- The response announces `keep-alive` exactly when the client is kept, and that is exactly for a
-- request in HTTP/1.1 that asks for it, with a response whose length is known. The header has a
-- list that does not escape, and no constant entry before it.
pub apply_one-connection :
    (now : Option Bytes) (h : Http)
    → h.headers.escaped ≡ false
    → refuses (find_entry (codes "Connection") h.headers.entries) ≡ false
    → (g : Http) × (apply_one now h (codes "Connection") connection_header ≡ some (g, true))
      × (value_of (find_entry (codes "Connection") g.headers.entries)
          ≡ some (sent_connection g.keepalive))
      × ((g.keepalive ≡ true) ↔ IsPersistent h)
unfolding apply_one call answered connection_hdr stored_value
apply_one-connection now h plain r = elim (Bool-cases (keeps_alive h)) [
  | inl k ↦ (
    record h { keepalive = true; headers = kept (sets (some (codes "keep-alive"))) },
    rw (r, k, connection_hdr),
    find_entry-store_plain h.headers _ _ close (sets (some (codes "keep-alive"))) plain,
    (λ e. keeps_alive→IsPersistent h k, λ p. refl),
  )
  | inr k ↦ (
    record h { keepalive = false; headers = kept (sets none) },
    rw (r, k, connection_hdr),
    find_entry-store_plain h.headers _ _ close (sets none) plain,
    (λ e. absurd (ground arith), λ p. sym k ∙ IsPersistent→keeps_alive h p),
  )
]
  where
    close : Option Bytes
    close = some (codes "Close")

    kept : Answer → Params
    kept answer = store h.headers (codes "Connection") pass close answer
