-- ===== src/Params/Http/Tests.antt =====
-- Runs of the headers of a response, and instances of their theorems.
use mcaster1dnas.Params.Table.Update.{value_of}
use mcaster1dnas.Params.Http.Keep.{
  IsPersistent, connection_header, sent_connection, apply_one-connection,
}
use mcaster1dnas.Params.Http.Cors.{
  origin_header, credentials_header, http_apply-no_origin, http_apply-origin,
}
use mcaster1dnas.Params.Table.{find_entry}
use mcaster1dnas.Params.Http.{Http, http_apply, apply_one, known, allow_origin, allow_credentials}
use mcaster1dnas.Base.{◌↔◌, [], codes, false, none, refl, some, true, ◌∷◌, ◌≡◌}

-- A response to a request in HTTP/1.1 from one origin.
abbrev fresh : Http
fresh = record {
  headers = record {
    entries = [];
    len = 1;
    escaped = false;
    extra_len = 0;
    entry_end = 13 ∷ 10 ∷ [];
    entry_div = codes ": ";
  };
  respcode = codes "200";
  in_major = 1;
  in_minor = 1;
  in_length = known 0;
  msg = none;
  in_connection = some (codes "Keep-Alive");
  in_origin = some (codes "http://a.b");
  wildcard_origin = false;
  keepalive = false;
  buffers = [];
}

abbrev no_origin : Http
no_origin = record fresh { in_origin = none }

http_apply-no_origin_example :
    http_apply none no_origin (origin_header ∷ credentials_header ∷ []) ≡ some (no_origin, true)
http_apply-no_origin_example =
    http_apply-no_origin none no_origin (origin_header ∷ credentials_header ∷ []) refl
      ((refl, λ e. cc), ((refl, λ e. cc), tt))

http_apply-origin_example :
    (g : Http) × (http_apply none fresh (origin_header ∷ credentials_header ∷ []) ≡ some (g, true))
    × (value_of (find_entry allow_origin g.headers.entries) ≡ some (codes "http://a.b"))
    × (value_of (find_entry allow_credentials g.headers.entries) ≡ some (codes "true"))
unfolding find_entry
http_apply-origin_example = http_apply-origin none fresh (codes "http://a.b") refl refl refl refl

apply_one-connection_example :
    (g : Http) × (apply_one none fresh (codes "Connection") connection_header ≡ some (g, true))
    × (value_of (find_entry (codes "Connection") g.headers.entries)
        ≡ some (sent_connection g.keepalive))
    × ((g.keepalive ≡ true) ↔ IsPersistent fresh)
unfolding find_entry
apply_one-connection_example = apply_one-connection none fresh refl refl
