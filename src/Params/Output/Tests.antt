-- ===== src/Params/Output/Tests.antt =====
-- Runs of the text of headers, and instances of its theorems.
use mcaster1dnas.Params.Output.Text.{text_of}
use mcaster1dnas.Params.Output.Response.{IsResponse, http_complete-text}
use mcaster1dnas.Params.Http.{Http, known}
use mcaster1dnas.Params.Output.{
  content_length, decimal, http_complete, params_printf, final_headers, entry_text,
}
use mcaster1dnas.Params.Table.{Params, Param, pass, params_apply, same_name}
use mcaster1dnas.Params.Table.Size.{HasRoom}
use mcaster1dnas.Base.{[], arith, codes, false, none, refl, some, true, ◌++◌, ◌∷◌, ◌≡◌}

abbrev first_line : Param
first_line = record {
  name = [];
  value = codes "HTTP/1.0 200 OK";
  flags = record pass { verbatim = true; fixed = true };
  name_len = 0;
  value_len = 17;
}

abbrev listed : Params
listed = record {
  entries = first_line ∷ [];
  len = 18;
  escaped = false;
  extra_len = 0;
  entry_end = 13 ∷ 10 ∷ [];
  entry_div = codes ": ";
}

abbrev ready : Http
ready = record {
  headers = listed;
  respcode = codes "200";
  in_major = 1;
  in_minor = 0;
  in_length = known 0;
  msg = some (codes "hello");
  in_connection = none;
  in_origin = none;
  wildcard_origin = false;
  keepalive = false;
  buffers = [];
}

decimal_runs : decimal 1024 ≡ codes "1024"
unfolding decimal
decimal_runs = refl

ready_runs :
    http_complete ready
    ≡ some (
        codes "HTTP/1.0 200 OK"
        ++ (13 ∷ 10 ∷ [])
        ++ codes "Content-Length: 5"
        ++ (13 ∷ 10 ∷ 13 ∷ 10 ∷ [])
        ++ codes "hello")
unfolding http_complete params_printf params_apply same_name decimal entry_text
ready_runs = refl

listed-HasRoom : HasRoom listed
listed-HasRoom = record { room = omega arith; counted = omega arith }

ready-IsResponse : IsResponse listed
ready-IsResponse = record {
  has_room = listed-HasRoom;
  no_escape = refl;
  short_marks = omega arith;
  below = omega arith;
}

http_complete-text_example :
    http_complete ready
    ≡ some (text_of (final_headers ready 5) (final_headers ready 5).entries ++ codes "hello")
unfolding content_length
http_complete-text_example =
    http_complete-text ready first_line [] refl ready-IsResponse (λ k e. ground arith)
