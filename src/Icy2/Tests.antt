-- ===== src/Icy2/Tests.antt =====
-- Runs on the headers of a request, and an instance of their theorem.
use mcaster1dnas.Params.Output.{decimal}
use mcaster1dnas.Base.{[], codes, if◌then◌else◌, none, refl, some, str_eq, ◌∷◌, ◌≡◌}
use mcaster1dnas.Icy2.Headers.{all_rows}
use mcaster1dnas.Icy2.Stats.{all_stats}
use mcaster1dnas.Icy2.Meta.{
  Request, apply_icy2, atoi, copy_to_stats, getvar, is_icy2, parse_headers, parse_rows, report_rows,
  reported,
}
use mcaster1dnas.Icy2.Report.{wanted, apply_icy2-wanted}

-- A request with a version, a name under its old header, a bitrate and a flag that is not set.
abbrev show : Request
show f =
    if str_eq f (codes "icy-meta-version")
    then some (codes "2.2")
    else if str_eq f (codes "icy-name")
    then some (codes "Night")
    else if str_eq f (codes "icy-meta-br")
    then some (codes " 128kbps")
    else if str_eq f (codes "icy-nsfw")
    then some (codes "-1")
    else none

show_report :
    apply_icy2 show
    ≡ (codes "icy2-version", codes "2.2")
      ∷ (codes "server_name", codes "Night")
      ∷ (codes "bitrate", codes "128")
      ∷ []
unfolding apply_icy2 is_icy2 getvar copy_to_stats report_rows reported parse_headers parse_rows atoi
    decimal
show_report = refl

apply_icy2-wanted_example :
    apply_icy2 show ≡ (if is_icy2 show then wanted show all_rows all_stats else [])
apply_icy2-wanted_example = apply_icy2-wanted show
