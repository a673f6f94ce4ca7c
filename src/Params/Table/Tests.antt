-- ===== src/Params/Table/Tests.antt =====
-- Runs of the list of headers, and instances of its theorems.
use mcaster1dnas.Params.Table.Update.{
  IsUnique, value_of, params_apply-IsUnique, find_entry-apply_plain,
}
use mcaster1dnas.Params.Table.Size.{HasRoom, store-HasRoom}
use mcaster1dnas.Params.Table.{
  Params, find_entry, params_apply, stored_value, setup, same_name, store, pass, keeps, Param,
  apply_plain,
}
use mcaster1dnas.Base.{Bytes, [], arith, codes, false, map, refl, some, true, ◌∷◌, ◌≡◌}

abbrev empty_list : Params
empty_list = record {
  entries = [];
  len = 1;
  escaped = false;
  extra_len = 0;
  entry_end = 13 ∷ 10 ∷ [];
  entry_div = codes ": ";
}

setup_empty : setup (codes ": ") (13 ∷ 10 ∷ []) false ≡ empty_list
unfolding setup
setup_empty = refl

-- A constant entry, and one that may be there several times.
abbrev listed : Params
listed = record empty_list {
  entries =
      record {
        name = codes "Vary";
        value = codes "Origin";
        flags = record pass { multi = true };
        name_len = 6;
        value_len = 8;
      }
      ∷ [];
  len = 15;
}

listed_twice :
    map
      (λ (p : Param). p.value)
      (params_apply listed ((codes "vary", pass, some (codes "Accept")) ∷ [])).entries
    ≡ codes "Accept" ∷ []
unfolding params_apply same_name
listed_twice = refl

params_apply-IsUnique_example :
    IsUnique
      (params_apply listed
        ((codes "vary", record pass { multi = true }, some (codes "*")) ∷ [])).entries
unfolding find_entry
params_apply-IsUnique_example =
    params_apply-IsUnique listed
      ((codes "vary", record pass { multi = true }, some (codes "*")) ∷ []) (refl, tt)

find_entry-apply_plain_example :
    (value_of (
        find_entry
          (codes "Age")
          (apply_plain listed (codes "Age") pass (some (codes "9"))).0.entries)
      ≡ some (codes "9"))
    × ((m : Bytes)
        → same_name (codes "Age") m ≡ false
        → find_entry m (apply_plain listed (codes "Age") pass (some (codes "9"))).0.entries
          ≡ find_entry m listed.entries)
unfolding find_entry same_name
find_entry-apply_plain_example =
    find_entry-apply_plain listed b'A' (codes "ge") (codes "9") pass refl

listed-HasRoom : HasRoom listed
listed-HasRoom = record { room = omega arith; counted = omega arith }

store-HasRoom_example : HasRoom (store listed (codes "vary") pass (some (codes "*")) keeps)
unfolding stored_value
store-HasRoom_example =
    store-HasRoom listed (codes "vary") pass (some (codes "*")) keeps listed-HasRoom (omega arith)
