-- ===== src/Util/Dict/Tests.antt =====
-- Runs of the dictionaries, and an instance of their theorem.
use mcaster1dnas.Util.Uri.{url_escape, escape_bytes, escape_byte, is_safe}
use mcaster1dnas.Base.{arith, codes, if◌then◌else◌, none, refl, some, str_eq, true, ◌≡◌, inl}
use mcaster1dnas.Util.Dict.{
  Dict, dict_set, dict_get, dict_new, dict_urlencode, fill, urlencode_from,
}
use mcaster1dnas.Util.Dict.Lookup.{dict_get-dict_set, IsDict, lookup}

abbrev named : Dict
named = (dict_set dict_new (some (codes "a")) (codes "1 2")).1

-- A new dictionary has a node without a key, at which `util_dict_get` compares with NULL.
new_faults : dict_get dict_new (codes "a") ≡ none
unfolding dict_get
new_faults = refl

named_text : dict_urlencode named b'&' ≡ some (codes "a=1%202")
unfolding dict_urlencode urlencode_from dict_set fill url_escape escape_bytes escape_byte is_safe
named_text = refl

dict_new-IsDict : IsDict dict_new
unfolding IsDict
dict_new-IsDict = inl refl

dict_get-dict_set_example :
    ((dict_set dict_new (some (codes "b")) (codes "2")).0 ≡ true)
    × IsDict ((dict_set dict_new (some (codes "b")) (codes "2")).1)
    × (dict_get ((dict_set dict_new (some (codes "b")) (codes "2")).1) (codes "a")
        ≡ some (
            if str_eq (codes "a") (codes "b")
            then some (codes "2")
            else lookup dict_new (codes "a")))
dict_get-dict_set_example =
    dict_get-dict_set dict_new (codes "b") (codes "2") (codes "a") dict_new-IsDict (omega arith)
