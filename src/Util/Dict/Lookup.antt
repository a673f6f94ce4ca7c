-- ===== src/Util/Dict/Lookup.antt =====
-- What is found after something is set.
use mcaster1dnas.Base.{
  All, Bool-cases, Bytes, Option, Option-cases, [], arith, if◌then◌else◌, inl, inr, length, none,
  refl, some, str_eq, str_eq→eq, ◌<◌, ◌∷◌, ◌≡◌, ◌≢◌, ◌⊎◌, ap, false, if-cases, str_eq_refl, sym,
  true, ◌∙◌, subst,
}
use mcaster1dnas.Util.Dict.{Dict, dict_get, Node, dict_new, fill, dict_set, takes}

-- The value of the first node with a key, nodes without one passed over.
pub lookup : Dict → Bytes → Option Bytes
lookup [] key = none
lookup (n ∷ d) key =
    let rest = lookup d key in
    elim n.key [ none ↦ rest | some k ↦ if str_eq key k then n.val else rest ]

abbrev pub Keyed : Node → Type 0
Keyed n = n.key ≢ none

-- A dictionary as the functions leave it: new, or with a key in every node.
unfoldable pub IsDict : Dict → Type 0
IsDict d = (d ≡ dict_new) ⊎ All Keyed d

get-Keyed : (d : Dict) (key : Bytes) → All Keyed d → dict_get d key ≡ some (lookup d key)
unfolding dict_get lookup
get-Keyed [] key h = refl
get-Keyed (n ∷ d) key h = elim (Option-cases n.key) [
  | inl e ↦ absurd (h.0 e)
  | inr (k, e) ↦ elim (Bool-cases (str_eq key k)) [
    | inl f ↦ rw (e, f, dict_get, lookup)
    | inr f ↦ rw (e, f, dict_get, lookup) (get-Keyed d key h.1)
  ]
]

fill-Keyed : (d : Dict) (key val : Bytes) → All Keyed d → All Keyed (fill d key val)
unfolding fill
fill-Keyed [] key val h = (λ e. absurd (ground arith), tt)
fill-Keyed (n ∷ d) key val h =
    if-cases (All Keyed) (takes n key) _ (n ∷ fill d key val) (λ _. (keyed n.key key, h.1))
      (λ _. (h.0, fill-Keyed d key val h.1))
  where
    keyed : (o : Option Bytes) (key : Bytes) → elim o [ none ↦ some key | some k ↦ some k ] ≢ none
    keyed none key e = absurd (ground arith)
    keyed (some k) key e = absurd (ground arith)

-- One node with a key, before the nodes for which it holds.
lookup-fill_node :
    (k : Bytes) (v : Option Bytes) (d : Dict) (key val other : Bytes)
    → lookup (fill d key val) other ≡ (if str_eq other key then some val else lookup d other)
    → lookup (fill (record { key = some k; val = v } ∷ d) key val) other
      ≡ (if str_eq other key then some val else lookup (record { key = some k; val = v } ∷ d) other)
unfolding fill lookup
lookup-fill_node k v d key val other h = elim (Bool-cases (str_eq k key)) [
  | inl f ↦
      let same : k ≡ key = str_eq→eq k key f in
      elim (Bool-cases (str_eq other key)) [
        | inl g ↦
            rw (f, g) (ap (λ x. if str_eq other x then some val else lookup d other) same ∙ rw g)
        | inr g ↦ let g' : str_eq other k ≡ false = ap (str_eq other) same ∙ g in rw (f, g, g')
      ]
  | inr f ↦ elim (Bool-cases (str_eq other key)) [
    | inl g ↦
        let differs : str_eq other k ≡ false = elim (Bool-cases (str_eq other k)) [
          | inr q ↦ q
          | inl q ↦
              let eq : k ≡ key = sym (str_eq→eq other k q) ∙ str_eq→eq other key g in
              absurd (let x = str_eq_refl key in let y = ap (λ z. str_eq z key) eq in ground arith)
        ] in
        rw (f, differs, g) (h ∙ rw g)
    | inr g ↦ rw (f, g) (ap (λ x. if str_eq other k then v else x) (h ∙ rw g))
  ]
]

lookup-fill :
    (d : Dict) (key val other : Bytes)
    → All Keyed d
    → lookup (fill d key val) other ≡ (if str_eq other key then some val else lookup d other)
unfolding fill lookup
lookup-fill [] key val other h = refl
lookup-fill (n ∷ d) key val other h =
    (elim n.key
        as (λ x.
          x ≢ none
          → lookup (fill (record { key = x; val = n.val } ∷ d) key val) other ≡ (
              if str_eq other key
              then some val
              else lookup (record { key = x; val = n.val } ∷ d) other)) [
                | none ↦ λ q. absurd (q refl)
                | some k ↦
                    λ q. lookup-fill_node k n.val d key val other (lookup-fill d key val other h.1)
              ])
      (h.0)

abbrev Found : Bytes → Bytes → Bytes → Dict → Dict → Type 0
Found key val other d d' =
    IsDict d' × (dict_get d' other ≡ some (if str_eq other key then some val else lookup d other))

fill-Found_new : (key val other : Bytes) → Found key val other dict_new (fill dict_new key val)
unfolding fill lookup dict_get IsDict
fill-Found_new key val other = (
  inr (λ e. absurd (ground arith), tt),
  elim (Bool-cases (str_eq other key)) [ inl g ↦ rw g | inr g ↦ rw g ],
)

fill-Found_old :
    (d : Dict) (key val other : Bytes) → All Keyed d → Found key val other d (fill d key val)
unfolding IsDict
fill-Found_old d key val other h =
    let k = fill-Keyed d key val h in
    (inr k, get-Keyed (fill d key val) other k ∙ ap some (lookup-fill d key val other h))

fill-Found : (d : Dict) (key val other : Bytes) → IsDict d → Found key val other d (fill d key val)
unfolding IsDict
fill-Found d key val other h = elim h [
  | inl e ↦
      subst (λ d. Found key val other d (fill d key val)) (sym e) (fill-Found_new key val other)
  | inr k ↦ fill-Found_old d key val other k
]

-- After `util_dict_set` of a key in a dictionary that is not NULL, and is new or has a key in
-- every node, it returns 1 and leaves a key in every node; `util_dict_get` then finds the value at
-- the key, and at any other key the value of the first node with it.
pub dict_get-dict_set :
    (d : Dict) (key val other : Bytes)
    → IsDict d
    → 0 < length d
    → ((dict_set d (some key) val).0 ≡ true)
      × IsDict ((dict_set d (some key) val).1)
      × (dict_get ((dict_set d (some key) val).1) other
          ≡ some (if str_eq other key then some val else lookup d other))
unfolding dict_set
dict_get-dict_set [] key val other h k = absurd (omega arith)
dict_get-dict_set (n ∷ d) key val other h k =
    let r = fill-Found (n ∷ d) key val other h in (refl, r.0, r.1)
