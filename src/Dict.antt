-- ===== src/Dict.antt =====
-- Python's `dict` with text keys, as a list of items in insertion order. What a dict holds under a
-- key is the first item of the list with that key. A dict of the program has one item to a key; the
-- operations are defined on every list, so that their laws need no such hypothesis.
use dhava.Common.{
  String, ◌≡◌, refl, Bool, false, ◌||◌, not, Option, none, some, List, [], ◌∷◌, ◌++◌, arith, str_eq,
  str_eq_iff, if◌then◌else◌, select, Bool-cases, inl, inr,
}

abbrev pub Dict {ℓ} : Type ℓ → Type ℓ
Dict V = List (String × V)

-- `k in xs`
unfoldable pub elem : String → List String → Bool
elem k [] = false
elem k (x ∷ xs) = str_eq x k || elem k xs

-- `set(xs) | set(ys)`
unfoldable pub union : List String → List String → List String
union xs ys = xs ++ select (λ y. not (elem y xs)) ys

module _ {ℓ} {V : Type ℓ} where
  -- `list(d.keys())`
  unfoldable pub keys : Dict V → List String
  keys [] = []
  keys ((k, _) ∷ d) = k ∷ keys d

  -- `d.get(k)`
  unfoldable pub get : String → Dict V → Option V
  get k [] = none
  get k ((j, v) ∷ d) = if str_eq j k then some v else get k d

  -- `d[k] = v`
  unfoldable pub set : String → V → Dict V → Dict V
  set k v [] = (k, v) ∷ []
  set k v ((j, w) ∷ d) = if str_eq j k then (k, v) ∷ d else (j, w) ∷ set k v d

  -- `d.pop(k, None)`
  unfoldable pub erase : String → Dict V → Dict V
  erase k [] = []
  erase k ((j, w) ∷ d) = let rest = erase k d in if str_eq j k then rest else (j, w) ∷ rest

  -- `{k: v for k, v in d.items() if p(v)}`. The item that a key shows decides for that key.
  unfoldable pub filter_values : (V → Bool) → Dict V → Dict V
  filter_values p [] = []
  filter_values p ((k, v) ∷ d) =
      let rest = filter_values p d in if p v then (k, v) ∷ rest else erase k rest

  -- `d.update(e)`. The order of new keys is not modelled: the program stores dicts with sorted keys.
  unfoldable pub update : Dict V → Dict V → Dict V
  update d [] = d
  update d ((k, v) ∷ e) = set k v (update d e)

  pub get-set :
      (j k : String) (v : V) (d : Dict V)
      → get j (set k v d) ≡ (if str_eq k j then some v else get j d)
  unfolding get set
  get-set j k v [] = refl
  get-set j k v ((i, w) ∷ d) =
      ground (arith, str_eq_iff k j, str_eq_iff i k, str_eq_iff i j, get-set j k v d)

  pub get-erase :
      (j k : String) (d : Dict V) → get j (erase k d) ≡ (if str_eq k j then none else get j d)
  unfolding get erase
  get-erase j k [] = ground arith
  get-erase j k ((i, w) ∷ d) =
      ground (arith, str_eq_iff k j, str_eq_iff i k, str_eq_iff i j, get-erase j k d)

  abbrev pub keep_if : (V → Bool) → Option V → Option V
  keep_if p none = none
  keep_if p (some v) = if p v then some v else none

  pub get-filter_values :
      (p : V → Bool) (j : String) (d : Dict V) → get j (filter_values p d) ≡ keep_if p (get j d)
  unfolding get filter_values
  get-filter_values p j [] = refl
  get-filter_values p j ((i, w) ∷ d) =
      ground (arith, str_eq_iff i j, get-filter_values p j d, get-erase j i (filter_values p d))

  -- what the second dict holds, or else what the first one holds
  abbrev pub or_else : Option V → Option V → Option V
  or_else none o = o
  or_else (some v) o = some v

  pub get-update : (j : String) (d e : Dict V) → get j (update d e) ≡ or_else (get j e) (get j d)
  unfolding get update
  get-update j d [] = refl
  get-update j d ((k, v) ∷ e) = ground (arith, get-set j k v (update d e), get-update j d e)

  pub get_of_elem : (k : String) (d : Dict V) → elem k (keys d) ≡ false → get k d ≡ none
  unfolding elem keys get
  get_of_elem k [] h = refl
  get_of_elem k ((j, v) ∷ d) h = ground (arith, get_of_elem k d)

pub elem-append : (k : String) (xs ys : List String) → elem k (xs ++ ys) ≡ (elem k xs || elem k ys)
unfolding elem
elem-append k [] ys = refl
elem-append k (x ∷ xs) ys = ground (arith, elem-append k xs ys)

elem-select :
    (k : String) (xs ys : List String)
    → elem k xs ≡ false
    → elem k (select (λ y. not (elem y xs)) ys) ≡ elem k ys
unfolding elem select
elem-select k xs [] h = refl
elem-select k xs (y ∷ ys) h = elim (Bool-cases (str_eq y k)) [
  | inl same ↦ ground (arith, str_eq_iff y k, elem-select k xs ys)
  | inr differ ↦ ground (arith, elem-select k xs ys)
]

-- A text is in the union exactly if it is in one of the two.
pub elem-union :
    (k : String) (xs ys : List String) → elem k (union xs ys) ≡ (elem k xs || elem k ys)
unfolding union
elem-union k xs ys = rw elem-append (ground (arith, elem-select k xs ys))
