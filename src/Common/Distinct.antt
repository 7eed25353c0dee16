-- ===== src/Common/Distinct.antt =====
-- Keys that occur once, through the statements that write a table.
use mathlib.Core.Path.{◌≡◌, refl, ap, sym}
use mathlib.Core.Logic.{◌≢◌, ◌↔◌, inl, inr}
use mathlib.Core.Bool.{Bool, true}
use mathlib.Core.Option.{none}
use mathlib.Core.List.{List, [], ◌∷◌, ◌++◌, map}
use dhava.Common.Tests.{Bool-cases, if_intro}
use dhava.Common.Lists.{All, All-append, select}
use dhava.Common.Table.{find, update_where, upsert}

-- No key occurs twice.
abbrev pub Distinct {ℓ} : {K : Type ℓ} → List K → Type ℓ
Distinct [] = Unit
Distinct (k ∷ ks) = All (λ j. j ≢ k) ks × Distinct ks

pub Distinct-snoc {ℓ} :
    {K : Type ℓ} (ks : List K) (k : K) → Distinct ks → All (λ j. j ≢ k) ks → Distinct (ks ++ k ∷ [])
Distinct-snoc [] k d a = (tt, tt)
Distinct-snoc (j ∷ ks) k d a =
    (All-append (λ i. i ≢ j) ks (k ∷ []) d.0 (λ e. a.0 (sym e), tt), Distinct-snoc ks k d.1 a.1)

module _ {A K : Type 0} (key : A → K) where
  abbrev pub Keyed : List A → Type 0
  Keyed xs = Distinct (map key xs)

  -- The test accepts the rows with the key.
  abbrev pub Tests : (A → Bool) → K → Type 0
  Tests p k = (x : A) → (p x ≡ true) ↔ (key x ≡ k)

  pub keys-update_where :
      (p : A → Bool) (f : A → A) (xs : List A)
      → ((x : A) → key (f x) ≡ key x)
      → map key (update_where p f xs) ≡ map key xs
  unfolding update_where
  keys-update_where p f [] h = refl
  keys-update_where p f (x ∷ xs) h =
      if_intro (λ y. key y ∷ map key (update_where p f xs) ≡ key x ∷ map key xs) (p x) (f x) x
        (λ _. rw (h x, keys-update_where p f xs h)) (λ _. rw (keys-update_where p f xs h))

  pub keys_fresh :
      (p : A → Bool) (k : K) (xs : List A)
      → Tests p k
      → find p xs ≡ none
      → All (λ j. j ≢ k) (map key xs)
  unfolding find
  keys_fresh p k [] t h = tt
  keys_fresh p k (x ∷ xs) t h = elim (Bool-cases (p x)) [
    | inl e ↦ cc (rw e at h)
    | inr e ↦ (λ same. cc (e, (t x).1 same), keys_fresh p k xs t (rw e at h))
  ]

  keys-append : (xs ys : List A) → map key (xs ++ ys) ≡ map key xs ++ map key ys
  keys-append [] ys = refl
  keys-append (x ∷ xs) ys = ap (◌∷◌ (key x)) (keys-append xs ys)

  -- a row with a key that the table does not hold
  pub Keyed-append :
      (p : A → Bool) (xs : List A) (row : A)
      → Tests p (key row)
      → find p xs ≡ none
      → Keyed xs
      → Keyed (xs ++ row ∷ [])
  Keyed-append p xs row t h d =
      rw (keys-append xs (row ∷ []))
        (Distinct-snoc (map key xs) (key row) d (keys_fresh p (key row) xs t h))

  keys_select :
      (P : K → Type 0) (p : A → Bool) (xs : List A)
      → All P (map key xs)
      → All P (map key (select p xs))
  unfolding select
  keys_select P p [] h = tt
  keys_select P p (x ∷ xs) h =
      if_intro (λ ys. All P (map key ys)) (p x) (x ∷ select p xs) (select p xs)
        (λ _. (h.0, keys_select P p xs h.1)) (λ _. keys_select P p xs h.1)

  -- rows that are left of a table
  pub Keyed-select : (p : A → Bool) (xs : List A) → Keyed xs → Keyed (select p xs)
  unfolding select
  Keyed-select p [] d = tt
  Keyed-select p (x ∷ xs) d =
      if_intro Keyed (p x) (x ∷ select p xs) (select p xs)
        (λ _. (keys_select (λ j. j ≢ key x) p xs d.0, Keyed-select p xs d.1))
        (λ _. Keyed-select p xs d.1)

  keys_upsert :
      (P : K → Type 0) (p : A → Bool) (change : A → A) (row : A) (xs : List A)
      → ((x : A) → key (change x) ≡ key x)
      → P (key row)
      → All P (map key xs)
      → All P (map key (upsert p change row xs))
  unfolding upsert
  keys_upsert P p change row [] keeps r h = (r, tt)
  keys_upsert P p change row (x ∷ xs) keeps r h =
      if_intro (λ ys. All P (map key ys)) (p x) (change x ∷ xs) (x ∷ upsert p change row xs)
        (λ _. (rw (keeps x) (h.0), h.1)) (λ _. (h.0, keys_upsert P p change row xs keeps r h.1))

  -- a row that is put under its key
  pub Keyed-upsert :
      (p : A → Bool) (change : A → A) (row : A) (xs : List A)
      → Tests p (key row)
      → ((x : A) → key (change x) ≡ key x)
      → Keyed xs
      → Keyed (upsert p change row xs)
  unfolding upsert
  Keyed-upsert p change row [] t keeps d = (tt, tt)
  Keyed-upsert p change row (x ∷ xs) t keeps d =
      if_intro Keyed (p x) (change x ∷ xs) (x ∷ upsert p change row xs) (λ _. rw (keeps x) d)
        (λ e. (
          keys_upsert (λ j. j ≢ key x) p change row xs keeps (λ same. cc (e, (t x).1 (sym same)))
              d.0,
          Keyed-upsert p change row xs t keeps d.1,
        ))
