-- ===== src/Common/Table.antt =====
-- SQL statements on a table, which is the list of its rows. The two parameters of a write are the
-- `WHERE` clause and the `SET` clause.
use mathlib.Core.Path.{◌≡◌, refl}
use mathlib.Core.Logic.{inl, inr}
use mathlib.Core.Bool.{Bool, true, false, not}
use mathlib.Core.Option.{Option, none, some}
use mathlib.Core.List.{List, [], ◌∷◌}
use native.Mathlib.Omega.{arith}
use dhava.Common.Tests.{Bool-cases, if◌then◌else◌}
use dhava.Common.Lists.{select, length}

module _ {ℓ} {A : Type ℓ} where
  -- the first row that `SELECT ... WHERE` finds
  unfoldable pub find : (A → Bool) → List A → Option A
  find p [] = none
  find p (x ∷ xs) = if p x then some x else find p xs

  -- `UPDATE ... SET ... WHERE`
  unfoldable pub update_where : (A → Bool) → (A → A) → List A → List A
  update_where p f [] = []
  update_where p f (x ∷ xs) = (if p x then f x else x) ∷ update_where p f xs

  -- `DELETE FROM ... WHERE`
  unfoldable pub delete_where : (A → Bool) → List A → List A
  delete_where p = select (λ x. not (p x))

  -- `INSERT ... ON CONFLICT DO UPDATE SET`: the test finds the row with the key of the new one.
  unfoldable pub upsert : (A → Bool) → (A → A) → A → List A → List A
  upsert same change row [] = row ∷ []
  upsert same change row (x ∷ xs) = if same x then change x ∷ xs else x ∷ upsert same change row xs

  -- what an upsert leaves in the row of its key
  abbrev pub upserted : (A → A) → A → Option A → A
  upserted change row none = row
  upserted change row (some x) = change x

  -- An upsert puts the row, or the changed row, under its key.
  pub find-upsert_self :
      (same : A → Bool) (change : A → A) (row : A) (xs : List A)
      → same row ≡ true
      → ((x : A) → same x ≡ true → same (change x) ≡ true)
      → find same (upsert same change row xs) ≡ some (upserted change row (find same xs))
  unfolding find upsert
  find-upsert_self same change row [] h k = ground arith
  find-upsert_self same change row (x ∷ xs) h k =
      ground (arith, k x, find-upsert_self same change row xs h k)

  -- It changes no row that the other test accepts, if that test accepts no row of the key.
  pub find-upsert_ne :
      (same other : A → Bool) (change : A → A) (row : A) (xs : List A)
      → other row ≡ false
      → ((x : A) → same x ≡ true → other x ≡ false)
      → ((x : A) → same x ≡ true → other (change x) ≡ false)
      → find other (upsert same change row xs) ≡ find other xs
  unfolding find upsert
  find-upsert_ne same other change row [] h k l = ground arith
  find-upsert_ne same other change row (x ∷ xs) h k l =
      ground (arith, k x, l x, find-upsert_ne same other change row xs h k l)

  -- What is found passes the test.
  pub find-accepts : (p : A → Bool) (xs : List A) (x : A) → find p xs ≡ some x → p x ≡ true
  unfolding find
  find-accepts p [] x h = cc
  find-accepts p (y ∷ xs) x h = elim (Bool-cases (p y)) [
    | inl e ↦ ground arith
    | inr e ↦ find-accepts p xs x (ground arith)
  ]

  pub length-update_where :
      (p : A → Bool) (f : A → A) (xs : List A) → length (update_where p f xs) ≡ length xs
  unfolding update_where
  length-update_where p f [] = refl
  length-update_where p f (x ∷ xs) = ground (arith, length-update_where p f xs)
