-- ===== src/Common/Sort.antt =====
-- `ORDER BY`: a stable insertion sort, for a Boolean order.
use mathlib.Core.Path.{◌≡◌, refl}
use mathlib.Core.Bool.{Bool, true, false}
use mathlib.Core.List.{List, [], ◌∷◌, ◌++◌, Perm}
use mathlib.Core.List.Perm
use dhava.Common.Tests.{if◌then◌else◌, if_intro}
use Prim.Native.Nat.{ℕ, zero, suc}
use native.Mathlib.Omega.{arith}
use dhava.Common.Lists.{
  All, length, take, drop, select, All-intro, All-pair, All-append_right, All-take, All-select,
  take-append-drop,
}

-- An order that a query can sort by.
pub record IsOrder {ℓ} {A : Type ℓ} (leq : A → A → Bool) : Type ℓ where
  pub total : (x y : A) → leq x y ≡ false → leq y x ≡ true
  pub trans : (x y z : A) → leq x y ≡ true → leq y z ≡ true → leq x z ≡ true

module _ {ℓ} {A : Type ℓ} (leq : A → A → Bool) where
  pub place : A → List A → List A
  place x [] = x ∷ []
  place x (y ∷ ys) = let rest = place x ys in if leq x y then x ∷ y ∷ ys else y ∷ rest

  unfoldable pub sort : List A → List A
  unfolding place
  sort [] = []
  sort (x ∷ xs) = place x (sort xs)

  -- Every item is in order with each one after it.
  abbrev pub IsSorted : List A → Type 0
  IsSorted [] = Unit
  IsSorted (x ∷ xs) = All (λ y. leq x y ≡ true) xs × IsSorted xs

  place-perm : (x : A) (ys : List A) → Perm (place x ys) (x ∷ ys)
  unfolding place
  place-perm x [] = Perm.refl (x ∷ [])
  place-perm x (y ∷ ys) =
      if_intro (λ l. Perm l (x ∷ y ∷ ys)) (leq x y) (x ∷ y ∷ ys) (y ∷ place x ys)
        (λ _. Perm.refl (x ∷ y ∷ ys))
        (λ _. Perm.trans (Perm.cons y (place-perm x ys)) (Perm.swap x y ys))

  -- A sorted list has the same items.
  pub sort-perm : (xs : List A) → Perm (sort xs) xs
  unfolding sort
  sort-perm [] = Perm.refl []
  sort-perm (x ∷ xs) = Perm.trans (place-perm x (sort xs)) (Perm.cons x (sort-perm xs))

  abbrev keep : (A → Bool) → A → List A → List A
  keep p x l = if p x then x ∷ l else l

  keep-Perm : (p : A → Bool) (x : A) {l m : List A} → Perm l m → Perm (keep p x l) (keep p x m)
  keep-Perm p x {l} {m} h = go (p x)
    where
      go : (b : Bool) → Perm (if b then x ∷ l else l) (if b then x ∷ m else m)
      go true = Perm.cons x h
      go false = h

  keep-swap :
      (p : A → Bool) (x y : A) (l : List A) → Perm (keep p x (keep p y l)) (keep p y (keep p x l))
  keep-swap p x y l = go (p x) (p y)
    where
      go :
          (b c : Bool)
          → let under : Bool → A → List A → List A = λ d z m. if d then z ∷ m else m in
            Perm (under b x (under c y l)) (under c y (under b x l))
      go true true = Perm.swap y x l
      go true false = Perm.refl (x ∷ l)
      go false true = Perm.refl (y ∷ l)
      go false false = Perm.refl l

  select-place :
      (p : A → Bool) (x : A) (ys : List A) → Perm (select p (place x ys)) (select p (x ∷ ys))
  unfolding place select
  select-place p x [] = Perm.refl (select p (x ∷ []))
  select-place p x (y ∷ ys) =
      if_intro (λ l. Perm (select p l) (select p (x ∷ y ∷ ys))) (leq x y) (x ∷ y ∷ ys)
        (y ∷ place x ys) (λ _. Perm.refl (select p (x ∷ y ∷ ys)))
        (λ _. Perm.trans (keep-Perm p y (select-place p x ys)) (keep-swap p y x (select p ys)))

  -- What is selected of a sorted list has the items that are selected of the list.
  pub select-sort-perm : (p : A → Bool) (xs : List A) → Perm (select p (sort xs)) (select p xs)
  unfolding sort select
  select-sort-perm p [] = Perm.refl []
  select-sort-perm p (x ∷ xs) =
      Perm.trans (select-place p x (sort xs)) (keep-Perm p x (select-sort-perm p xs))

  All-place : (P : A → Type 0) (x : A) (ys : List A) → P x → All P ys → All P (place x ys)
  unfolding place
  All-place P x [] px h = (px, tt)
  All-place P x (y ∷ ys) px h =
      if_intro (All P) (leq x y) (x ∷ y ∷ ys) (y ∷ place x ys) (λ _. (px, h))
        (λ _. (h.0, All-place P x ys px h.1))

  -- What holds of every item holds of every item after sorting.
  pub All-sort : (P : A → Type 0) (xs : List A) → All P xs → All P (sort xs)
  unfolding sort
  All-sort P [] h = tt
  All-sort P (x ∷ xs) h = All-place P x (sort xs) h.0 (All-sort P xs h.1)

  length-place : (x : A) (ys : List A) → length (place x ys) ≡ suc (length ys)
  unfolding place
  length-place x [] = refl
  length-place x (y ∷ ys) = ground (arith, length-place x ys)

  pub length-sort : (xs : List A) → length (sort xs) ≡ length xs
  unfolding sort
  length-sort [] = refl
  length-sort (x ∷ xs) = omega (arith, length-place x (sort xs), length-sort xs)

  pub take-IsSorted : (n : ℕ) (xs : List A) → IsSorted xs → IsSorted (take n xs)
  take-IsSorted zero xs h = tt
  take-IsSorted (suc n) [] h = tt
  take-IsSorted (suc n) (x ∷ xs) h =
      (All-take (λ y. leq x y ≡ true) n xs h.0, take-IsSorted n xs h.1)

  pub drop-IsSorted : (n : ℕ) (xs : List A) → IsSorted xs → IsSorted (drop n xs)
  drop-IsSorted zero xs h = h
  drop-IsSorted (suc n) [] h = tt
  drop-IsSorted (suc n) (x ∷ xs) h = drop-IsSorted n xs h.1

  pub select-IsSorted : (p : A → Bool) (xs : List A) → IsSorted xs → IsSorted (select p xs)
  unfolding select
  select-IsSorted p [] h = tt
  select-IsSorted p (x ∷ xs) h =
      if_intro IsSorted (p x) (x ∷ select p xs) (select p xs)
        (λ _. (All-select (λ y. leq x y ≡ true) p xs h.0, select-IsSorted p xs h.1))
        (λ _. select-IsSorted p xs h.1)

  beyond : (xs ys : List A) → IsSorted (xs ++ ys) → All (λ y. All (λ x. leq x y ≡ true) xs) ys
  beyond [] ys h = All-intro (λ y. Unit) (λ y. tt) ys
  beyond (x ∷ xs) ys h =
      All-pair (λ y. leq x y ≡ true) (λ y. All (λ z. leq z y ≡ true) xs) ys
        (All-append_right (λ y. leq x y ≡ true) xs ys h.0) (beyond xs ys h.1)

  -- In a sorted list what is cut off comes after all that is kept.
  pub take-beyond-drop :
      (n : ℕ) (xs : List A)
      → IsSorted xs
      → All (λ y. All (λ x. leq x y ≡ true) (take n xs)) (drop n xs)
  take-beyond-drop n xs h = beyond (take n xs) (drop n xs) (rw (take-append-drop n xs) h)

  module _ (o : IsOrder leq) where
    above :
        (x y : A) (ys : List A)
        → leq x y ≡ true
        → All (λ z. leq y z ≡ true) ys
        → All (λ z. leq x z ≡ true) ys
    above x y [] h k = tt
    above x y (z ∷ ys) h k = (o.trans x y z h k.0, above x y ys h k.1)

    place-IsSorted : (x : A) (ys : List A) → IsSorted ys → IsSorted (place x ys)
    unfolding place
    place-IsSorted x [] h = (tt, tt)
    place-IsSorted x (y ∷ ys) h =
        if_intro IsSorted (leq x y) (x ∷ y ∷ ys) (y ∷ place x ys)
          (λ e. ((e, above x y ys e h.0), h))
          (λ e. (All-place (λ z. leq y z ≡ true) x ys (o.total x y e) h.0, place-IsSorted x ys h.1))

    -- A sorted list is in order.
    pub sort-IsSorted : (xs : List A) → IsSorted (sort xs)
    unfolding sort
    sort-IsSorted [] = tt
    sort-IsSorted (x ∷ xs) = place-IsSorted x (sort xs) (sort-IsSorted xs)
