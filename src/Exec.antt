-- ===== src/Exec.antt =====
-- Methods that change an object and may raise: what was written before a raise stays written.
pub mod Ensures
pub mod Keeps
pub mod Succeeds
use dhava.Common.{String, ◌≡◌, List, [], ◌∷◌}
use dhava.Result.{Result, ok, raise}

abbrev pub Exec : Type 0 → Type 0 → Type 0
Exec S A = S → Result A × S

module _ {S A : Type 0} where
  abbrev pub pure : A → Exec S A
  pure a s = (ok a, s)

  abbrev pub throw : String → Exec S A
  throw e s = (raise e, s)

  abbrev pub lift : Result A → Exec S A
  lift r s = (r, s)

  -- reads the state, and changes nothing
  abbrev pub gets : (S → A) → Exec S A
  gets f s = (ok (f s), s)

abbrev pub modify : {S : Type 0} → (S → S) → Exec S (Unit {0})
modify f s = (ok tt, f s)

module _ {S A B : Type 0} where
  abbrev pub continue : Result A → (A → Exec S B) → Exec S B
  continue (ok a) f s = f a s
  continue (raise e) f s = (raise e, s)

  infixl 5 ◌>>=◌ ◌>>◌
  abbrev pub ◌>>=◌ : Exec S A → (A → Exec S B) → Exec S B
  ◌>>=◌ m f s = let (r, s') = m s in continue r f s'

  abbrev pub ◌>>◌ : Exec S A → Exec S B → Exec S B
  m >> k = m >>= λ _. k

-- `for x in xs: body(x)`
abbrev pub for_each : {S A : Type 0} → List A → (A → Exec S (Unit {0})) → Exec S (Unit {0})
for_each [] body s = (ok tt, s)
for_each (x ∷ xs) body s = continue (body x s).0 (λ _. for_each xs body) (body x s).1

-- A step that is followed by `return x` returns nothing else.
pub result_of_continue :
    {S A : Type 0} (r : Result (Unit {0})) (x y : A) (s : S)
    → (continue r (λ _. pure x) s).0 ≡ ok y
    → x ≡ y
result_of_continue (ok _) x y s h = cc h
result_of_continue (raise e) x y s h = cc h
