-- ===== src/Exec/Succeeds.antt =====
-- Methods that return: from a state with a property they give a result, and what holds then.
use dhava.Common.{◌≡◌}
use dhava.Result.{Result, ok}
use dhava.Exec.{Exec, continue, ◌>>=◌}

abbrev pub Returns : {S A : Type 0} → Result A × S → (A → S → Type 0) → Type 0
Returns {S} {A} run Q = (a : A) × (run.0 ≡ ok a) × Q a run.1

abbrev pub Succeeds : {S A : Type 0} → (S → Type 0) → Exec S A → (A → S → Type 0) → Type 0
Succeeds {S} P m Q = (s : S) → P s → Returns (m s) Q

module _ {S A B : Type 0} where
  pub Returns-continue :
      (Q : A → S → Type 0) (R : B → S → Type 0) (f : A → Exec S B) (run : Result A × S)
      → Returns run Q
      → ((a : A) → Q a run.1 → Returns (f a run.1) R)
      → Returns (continue run.0 f run.1) R
  Returns-continue Q R f run (a, e, q) k = rw e (k a q)

  pub Succeeds->>= :
      (P : S → Type 0) (Q : A → S → Type 0) (R : B → S → Type 0) (m : Exec S A) (f : A → Exec S B)
      → Succeeds P m Q
      → ((a : A) → Succeeds (Q a) (f a) R)
      → Succeeds P (m >>= f) R
  Succeeds->>= P Q R m f h k s p = Returns-continue Q R f (m s) (h s p) (λ a q. k a (m s).1 q)
