-- ===== src/Exec/Ensures.antt =====
-- What a method ensures of its result and of the state if it returns.
use dhava.Common.{Bool, true, false, if◌then◌else◌}
use dhava.Result.{Result, ok, raise}
use dhava.Exec.{Exec, continue, ◌>>=◌, ◌>>◌}

abbrev pub OkPost : {S A : Type 0} → (A → S → Type 0) → Result A × S → Type 0
OkPost Q (ok a, s) = Q a s
OkPost Q (raise e, s) = Unit

abbrev pub Ensures : {S A : Type 0} → (S → Type 0) → Exec S A → (A → S → Type 0) → Type 0
Ensures {S} P m Q = (s : S) → P s → OkPost Q (m s)

-- no matter with what result
abbrev pub Always : {S A : Type 0} → (S → Type 0) → A → S → Type 0
Always P a s = P s

pub OkPost-any :
    {S A : Type 0} (Q : A → S → Type 0) (run : Result A × S) → ((a : A) → Q a run.1) → OkPost Q run
OkPost-any Q (ok a, s) h = h a
OkPost-any Q (raise e, s) h = tt

module _ {S A B : Type 0} where
  OkPost-continue :
      (Q : A → S → Type 0) (R : B → S → Type 0) (f : A → Exec S B) (run : Result A × S)
      → OkPost Q run
      → ((a : A) → Ensures (Q a) (f a) R)
      → OkPost R (continue run.0 f run.1)
  OkPost-continue Q R f (ok a, s) h k = k a s h
  OkPost-continue Q R f (raise e, s) h k = tt

  pub Ensures->>= :
      (P : S → Type 0) (Q : A → S → Type 0) (R : B → S → Type 0) (m : Exec S A) (f : A → Exec S B)
      → Ensures P m Q
      → ((a : A) → Ensures (Q a) (f a) R)
      → Ensures P (m >>= f) R
  Ensures->>= P Q R m f h k s p = OkPost-continue Q R f (m s) (h s p) k

pub Ensures->> :
    {S A B : Type 0} (P Q R : S → Type 0) (m : Exec S A) (k : Exec S B)
    → Ensures P m (Always Q)
    → Ensures Q k (Always R)
    → Ensures P (m >> k) (Always R)
Ensures->> P Q R m k h l = Ensures->>= P (Always Q) (Always R) m (λ _. k) h (λ _. l)

pub Ensures_if :
    {S A : Type 0} (P : S → Type 0) (Q : A → S → Type 0) (b : Bool) (m k : Exec S A)
    → Ensures P m Q
    → Ensures P k Q
    → Ensures P (if b then m else k) Q
Ensures_if P Q true m k h l = h
Ensures_if P Q false m k h l = l
