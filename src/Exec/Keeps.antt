-- ===== src/Exec/Keeps.antt =====
-- Relations between the states before and after a method, whether it returns or raises.
use dhava.Result.{Result, ok, raise}
use dhava.Exec.{Exec, continue, ◌>>=◌}

abbrev pub Keeps : {S A : Type 0} → (S → S → Type 0) → Exec S A → Type 0
Keeps {S} R m = (s : S) → R s (m s).1

pub record IsPreorder {S : Type 0} (R : S → S → Type 0) : Type 0 where
  pub same : (s : S) → R s s
  pub trans : (s t u : S) → R s t → R t u → R s u

-- The relation between the parts that a function reads.
abbrev pub OnPart : {S T : Type 0} → (S → T) → (T → T → Type 0) → S → S → Type 0
OnPart f R s t = R (f s) (f t)

module _ {S : Type 0} (R : S → S → Type 0) (po : IsPreorder R) where
  pub OnPart-IsPreorder : {T : Type 0} (f : T → S) → IsPreorder (OnPart f R)
  OnPart-IsPreorder f = record {
    same = λ t. po.same (f t);
    trans = λ t u v h k. po.trans (f t) (f u) (f v) h k;
  }

  module _ {A B : Type 0} where
    keeps_continue :
        (f : A → Exec S B) (before : S) (run : Result A × S)
        → R before run.1
        → ((a : A) → Keeps R (f a))
        → R before (continue run.0 f run.1).1
    keeps_continue f before (ok a, s) h k = po.trans before s (f a s).1 h (k a s)
    keeps_continue f before (raise e, s) h k = h

    pub Keeps->>= :
        (m : Exec S A) (f : A → Exec S B)
        → Keeps R m
        → ((a : A) → Keeps R (f a))
        → Keeps R (m >>= f)
    Keeps->>= m f h k s = keeps_continue f s (m s) (h s) k
