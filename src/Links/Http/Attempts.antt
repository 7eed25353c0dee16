-- ===== src/Links/Http/Attempts.antt =====
-- The attempts of an exchange over HTTP: how many there are, and which answer comes back.
use dhava.Common.{ℕ, zero, suc, ◌<◌, ◌≡◌, ◌⊎◌, inl, inr, refl, max, Option, none, some, arith}
use dhava.Result.{Result, ok, raise}
use dhava.Exec.{continue}
use dhava.Backend.{Bytes}
use dhava.Links.{Link, rescued}
use dhava.Links.Http.{Client, attempt, attempts, or_again, send_receive}

module _ {N : Type 0} (client : Client N) (request : Bytes) where
  -- So many attempts, one after the other, that bring no answer.
  pub data Fails : ℕ → Link N → Link N → Type 0 where
    no_more : {l : Link N} → Fails zero l l
    again :
        {n : ℕ} {l m : Link N}
        → (attempt client request l).0 ≡ ok none
        → Fails n (attempt client request l).1 m
        → Fails (suc n) l m

  -- The exchange ends at the first attempt that brings an answer, or after the last one.
  abbrev pub IsFirst : ℕ → Link N → Result (Option Bytes) × Link N → Type 0
  IsFirst n l run =
      ((run.0 ≡ ok none) × Fails n l run.1)
      ⊎ ((k : ℕ) × (k < n)
          × (m : Link N) × Fails k l m
          × (answer : Bytes) × (run.0 ≡ ok (some answer))
          × (attempt client request m ≡ (ok (some answer), run.1)))

  never_raises : (l : Link N) → (o : Option Bytes) × ((attempt client request l).0 ≡ ok o)
  unfolding attempt
  never_raises l = go _
    where
      go :
          (run : Result (Option Bytes) × Link N)
          → (o : Option Bytes) × ((rescued none run).0 ≡ ok o)
      go (ok o, m) = (o, refl)
      go (raise e, m) = (none, refl)

  later :
      (n : ℕ) (l : Link N)
      → (attempt client request l).0 ≡ ok none
      → (run : Result (Option Bytes) × Link N) → IsFirst n (attempt client request l).1 run
      → IsFirst (suc n) l run
  later n l failed run (inl (nothing, fails)) = inl (nothing, again failed fails)
  later n l failed run (inr (k, lt, m, fails, answer, returned, at)) =
      inr (suc k, omega (arith, lt), m, again failed fails, answer, returned, at)

  step :
      (n : ℕ) (l : Link N) (o : Option Bytes)
      → (attempt client request l).0 ≡ ok o
      → IsFirst n
          (attempt client request l).1
          (attempts client n request (attempt client request l).1)
      → IsFirst (suc n) l (
          continue
            (attempt client request l).0
            (λ answer. or_again client answer (attempts client n request))
            (attempt client request l).1)
  step n l (some answer) found ih =
      rw found (
        inr
          (0, omega arith, l, no_more, answer, refl, λ i. (found i, (attempt client request l).1)))
  step n l none found ih = rw found (later n l found _ ih)

  attempts-IsFirst : (n : ℕ) (l : Link N) → IsFirst n l (attempts client n request l)
  unfolding attempts
  attempts-IsFirst zero l = inl (refl, no_more)
  attempts-IsFirst (suc n) l =
      let o = never_raises l in step n l o.0 o.1 (attempts-IsFirst n (attempt client request l).1)

  -- An exchange makes at most as many attempts as the retry count, and one at least. None of them
  -- raises. The answer is that of the first attempt that brings one, after which no other is made;
  -- without any answer all of them failed.
  pub send_receive-IsFirst :
      (retry_count : ℕ) (l : Link N)
      → IsFirst (max 1 retry_count) l (send_receive client retry_count request l)
  unfolding send_receive
  send_receive-IsFirst retry_count l = attempts-IsFirst (max 1 retry_count) l
