-- ===== src/Links/Stream/Ends.antt =====
-- transports/tcp.py: how the loop that reads from a socket ends, for any socket.
use dhava.Common.{
  ℕ, zero, suc, String, ◌+◌, ◌-◌, ◌≤◌, ◌<◌, ◌≡◌, refl, inl, inr, false, [], ◌∷◌, ◌++◌, ltb, length,
  arith, Bool-cases, length-append,
}
use dhava.Result.{Result, ok, raise}
use dhava.Exec.{Exec, continue}
use dhava.Backend.{Bytes}
use dhava.Links.Stream.{Reading, complete, closed, unless_closed, recv_loop, recv_exactly}

module _ {N : Type 0} (recv : ℕ → Exec N Bytes) (size : ℕ) where
  -- Calls that each ask for what is missing and return some bytes: what there is before them and after
  -- them, with the states.
  pub data Receives : Bytes → N → Bytes → N → Type 0 where
    nothing : {got : Bytes} {s : N} → Receives got s got s
    chunk :
        {got piece all : Bytes} {s t u : N}
        → length got < size
        → recv (size - length got) s ≡ (ok piece, t)
        → 0 < length piece
        → Receives (got ++ piece) t all u
        → Receives got s all u

  -- How the loop may end from some bytes: with enough of them, with a call that returns no byte, or
  -- with a call that raises. The calls before the last returned bytes.
  pub data Ends (got : Bytes) (s : N) : Result Reading × N → Type 0 where
    whole :
        {all : Bytes} {t : N}
        → Receives got s all t
        → size ≤ length all
        → Ends got s (ok (complete all), t)
    broken_off :
        {all : Bytes} {t u : N}
        → Receives got s all t
        → length all < size
        → recv (size - length all) t ≡ (ok [], u)
        → Ends got s (ok closed, u)
    failed :
        {all : Bytes} {t u : N} {problem : String}
        → Receives got s all t
        → length all < size
        → recv (size - length all) t ≡ (raise problem, u)
        → Ends got s (raise problem, u)

  after_chunk :
      {got piece : Bytes} {s t : N} {run : Result Reading × N}
      → length got < size
      → recv (size - length got) s ≡ (ok piece, t)
      → 0 < length piece
      → Ends (got ++ piece) t run
      → Ends got s run
  after_chunk less at some_bytes (whole r enough) = whole (chunk less at some_bytes r) enough
  after_chunk less at some_bytes (broken_off r short last) =
      broken_off (chunk less at some_bytes r) short last
  after_chunk less at some_bytes (failed r short last) =
      failed (chunk less at some_bytes r) short last

  call-Ends :
      (turns : ℕ) (got : Bytes) (s : N)
      → ((more : Bytes) (t : N)
          → size ≤ turns + length more
          → Ends more t (recv_loop recv turns size more t))
      → size ≤ suc turns + length got
      → length got < size
      → (run : Result Bytes × N) → recv (size - length got) s ≡ run
      → Ends got s (
          continue run.0
            (λ piece. unless_closed piece (recv_loop recv turns size (got ++ piece)))
            run.1)
  call-Ends turns got s ih h less (raise problem, t) at = failed nothing less at
  call-Ends turns got s ih h less (ok [], t) at = broken_off nothing less at
  call-Ends turns got s ih h less (ok (b ∷ bs), t) at =
      after_chunk less at (omega arith)
        (ih (got ++ b ∷ bs) t (omega (arith, h, length-append {0} got (b ∷ bs))))

  recv_loop-Ends :
      (turns : ℕ) (got : Bytes) (s : N)
      → size ≤ turns + length got
      → Ends got s (recv_loop recv turns size got s)
  unfolding recv_loop
  recv_loop-Ends zero got s h =
      let enough : ltb (length got) size ≡ false = ground (arith, h) in
      rw (recv_loop, enough) (whole nothing (omega (arith, h)))
  recv_loop-Ends (suc turns) got s h = elim (Bool-cases (ltb (length got) size)) [
    | inl more ↦
        rw (recv_loop, more)
          (call-Ends turns got s (recv_loop-Ends turns) h (ground (arith, more))
            (recv (size - length got) s) refl)
    | inr done ↦ rw (recv_loop, done) (whole nothing (ground (arith, done)))
  ]

  -- The loop ends, whatever the socket does, in one of three ways: with the bytes that its calls
  -- returned, in their order, once they are as many as asked; with the end of the stream, when a call
  -- returns no byte before that; or with the exception of a call. Every call asks for what is missing.
  pub recv_exactly-Ends : (s : N) → Ends [] s (recv_exactly recv size s)
  unfolding recv_exactly
  recv_exactly-Ends s = recv_loop-Ends size [] s (omega arith)
