-- ===== src/Links/Stream.antt =====
-- The loop that reads a given number of bytes from a socket, of which each call returns some.
pub mod Ends
use dhava.Common.{
  ℕ, zero, suc, ◌+◌, ◌-◌, ◌≤◌, ◌<◌, ◌≡◌, inl, inr, refl, sym, ap, ◌∙◌, true, false, [], ◌∷◌, ◌++◌,
  ltb, length, drop, arith, Bool-cases, length-append,
}
use mathlib.Core.List.{append-nil, append_assoc}
use dhava.Result.{Result, ok, raise}
use dhava.Exec.{Exec, ◌>>=◌, pure, continue}
use dhava.Backend.{Bytes}

-- How the loop ends: with the bytes, with the end of the stream before them, or out of turns.
pub data Reading : Type 0 where
  complete : Bytes → Reading
  closed : Reading
  exhausted : Reading

split_front :
    (xs ys ws rest : Bytes)
    → length xs ≤ length ws
    → xs ++ ys ≡ ws ++ rest
    → (xs ++ drop (length xs) ws ≡ ws) × (ys ≡ drop (length xs) ws ++ rest)
split_front [] ys ws rest h e = (refl, e)
split_front (x ∷ xs) ys [] rest h e = ground (arith, h)
split_front (x ∷ xs) ys (w ∷ ws) rest h e =
    let k = split_front xs ys ws rest (omega (arith, h)) (cc e) in (cc (k.0, e), k.1)

not_less : (size n : ℕ) → n ≡ size → ltb n size ≡ false
not_less size n h = ground (arith, h)

module _ {N : Type 0} where
  -- `if not chunk: return None`
  abbrev pub unless_closed : Bytes → Exec N Reading → Exec N Reading
  unless_closed [] rest = pure closed
  unless_closed (b ∷ bs) rest = rest

  module _ (recv : ℕ → Exec N Bytes) where
    -- `while len(data) < size`, for at most so many turns
    unfoldable pub recv_loop : ℕ → ℕ → Bytes → Exec N Reading
    recv_loop zero size got s =
        (ok (elim (ltb (length got) size) [ true ↦ exhausted | false ↦ complete got ]), s)
    recv_loop (suc turns) size got s = elim (ltb (length got) size) [
      | true ↦
          (recv (size - length got) >>= λ chunk.
          unless_closed chunk (recv_loop turns size (got ++ chunk)))
            s
      | false ↦ (ok (complete got), s)
    ]

    -- Every turn adds a byte.
    unfoldable pub recv_exactly : ℕ → Exec N Reading
    unfolding recv_loop
    recv_exactly size = recv_loop size size []

  -- What the documentation says of a socket that has bytes to give: a call gives some of them, from
  -- the front and no more than asked.
  pub record Delivers (recv : ℕ → Exec N Bytes) (content : N → Bytes) : Type 0 where
    pub part :
        (n : ℕ) (s : N)
        → 0 < n
        → 0 < length (content s)
        → (chunk : Bytes) × ((recv n s).0 ≡ ok chunk)
          × (0 < length chunk)
          × (length chunk ≤ n)
          × (chunk ++ content (recv n s).1 ≡ content s)

  unless_closed-eq :
      (chunk : Bytes) (rest : Exec N Reading) → 0 < length chunk → unless_closed chunk rest ≡ rest
  unless_closed-eq [] rest h = ground (arith, h)
  unless_closed-eq (b ∷ bs) rest h = refl

  module _ (recv : ℕ → Exec N Bytes) (content : N → Bytes) (socket : Delivers recv content) where
    abbrev Reads : ℕ → ℕ → Type 0
    Reads turns size =
        (got want rest : Bytes) (s : N)
        → content s ≡ want ++ rest
        → length got + length want ≡ size
        → length want ≤ turns
        → ((recv_loop recv turns size got s).0 ≡ ok (complete (got ++ want)))
          × (content (recv_loop recv turns size got s).1 ≡ rest)

    recv_loop_stops :
        (turns size : ℕ) (got rest : Bytes) (s : N)
        → content s ≡ rest
        → length got ≡ size
        → ((recv_loop recv turns size got s).0 ≡ ok (complete (got ++ [])))
          × (content (recv_loop recv turns size got s).1 ≡ rest)
    unfolding recv_loop
    recv_loop_stops zero size got rest s at sized =
        rw (append-nil got, recv_loop, not_less size (length got) sized) (refl, at)
    recv_loop_stops (suc turns) size got rest s at sized =
        rw (append-nil got, recv_loop, not_less size (length got) sized) (refl, at)

    recv_loop-Reads : (turns size : ℕ) → Reads turns size
    unfolding recv_loop
    recv_loop-Reads zero size got [] rest s at sized h =
        recv_loop_stops 0 size got rest s at (omega (arith, sized))
    recv_loop-Reads zero size got (w ∷ ws) rest s at sized h = ground (arith, h)
    recv_loop-Reads (suc turns) size got [] rest s at sized h =
        recv_loop_stops (suc turns) size got rest s at (omega (arith, sized))
    recv_loop-Reads (suc turns) size got (w ∷ ws) rest s at sized h =
        let n = size - length got in
        let there : 0 < length (content s) = rw at (omega arith) in
        let p = socket.part n s (omega (arith, sized)) there in
        let less : ltb (length got) size ≡ true = ground (arith, sized) in
        let fits : length p.0 ≤ suc (length ws) = omega (arith, sized, p.3) in
        let k = split_front p.0 (content (recv n s).1) (w ∷ ws) rest fits (p.4 ∙ at) in
        let want = drop (length p.0) (w ∷ ws) in
        let whole : length p.0 + length want ≡ suc (length ws) =
          sym (length-append {0} p.0 want) ∙ ap length k.0 in
        let ih =
          recv_loop-Reads turns size (got ++ p.0) want rest (recv n s).1 k.1
            (omega (arith, sized, whole, length-append {0} got p.0))
            (omega (arith, h, whole, p.2)) in
        rw (recv_loop, less, p.1, unless_closed-eq p.0 (recv_loop recv turns size (got ++ p.0)) p.2)
          (
            ih.0 ∙ ap (λ x. ok (complete x)) (append_assoc got p.0 want ∙ ap (λ x. got ++ x) k.0),
            ih.1,
          )

    -- However the socket cuts the stream up, the loop returns the bytes that were asked for, and
    -- leaves what follows them.
    pub recv_exactly-Reads :
        (n : ℕ) (want rest : Bytes) (s : N)
        → length want ≡ n
        → content s ≡ want ++ rest
        → ((recv_exactly recv n s).0 ≡ ok (complete want))
          × (content (recv_exactly recv n s).1 ≡ rest)
    unfolding recv_exactly
    recv_exactly-Reads n want rest s sized at =
        recv_loop-Reads n n [] want rest s at (omega (arith, sized)) (omega (arith, sized))
