-- ===== src/VectorClock/Order.antt =====
-- `compare` decides the component-wise order of the counters.
use dhava.Common.{
  ℕ, ◌≤◌, ◌<◌, String, ◌≡◌, refl, ap, ◌↔◌, inl, inr, Bool, true, false, ◌&&◌, List, [], ◌∷◌, arith,
  str_eq_iff, leb, Bool-cases,
}
use dhava.Dict
use dhava.Dict.{Dict}
use dhava.VectorClock.{
  VectorClock, Comparison, before, after, equal, concurrent, count, all_nodes, scan, verdict, judge,
  compare, dominates,
}

-- Every counter of the first is at most that of the second.
abbrev pub Below : Dict ℕ → Dict ℕ → Type 0
Below a b = (node : String) → count node a ≤ count node b

-- Some counter of the first is less than that of the second.
abbrev pub Exceeded : Dict ℕ → Dict ℕ → Type 0
Exceeded a b = (node : String) × (count node a < count node b)

all_leq : Dict ℕ → Dict ℕ → List String → Bool
all_leq a b [] = true
all_leq a b (n ∷ ns) = leb (count n a) (count n b) && all_leq a b ns

scan-all_leq :
    (a b : Dict ℕ) (ns : List String) (x y : Bool)
    → scan a b ns x y ≡ (x && all_leq a b ns, y && all_leq b a ns)
unfolding scan all_leq
scan-all_leq a b [] x y = ground arith
scan-all_leq a b (n ∷ ns) x y = rw (scan-all_leq a b ns) (ground arith)

all_leq-Below :
    (a b : Dict ℕ) (ns : List String)
    → all_leq a b ns ≡ true
    → (node : String) → Dict.elem node ns ≡ true
    → count node a ≤ count node b
unfolding all_leq Dict.elem
all_leq-Below a b [] h node e = cc
all_leq-Below a b (n ∷ ns) h node e =
    ground (arith, str_eq_iff n node, all_leq-Below a b ns (ground arith) node)

all_leq_of_Below : (a b : Dict ℕ) (ns : List String) → Below a b → all_leq a b ns ≡ true
unfolding all_leq
all_leq_of_Below a b [] h = refl
all_leq_of_Below a b (n ∷ ns) h = ground (arith, h n, all_leq_of_Below a b ns h)

all_leq-Exceeded : (a b : Dict ℕ) (ns : List String) → all_leq a b ns ≡ false → Exceeded b a
unfolding all_leq
all_leq-Exceeded a b [] h = cc
all_leq-Exceeded a b (n ∷ ns) h = elim (Bool-cases (leb (count n a) (count n b))) [
  | inl le ↦ all_leq-Exceeded a b ns (ground arith)
  | inr gt ↦ (n, ground arith)
]

pub absent :
    (a b : Dict ℕ) (node : String)
    → Dict.elem node (all_nodes a b) ≡ false
    → (count node a ≡ 0) × (count node b ≡ 0)
absent a b node h = ground (
  arith,
  Dict.elem-union node (Dict.keys a) (Dict.keys b),
  Dict.get_of_elem node a,
  Dict.get_of_elem node b,
)

compare-verdict :
    (vc : VectorClock) (other : Dict ℕ)
    → compare vc other
      ≡ verdict (
        all_leq vc.clocks other (all_nodes vc.clocks other),
        all_leq other vc.clocks (all_nodes vc.clocks other),
      )
unfolding compare all_leq
compare-verdict vc other = go (all_nodes vc.clocks other)
  where
    go :
        (ns : List String)
        → judge vc.clocks other ns
          ≡ verdict (all_leq vc.clocks other ns, all_leq other vc.clocks ns)
    go [] = refl
    go (n ∷ ns) = ap verdict (scan-all_leq vc.clocks other (n ∷ ns) true true)

-- One flag of the loop holds exactly if the counters are in order everywhere.
all_leq_iff :
    (a b : Dict ℕ) (ns : List String)
    → ((node : String) → Dict.elem node ns ≡ false → count node a ≡ 0)
    → (all_leq a b ns ≡ true) ↔ Below a b
all_leq_iff a b ns outside = (into, all_leq_of_Below a b ns)
  where
    into : all_leq a b ns ≡ true → Below a b
    into h node = elim (Bool-cases (Dict.elem node ns)) [
      | inl e ↦ all_leq-Below a b ns h node e
      | inr e ↦ omega (arith, outside node e)
    ]

module _ (vc : VectorClock) (other : Dict ℕ) where
  abbrev nodes : List String
  nodes = all_nodes vc.clocks other

  leq_self : (all_leq vc.clocks other nodes ≡ true) ↔ Below vc.clocks other
  leq_self = all_leq_iff vc.clocks other nodes (λ node e. (absent vc.clocks other node e).0)

  leq_other : (all_leq other vc.clocks nodes ≡ true) ↔ Below other vc.clocks
  leq_other = all_leq_iff other vc.clocks nodes (λ node e. (absent vc.clocks other node e).1)

  self_fails : Exceeded other vc.clocks → all_leq vc.clocks other nodes ≡ false
  self_fails (node, lt) = elim (Bool-cases (all_leq vc.clocks other nodes)) [
    | inl h ↦ absurd (omega (arith, leq_self.0 h node))
    | inr h ↦ h
  ]

  other_fails : Exceeded vc.clocks other → all_leq other vc.clocks nodes ≡ false
  other_fails (node, lt) = elim (Bool-cases (all_leq other vc.clocks nodes)) [
    | inl h ↦ absurd (omega (arith, leq_other.0 h node))
    | inr h ↦ h
  ]

  -- What each verdict says of the counters.
  abbrev pub Means : Comparison → Type 0
  Means equal = Below vc.clocks other × Below other vc.clocks
  Means before = Below vc.clocks other × Exceeded vc.clocks other
  Means after = Below other vc.clocks × Exceeded other vc.clocks
  Means concurrent = Exceeded vc.clocks other × Exceeded other vc.clocks

  Means-flags :
      (x y : Bool)
      → all_leq vc.clocks other nodes ≡ x
      → all_leq other vc.clocks nodes ≡ y
      → Means (verdict (x, y))
  Means-flags true true p q = (leq_self.0 p, leq_other.0 q)
  Means-flags true false p q = (leq_self.0 p, all_leq-Exceeded other vc.clocks nodes q)
  Means-flags false true p q = (leq_other.0 q, all_leq-Exceeded vc.clocks other nodes p)
  Means-flags false false p q =
      (all_leq-Exceeded other vc.clocks nodes q, all_leq-Exceeded vc.clocks other nodes p)

  Means-compare : Means (compare vc other)
  Means-compare = rw (compare-verdict vc other) (Means-flags _ _ refl refl)

  compare_of_Means : (c : Comparison) → Means c → compare vc other ≡ c
  compare_of_Means equal (h, k) = rw (compare-verdict vc other, leq_self.1 h, leq_other.1 k)
  compare_of_Means before (h, k) = rw (compare-verdict vc other, leq_self.1 h, other_fails k)
  compare_of_Means after (h, k) = rw (compare-verdict vc other, leq_other.1 h, self_fails k)
  compare_of_Means concurrent (h, k) = rw (compare-verdict vc other, self_fails k, other_fails h)

  -- For each of the four verdicts, `compare` returns it exactly if the counters of the two clocks
  -- are related as its name says: equal everywhere, at most everywhere and less somewhere, at least
  -- everywhere and more somewhere, or each of them less than the other somewhere.
  pub compare_iff : (c : Comparison) → (compare vc other ≡ c) ↔ Means c
  compare_iff c = (λ e. rw e at Means-compare, compare_of_Means c)

  dominates-all_leq : dominates vc other ≡ all_leq other vc.clocks nodes
  unfolding dominates
  dominates-all_leq = ground (arith, compare-verdict vc other)

  -- `dominates` is true exactly if no counter of the other clock exceeds that of this one.
  pub dominates_iff : (dominates vc other ≡ true) ↔ Below other vc.clocks
  dominates_iff = rw dominates-all_leq leq_other
