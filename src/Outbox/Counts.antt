-- ===== src/Outbox/Counts.antt =====
-- `pending_count` and `pending_breakdown` agree.
use dhava.Common.{
  ℕ, ◌+◌, ◌≡◌, refl, Bool, true, false, ◌&&◌, none, some, List, [], ◌∷◌, arith, if◌then◌else◌,
  length, select,
}
use dhava.Dict
use dhava.Dict.{Dict}
use dhava.Models.{Operation, Priority, p0, p1, p2, p3, p4, priority_value}
use dhava.Backend.{Db}
use dhava.Outbox.{is_pending, same_priority, pending_count, pending_breakdown}

-- `sum(d.values())`
pub sum_values : Dict ℕ → ℕ
sum_values [] = 0
sum_values ((_, n) ∷ d) = n + sum_values d

one_tier :
    (b : Bool) (p : Priority)
    → (if b && same_priority p p0 then 1 else 0)
        + (if b && same_priority p p1 then 1 else 0)
        + (if b && same_priority p p2 then 1 else 0)
        + (if b && same_priority p p3 then 1 else 0)
        + (if b && same_priority p p4 then 1 else 0)
      ≡ (if b then 1 else 0)
one_tier false p = refl
one_tier true p0 = refl
one_tier true p1 = refl
one_tier true p2 = refl
one_tier true p3 = refl
one_tier true p4 = refl

module _ {V : Type 0} where
  abbrev of_priority : Priority → Operation V → Bool
  of_priority p op = is_pending op && same_priority op.priority p

  abbrev tier : Priority → List (Operation V) → ℕ
  tier p rows = length (select (of_priority p) rows)

  tier_cons :
      (p : Priority) (op : Operation V) (rows : List (Operation V))
      → tier p (op ∷ rows) ≡ (if of_priority p op then 1 else 0) + tier p rows
  unfolding select
  tier_cons p op rows = ground arith

  tiers :
      (rows : List (Operation V))
      → tier p0 rows + tier p1 rows + tier p2 rows + tier p3 rows + tier p4 rows
        ≡ length (select is_pending rows)
  tiers [] = unfold select in refl
  tiers (op ∷ rows) = omega (
    arith,
    tier_cons p0 op rows,
    tier_cons p1 op rows,
    tier_cons p2 op rows,
    tier_cons p3 op rows,
    tier_cons p4 op rows,
    one_tier (is_pending op) op.priority,
    tiers rows,
    pending_cons op rows,
  )
    where
      pending_cons :
          (op : Operation V) (rows : List (Operation V))
          → length (select is_pending (op ∷ rows))
            ≡ (if is_pending op then 1 else 0) + length (select is_pending rows)
      pending_cons op rows = unfold select in ground arith

  -- The breakdown has the count of each priority under its name, and the counts add up to the count
  -- of all pending operations.
  pub pending_breakdown-pending_count :
      (db : Db V)
      → ((p : Priority)
          → Dict.get (priority_value p) (pending_breakdown db) ≡ some (pending_count (some p) db))
        × (sum_values (pending_breakdown db) ≡ pending_count none db)
  unfolding pending_breakdown pending_count sum_values Dict.get
  pending_breakdown-pending_count db = (named, omega (arith, tiers db.outbox))
    where
      named :
          (p : Priority)
          → Dict.get (priority_value p) (pending_breakdown db) ≡ some (pending_count (some p) db)
      named p0 = refl
      named p1 = refl
      named p2 = refl
      named p3 = refl
      named p4 = refl
