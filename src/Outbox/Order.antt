-- ===== src/Outbox/Order.antt =====
-- `get_pending`: which operations a batch holds, and in which order.
use mathlib.Core.List.{Perm}
use dhava.Common.{
  ℕ, ◌≡◌, refl, ◌⊎◌, true, false, List, [], ◌++◌, arith, length, drop, select, All, All-take,
  select-accepts, take-append-drop, take_full,
}
use dhava.Common.Sort.{
  IsOrder, IsSorted, sort, sort-perm, All-sort, sort-IsSorted, take-IsSorted, take-beyond-drop,
}
use dhava.Models.{Operation, Priority, p0, p1, p2, p3, p4, priority_le}
use dhava.Backend.{Db}
use dhava.Outbox.{Selection, eligible, urgent_first, get_pending, allowed, priority_in}

-- The list of allowed priorities is the cutoff: a priority is in it exactly if it is not less urgent.
pub priority_in-allowed :
    (cutoff p : Priority) → priority_in (allowed cutoff) p ≡ priority_le p cutoff
unfolding priority_in allowed priority_le
priority_in-allowed p0 p0 = refl
priority_in-allowed p0 _ = refl
priority_in-allowed p1 p0 = refl
priority_in-allowed p1 _ = refl
priority_in-allowed p2 p0 = refl
priority_in-allowed p2 _ = refl
priority_in-allowed p3 p0 = refl
priority_in-allowed p3 _ = refl
priority_in-allowed p4 p0 = refl
priority_in-allowed p4 _ = refl

module _ {V : Type 0} where
  urgent_first_total : (x y : Operation V) → urgent_first x y ≡ false → urgent_first y x ≡ true
  unfolding urgent_first
  urgent_first_total x y h = ground arith

  urgent_first_trans :
      (x y z : Operation V)
      → urgent_first x y ≡ true
      → urgent_first y z ≡ true
      → urgent_first x z ≡ true
  unfolding urgent_first
  urgent_first_trans x y z h k = ground arith

  urgent_first-IsOrder : IsOrder (urgent_first {V = V})
  urgent_first-IsOrder = record { total = urgent_first_total; trans = urgent_first_trans }

  -- What a batch promises, with the rows that it leaves behind.
  pub record IsBatch (limit : ℕ) (s : Selection) (db : Db V) (batch rest : List (Operation V))
      : Type 0 where
    pub complete : Perm (batch ++ rest) (select (eligible s) db.outbox)
    pub eligibles : All (λ (op : Operation V). eligible s op ≡ true) batch
    pub ordered : IsSorted urgent_first batch
    pub most_urgent :
        All (λ (r : Operation V). All (λ (op : Operation V). urgent_first op r ≡ true) batch) rest
    pub full : (length batch ≡ limit) ⊎ (rest ≡ [])

  -- A batch and what it leaves behind are together the eligible rows of the queue. The rows of the
  -- batch come most urgent first and, within a priority, oldest first; each of them is as urgent
  -- as every row left behind; and rows are left behind only by a batch of `limit` rows.
  pub get_pending-IsBatch :
      (limit : ℕ) (s : Selection) (db : Db V)
      → (rest : List (Operation V)) × IsBatch limit s db (get_pending limit s db) rest
  unfolding get_pending
  get_pending-IsBatch limit s db = (
    drop limit sorted,
    record {
      complete = rw (take-append-drop limit sorted) (sort-perm urgent_first rows);
      eligibles =
          All-take P limit sorted
            (All-sort urgent_first P rows (select-accepts (eligible s) db.outbox));
      ordered = take-IsSorted urgent_first limit sorted in_order;
      most_urgent = take-beyond-drop urgent_first limit sorted in_order;
      full = take_full limit sorted;
    },
  )
    where
      rows : List (Operation V)
      rows = select (eligible s) db.outbox

      sorted : List (Operation V)
      sorted = sort urgent_first rows

      in_order : IsSorted urgent_first sorted
      in_order = sort-IsSorted urgent_first urgent_first-IsOrder rows

      P : Operation V → Type 0
      P op = eligible s op ≡ true
