-- ===== src/Engine/Tiers.antt =====
-- The tiers of bandwidth: what a better link adds.
use dhava.Common.{ℕ, ◌≤◌, ◌≡◌, true, ◌&&◌, some, none, arith, leb}
use dhava.Models.{Operation, level, p0, priority_le}
use dhava.Outbox.{Selection, eligible, is_pending}
use dhava.Outbox.Order.{priority_in-allowed}
use dhava.Engine.{EngineConfig, calculate_batch_size, calculate_priority_cutoff}

-- With any thresholds, a link of more bandwidth never gets a smaller batch or a stricter cutoff than
-- one of less, and no batch exceeds the configured size.
pub tiers_monotone :
    (c : EngineConfig) (slow fast : ℕ)
    → slow ≤ fast
    → (calculate_batch_size c slow ≤ calculate_batch_size c fast)
      × (level (calculate_priority_cutoff c slow) ≤ level (calculate_priority_cutoff c fast))
      × (calculate_batch_size c slow ≤ c.batch_size)
unfolding calculate_batch_size calculate_priority_cutoff level
tiers_monotone c slow fast h = (ground arith, ground arith, ground arith)

-- the selection of `sync_now`
abbrev pub batch_selection : EngineConfig → ℕ → Selection
batch_selection c bandwidth = record {
  priority = none;
  max_priority = some (calculate_priority_cutoff c bandwidth);
  collection = none;
}

eligible-batch :
    {V : Type 0} (c : EngineConfig) (bandwidth : ℕ) (op : Operation V)
    → eligible (batch_selection c bandwidth) op
      ≡ (is_pending op && leb (level op.priority) (level (calculate_priority_cutoff c bandwidth)))
unfolding eligible priority_le
eligible-batch c bandwidth op =
    ground (arith, priority_in-allowed (calculate_priority_cutoff c bandwidth) op.priority)

-- An operation that may go over a slow link may go over every faster one; and a pending operation of
-- priority P0 may go over any link.
pub eligible_grows :
    {V : Type 0} (c : EngineConfig) (slow fast : ℕ) (op : Operation V)
    → slow ≤ fast
    → (eligible (batch_selection c slow) op ≡ true → eligible (batch_selection c fast) op ≡ true)
      × (is_pending op ≡ true → op.priority ≡ p0 → eligible (batch_selection c slow) op ≡ true)
eligible_grows c slow fast op h = (
  λ e.
      ground (
        arith,
        (tiers_monotone c slow fast h).1,
        eligible-batch c slow op,
        eligible-batch c fast op,
      ),
  λ pending urgent. rw (eligible-batch c slow op, pending, urgent) (unfold level in ground arith),
)
