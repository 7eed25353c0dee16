-- ===== src/Sync/Intake.antt =====
-- engine.py: a pull of operations that another node has packed takes in all of them.
use dhava.Common.{ℕ, ◌+◌, String, ◌≡◌, inl, inr, refl, ◌∙◌, List, [], ◌∷◌, map, length, arith}
use dhava.Exec.{continue}
use dhava.Exec.Succeeds.{Returns, Returns-continue}
use dhava.Models.{Time, Operation}
use dhava.Models.Wire.{operation_to_dict}
use dhava.Models.RoundTrip.{operation_from_dict-to_dict}
use dhava.Audit.Fresh.{Ready}
use dhava.Engine.{Engine, Pull, absorb, pull_operations}
use dhava.Engine.Fresh.{
  From, AreFresh, From-next, Settles-trans, Ready-less, Absorbs, absorb-Absorbs,
}
use dhava.Sync.{with_stamps}

module _ {V : Type 0} (stamps : ℕ → String × Time) (Others : String → Type 0)
    (f : AreFresh stamps Others) where
  -- what a pull of so many operations leaves
  abbrev pub Pulls : ℕ → Engine V → Pull → Engine V → Type 0
  Pulls n before p after = (p.pulled_ops_count ≡ n) × Absorbs Others before after

  pull_first :
      (n : ℕ) (op : Operation V) (ops : List (Operation V)) (p : Pull) (e : Engine V)
      → let run = absorb (stamps n) op p e in
        pull_operations (with_stamps stamps n (map operation_to_dict (op ∷ ops))) p e
        ≡ continue run.0
            (λ q. pull_operations (with_stamps stamps (n + 1) (map operation_to_dict ops)) q)
            run.1
  unfolding pull_operations with_stamps
  pull_first n op ops p e = rw (operation_from_dict-to_dict op) refl

  pub pull_operations-Pulls :
      (n : ℕ) (ops : List (Operation V)) (p : Pull) (e : Engine V)
      → Ready (From stamps Others n) e.db
      → Returns
          (pull_operations (with_stamps stamps n (map operation_to_dict ops)) p e)
          (Pulls (p.pulled_ops_count + length ops) e)
  unfolding pull_operations with_stamps
  pull_operations-Pulls n [] p e ready = (
    p,
    refl,
    (
      omega arith,
      record {
        settles = record {
          ready = Ready-less (From stamps Others n) Others e.db ready (λ id o. inl o);
          outbox = refl;
        };
        config = refl;
        audit = refl;
        node_id = refl;
      },
    ),
  )
  pull_operations-Pulls n (op ∷ ops) p e ready = rw (pull_first n op ops p e) (
      Returns-continue
        (λ q g.
          (q.pulled_ops_count ≡ p.pulled_ops_count + 1) × Absorbs (From stamps Others (n + 1)) e g)
        (Pulls (p.pulled_ops_count + length (op ∷ ops)) e)
        (λ q. pull_operations (with_stamps stamps (n + 1) (map operation_to_dict ops)) q)
        (absorb (stamps n) op p e)
        (absorb-Absorbs (From stamps Others n) (From stamps Others (n + 1)) (stamps n)
          (inr (n, omega arith, refl)) (From-next stamps Others f n) op p e ready)
        (λ q (one, done).
          let g = (absorb (stamps n) op p e).1 in
          let (a, eq, (counts, more)) = pull_operations-Pulls (n + 1) ops q g done.settles.ready in
          (
            a,
            eq,
            (
              omega (arith, one, counts),
              record {
                settles =
                    Settles-trans (From stamps Others (n + 1)) Others e.db g.db _ done.settles
                      more.settles;
                config = more.config ∙ done.config;
                audit = more.audit ∙ done.audit;
                node_id = more.node_id ∙ done.node_id;
              },
            ),
          )))
