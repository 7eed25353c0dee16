-- ===== src/Database/Removal.antt =====
-- The removal of old operations from the queue, and what an operation may meet there.
use dhava.Common.{
  ℕ, ◌-◌, ◌∙◌, String, ◌≡◌, ◌⊎◌, inl, inr, Bool, true, false, not, some, List, [], ◌∷◌, arith,
  Bool-cases, if_intro, find, select, delete_where,
}
use dhava.Result.{Result}
use dhava.Models.{Time, Operation}
use dhava.Backend.{Db, transaction}
use dhava.Outbox.{has_id, expired, purge_rows, purge_synced}
use dhava.Outbox.States.{lookup}
use dhava.Outbox.Retention.{IsOld, expired-IsOld}
use dhava.Database.{Evolves, Ages, Ages-IsPreorder, essence}

module _ {V : Type 0} where
  find-select :
      (p q : Operation V → Bool) (x : Operation V) (xs : List (Operation V))
      → find p xs ≡ some x
      → q x ≡ true
      → find p (select q xs) ≡ some x
  unfolding find select
  find-select p q x [] h k = h
  find-select p q x (y ∷ ys) h k = ground (arith, h, k, find-select p q x ys)

  -- A removal keeps an operation or finds this of it.
  abbrev Drops : (Operation V → Type 0) → Db V → Db V → Type 0
  Drops P db d =
      (id : String) (op : Operation V) → lookup id db ≡ some op → (lookup id d ≡ some op) ⊎ P op

  pub purge_synced-Drops :
      (older_than now : Time) (db : Db V)
      → Drops (IsOld (now - older_than)) db (purge_synced older_than now db).1
  unfolding purge_synced transaction purge_rows delete_where
  purge_synced-Drops older_than now db id op found =
      if_intro
        (λ (run : Result ℕ × Db V). (lookup id run.1 ≡ some op) ⊎ IsOld (now - older_than) op)
        db.in_transaction _ _ (λ _. inl found)
        (λ _. kept (Bool-cases (expired (now - older_than) op)))
    where
      kept :
          (expired (now - older_than) op ≡ true) ⊎ (expired (now - older_than) op ≡ false)
          → (find (has_id id) (select (λ o. not (expired (now - older_than) o)) db.outbox)
              ≡ some op)
            ⊎ IsOld (now - older_than) op
      kept (inl old) = inr (expired-IsOld (now - older_than) op old)
      kept (inr recent) = inl (
          find-select (has_id id) (λ o. not (expired (now - older_than) o)) op db.outbox found
            (ground arith))

  abbrev pub Removes : (Operation V → Type 0) → Db V → Db V → Type 0
  Removes P db d = Drops P db d × Ages db d

  pub Removes-refl : (P : Operation V → Type 0) (db : Db V) → Removes P db db
  Removes-refl P db = (λ id op found. inl found, Ages-IsPreorder.same db)

  pub Removes-map :
      (P Q : Operation V → Type 0) (db d : Db V)
      → ((op : Operation V) → P op → Q op)
      → Removes P db d
      → Removes Q db d
  Removes-map P Q db d f (drops, ages) = (λ id op found. go id op (drops id op found), ages)
    where
      go :
          (id : String) (op : Operation V)
          → (lookup id d ≡ some op) ⊎ P op
          → (lookup id d ≡ some op) ⊎ Q op
      go id op (inl there) = inl there
      go id op (inr h) = inr (f op h)

  -- An operation is in the queue under its identifier, the same but for its marks.
  abbrev pub Queued : String → Operation V → Db V → Type 0
  Queued id op d = (op' : Operation V) × (lookup id d ≡ some op') × (essence op' ≡ essence op)

  pub evolved :
      (id : String) (op : Operation V) (db d : Db V)
      → Evolves db d
      → Queued id op db
      → Queued id op d
  evolved id op db d e (x, at, like) = let (y, there, same) = e.0 id x at in (y, there, same ∙ like)

  pub removed :
      (P : Operation V → Type 0) (id : String) (op : Operation V) (db d : Db V)
      → Removes P db d
      → Queued id op db
      → Queued id op d
        ⊎ ((op' : Operation V) × (lookup id db ≡ some op') × (essence op' ≡ essence op) × P op')
  removed P id op db d e (x, at, like) = go (e.0 id x at)
    where
      go :
          (lookup id d ≡ some x) ⊎ P x
          → Queued id op d
            ⊎ ((op' : Operation V) × (lookup id db ≡ some op') × (essence op' ≡ essence op) × P op')
      go (inl there) = inl (x, there, like)
      go (inr done) = inr (x, at, like, done)
