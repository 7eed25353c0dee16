-- ===== src/Store/Replay.antt =====
-- store.py: the store as a map from keys to records. Operations that are applied one after the other
-- leave under each key what the operations of that key make of it.
use dhava.Common.{
  String, ◌≡◌, ◌⊎◌, inl, inr, refl, ap, ◌∙◌, Bool, true, false, ◌&&◌, Option, some, List, [], ◌∷◌,
  arith, str_eq, str_eq_iff, select, Bool-cases, ◌≢◌,
}
use dhava.Result.{ok}
use dhava.Exec.{Exec, ◌>>◌, pure, for_each}
use dhava.Models.{Operation, Record}
use dhava.Backend.{Db}
use dhava.Store
use dhava.Store.{apply_operation}
use dhava.Store.Apply.{record_after, stored, apply_operation-stored, current-stored, get-stored_ne}

module _ {V : Type 0} where
  -- one operation after the other, until one raises
  unfoldable pub apply_operations : List (Operation V) → Exec (Db V) (Unit {0})
  unfolding apply_operation
  apply_operations ops = for_each ops (λ op. apply_operation op >> pure tt)

  -- the operations on a key
  abbrev pub targets : String → String → Operation V → Bool
  targets collection record_id op = str_eq op.collection collection && str_eq op.record_id record_id

  -- what operations on one key make of the record under it, in their order
  unfoldable pub replay : List (Operation V) → Option (Record V) → Option (Record V)
  replay [] o = o
  replay (op ∷ ops) o = replay ops (some (record_after o op))

  apply_operations-step :
      (op : Operation V) (ops : List (Operation V)) (db : Db V)
      → db.in_transaction ≡ false
      → apply_operations (op ∷ ops) db ≡ apply_operations ops (stored op db)
  unfolding apply_operations
  apply_operations-step op ops db idle = rw (apply_operation-stored op db idle) refl

  stored_idle : (op : Operation V) (db : Db V) → (stored op db).in_transaction ≡ false
  unfolding stored
  stored_idle op db = refl

  targets_key :
      (c i : String) (op : Operation V)
      → ((targets c i op ≡ true) × (c ≡ op.collection) × (i ≡ op.record_id))
        ⊎ ((targets c i op ≡ false) × ((c ≢ op.collection) ⊎ (i ≢ op.record_id)))
  targets_key c i op = elim (Bool-cases (targets c i op)) [
    | inl hit ↦ inl (
      hit,
      ground (arith, hit, str_eq_iff op.collection c),
      ground (arith, hit, str_eq_iff op.record_id i),
    )
    | inr miss ↦
        inr (miss, ground (arith, miss, str_eq_iff op.collection c, str_eq_iff op.record_id i))
  ]

  get-stored_self :
      (c i : String) (op : Operation V) (db : Db V)
      → c ≡ op.collection
      → i ≡ op.record_id
      → Store.get c i true (stored op db) ≡ some (record_after (Store.get c i true db) op)
  get-stored_self c i op db p q = rw (p, q) (current-stored op db)

  replay-stored :
      (c i : String) (op : Operation V) (ops : List (Operation V)) (db : Db V)
      → replay (select (targets c i) ops) (Store.get c i true (stored op db))
        ≡ replay (select (targets c i) (op ∷ ops)) (Store.get c i true db)
  unfolding select replay
  replay-stored c i op ops db = elim (targets_key c i op) [
    | inl (hit, p, q) ↦
        rw hit (ap (replay (select (targets c i) ops)) (get-stored_self c i op db p q))
    | inr (miss, ne) ↦
        rw (miss) (ap (replay (select (targets c i) ops)) (get-stored_ne op db c i true ne))
  ]

  -- Outside a transaction, operations that are applied one after the other all succeed, and leave
  -- under each key exactly what the operations of that key, in their order, make of the record that
  -- was under it; operations on other keys make no difference.
  pub apply_operations-replay :
      (ops : List (Operation V)) (db : Db V)
      → db.in_transaction ≡ false
      → ((apply_operations ops db).0 ≡ ok tt)
        × ((c i : String)
            → Store.get c i true (apply_operations ops db).1
              ≡ replay (select (targets c i) ops) (Store.get c i true db))
  unfolding apply_operations select replay
  apply_operations-replay [] db idle = (refl, λ c i. refl)
  apply_operations-replay (op ∷ ops) db idle =
      let (done, reads) = apply_operations-replay ops (stored op db) (stored_idle op db) in
      rw (apply_operations-step op ops db idle)
        (done, λ c i. reads c i ∙ replay-stored c i op ops db)
