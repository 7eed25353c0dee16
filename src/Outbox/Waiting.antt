-- ===== src/Outbox/Waiting.antt =====
-- outbox.py: an operation from its failure to the reset, when it waits again.
use dhava.Common.{ℕ, String, ◌≡◌, refl, ap, ◌∙◌, true, false, some, List, [], ◌∷◌, All}
use dhava.Dict
use dhava.Models.{Operation, pending}
use dhava.Backend.{Db}
use dhava.Outbox.{Selection, has_id_in, mark_failed, reset_in_flight, get_pending}
use dhava.Outbox.States.{
  lookup, map_option, when, as_failed, update_rows-eq, lookup-mark_failed, get_pending-mark_failed,
}
use dhava.Outbox.Retention.{lookup-reset_in_flight}

module _ {V : Type 0} where
  mark_failed_idle :
      (ids : List String) (error : String) (db : Db V)
      → db.in_transaction ≡ false
      → (mark_failed ids error db).1.in_transaction ≡ false
  unfolding mark_failed
  mark_failed_idle [] error db idle = idle
  mark_failed_idle (i ∷ ids) error db idle =
      rw (update_rows-eq (has_id_in (i ∷ ids)) (as_failed error) db idle) refl

  -- what the reset makes of an operation that failed
  abbrev pub as_waiting : String → Operation V → Operation V
  as_waiting error op = record (as_failed error op) { sync_state = pending }

  -- Outside a transaction, `mark_failed` leaves an operation that it names in the queue as failed, with
  -- the error and one more attempt. It leaves no operation that it names to the next batch, whatever
  -- priority, collection or limit that is for. If `reset_in_flight` is called then, the operation is
  -- pending again, with the error and the attempts kept and the rest of it as it was.
  pub mark_failed-reset_in_flight :
      (ids : List String) (error : String) (db : Db V) (id : String) (op : Operation V)
      → db.in_transaction ≡ false
      → lookup id db ≡ some op
      → Dict.elem op.op_id ids ≡ true
      → let after = (mark_failed ids error db).1 in
        (lookup id after ≡ some (as_failed error op))
        × ((limit : ℕ) (s : Selection)
            → All (λ (o : Operation V). Dict.elem o.op_id ids ≡ false) (get_pending limit s after))
        × (lookup id (reset_in_flight after).1 ≡ some (as_waiting error op))
  mark_failed-reset_in_flight ids error db id op idle found named =
      let failed_now : lookup id (mark_failed ids error db).1 ≡ some (as_failed error op) =
        lookup-mark_failed ids error db id idle
        ∙ ap (map_option _) found
        ∙ ap (λ b. some (when b (as_failed error) op)) named in
      (
        failed_now,
        λ limit s. get_pending-mark_failed ids error db limit s idle,
        lookup-reset_in_flight (mark_failed ids error db).1 id (mark_failed_idle ids error db idle)
            ∙ ap (map_option _) failed_now,
      )
