-- ===== src/Sync/Conclude.antt =====
-- engine.py: the end of a session, from the entries of the trail to the callbacks. Where the trail
-- holds none of the fresh identifiers, nothing raises.
use dhava.Common.{
  String, ◌≡◌, ◌≢◌, ◌⊎◌, inl, inr, refl, sym, ap, ◌∙◌, Bool, true, false, Option, List, [], ◌∷◌,
  ltb,
}
use dhava.Result.{ok}
use dhava.Exec.{Exec, ◌>>◌, for_each}
use dhava.Exec.Succeeds.{Returns, Returns-continue}
use dhava.Models.{Time}
use dhava.Backend.{Db}
use dhava.Outbox.{mark_synced, has_id_in}
use dhava.Outbox.States.{as_synced, update_rows-eq}
use dhava.Audit.{NewEntry}
use dhava.Audit.Fresh.{Ready, log-IsLogged}
use dhava.Transport.{Transport, Network, quietly, get_active_transport}
use dhava.Node.{SyncEngine, EngineStatus, get_status, notify_status_change}
use dhava.Engine.{Engine, Pull, log_if}
use dhava.Engine.Fresh.{Settles, Settles-trans, Ready-less}
use dhava.Sync.{
  Running, SyncReadings, close_completed, completed, log_session, log_entry, entry_of, push_details,
  pull_details, close_session, conclude,
}

module _ {V : Type 0} where
  log_entry-Settles :
      (Unused Left : String → Type 0) (e : Engine V) (stamp : String × Time) (entry : NewEntry)
      (db : Db V)
      → Ready Unused db
      → Unused stamp.0
      → ((id : String) → Left id → Unused id × (id ≢ stamp.0))
      → Returns (log_entry e stamp entry db) (λ _ d. Settles Left db d)
  log_entry-Settles Unused Left e stamp entry db ready u less =
      let (a, eq, logged) =
        log-IsLogged Unused Left e.audit stamp.0 stamp.1 entry db ready u less in
      (a, eq, record { ready = logged.ready; outbox = logged.outbox })

  log_if-Returns :
      (Unused Left : String → Type 0) (b : Bool) (m : Exec (Db V) (Unit {0})) (db : Db V)
      → Ready Unused db
      → ((id : String) → Left id → Unused id)
      → Returns (m db) (λ _ d. Settles Left db d)
      → Returns (log_if b m db) (λ _ d. Settles Left db d)
  log_if-Returns Unused Left true m db ready less done = done
  log_if-Returns Unused Left false m db ready less done =
      (tt, refl, record { ready = Ready-less Unused Left db ready less; outbox = refl })

  pub mark_synced-Ready :
      (Unused : String → Type 0) (ids : List String) (now : Time) (db : Db V)
      → Ready Unused db
      → Returns (mark_synced ids now db) (λ _ d. Ready Unused d)
  unfolding mark_synced
  mark_synced-Ready Unused [] now db ready = (tt, refl, ready)
  mark_synced-Ready Unused (i ∷ ids) now db ready =
      rw (update_rows-eq (has_id_in (i ∷ ids)) (as_synced now) db ready.idle)
        (tt, refl, record { idle = refl; unused = ready.unused })

-- the identifiers of the two entries for the session itself
abbrev pub Closing : SyncReadings → String → Type 0
Closing r id = (id ≡ r.push_audit.0) ⊎ (id ≡ r.pull_audit.0)

abbrev pub None : String → Type 0
None id = ⊥

module _ {W : Type 0} where
  callbacks_return :
      (status : EngineStatus) (callbacks : List (EngineStatus → Exec W (Unit {0}))) (w : W)
      → (for_each callbacks (λ callback. quietly (callback status)) w).0 ≡ ok tt
  callbacks_return status [] w = refl
  callbacks_return status (c ∷ cs) w = callbacks_return status cs (c status w).1

  -- The search for a link after the exchange returns.
  abbrev pub Found : Time → Network W → Type 0
  Found now n = (o : Option (Transport W)) × ((get_active_transport now n).0 ≡ ok o)

module _ {V W : Type 0} (r : SyncReadings) where
  log_session-Settles :
      (peer link : String) (run : Running V W)
      → r.push_audit.0 ≢ r.pull_audit.0
      → Ready (Closing r) run.node.engine.db
      → Returns
          (log_session r peer link run)
          (λ _ after. Settles None run.node.engine.db after.node.engine.db)
  log_session-Settles peer link run apart ready =
      let e = run.node.engine in
      let push =
        log_entry e r.push_audit (entry_of "sync_push" (push_details peer link run.session)) in
      let entry =
        log_entry e r.pull_audit (entry_of "sync_pull" (pull_details peer link run.session)) in
      let pulls = log_if (ltb 0 run.session.ops_pulled) entry in
      let Left : String → Type 0 = λ id. id ≡ r.pull_audit.0 in
      log_if-Returns (Closing r) None e.config.audit_enabled (push >> pulls) e.db ready
        (λ id no. elim no [ ])
        (Returns-continue (λ _ d. Settles Left e.db d) (λ _ d. Settles None e.db d) (λ _. pulls)
          (push e.db)
          (log_entry-Settles (Closing r) Left e r.push_audit _ e.db ready (inl refl)
            (λ id left. (inr left, λ same. apart (sym same ∙ left))))
          (λ _ done.
            let d = (push e.db).1 in
            let (a, eq, more) =
              log_if-Returns Left None (ltb 0 run.session.ops_pulled) entry d done.ready
                (λ id no. elim no [ ])
                (log_entry-Settles Left None e r.pull_audit _ d done.ready refl
                  (λ id no. elim no [ ])) in
            (a, eq, Settles-trans Left None e.db d _ done more)))

  notify_returns :
      (probed now : Time) (s : SyncEngine V W)
      → Found probed s.network
      → Returns (notify_status_change probed now s) (λ _ t. t.engine ≡ s.engine)
  unfolding notify_status_change get_status
  notify_returns probed now s (o, eq) = rw eq (tt, callbacks_return _ s.status_callbacks _, refl)

  pub conclude-Returns :
      (peer link : String) (p : Pull) (run : Running V W)
      → r.push_audit.0 ≢ r.pull_audit.0
      → Ready (Closing r) run.node.engine.db
      → Found r.status_probed run.node.network
      → Returns (conclude r peer link p run) (λ _ after.
        (after.session ≡ completed r p run.session)
        × (after.node.engine.db.outbox ≡ run.node.engine.db.outbox))
  unfolding conclude close_session
  conclude-Returns peer link p run apart ready found =
      let begun : Running V W = record run { session = completed r p run.session } in
      let (a, eq, done) = log_session-Settles peer link begun apart ready in
      let closed = (close_completed (log_session r peer link begun).1).node in
      let (b, told, same) = notify_returns r.status_probed r.status_read closed found in
      rw eq (b, told, (refl, ap (λ (e : Engine V). e.db.outbox) same ∙ done.outbox))
