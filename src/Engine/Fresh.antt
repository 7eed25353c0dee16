-- ===== src/Engine/Fresh.antt =====
-- engine.py: where the fresh identifiers are new to the trail, the statements for a remote operation
-- return, and a pull takes in all that it is given.
use dhava.Common.{
  ℕ, ◌+◌, ◌≤◌, String, ◌≡◌, ◌≢◌, ◌⊎◌, inl, inr, refl, ◌∙◌, Bool, true, false, ◌&&◌, arith,
}
use dhava.Exec.Succeeds.{Returns, Returns-continue}
use dhava.Models.{Time, Operation}
use dhava.Conflict.{Resolution, resolve}
use dhava.Backend.{Db}
use dhava.Store
use dhava.Store.Apply.{stored, apply_operation-stored}
use dhava.Audit.{AuditLogger}
use dhava.Audit.Fresh.{Ready, log-IsLogged}
use dhava.Engine.{
  Engine, Pull, takes, is_conflict, log_conflict, log_if, apply_if, settle, counted, absorb_as,
  absorb,
}

-- the identifiers from `n` on, and others that must stay unused
abbrev pub From : (ℕ → String × Time) → (String → Type 0) → ℕ → String → Type 0
From stamps Others n id = Others id ⊎ ((m : ℕ) × (n ≤ m) × (id ≡ (stamps m).0))

-- Each is drawn once.
pub record AreFresh (stamps : ℕ → String × Time) (Others : String → Type 0) : Type 0 where
  pub once : (m n : ℕ) → m ≢ n → (stamps m).0 ≢ (stamps n).0
  pub apart : (id : String) (n : ℕ) → Others id → id ≢ (stamps n).0

module _ (stamps : ℕ → String × Time) (Others : String → Type 0) (f : AreFresh stamps Others) where
  pub From-next :
      (n : ℕ) (id : String)
      → From stamps Others (n + 1) id
      → From stamps Others n id × (id ≢ (stamps n).0)
  From-next n id (inl other) = (inl other, f.apart id n other)
  From-next n id (inr (m, later, is)) =
      (inr (m, omega (arith, later), is), rw is (f.once m n (λ same. omega (arith, later, same))))

module _ {V : Type 0} where
  -- what a resolution leaves of the rest of the database
  pub record Settles (Left : String → Type 0) (db d : Db V) : Type 0 where
    pub ready : Ready Left d
    pub outbox : d.outbox ≡ db.outbox

  pub Ready-less :
      (P Q : String → Type 0) (db : Db V) → Ready P db → ((id : String) → Q id → P id) → Ready Q db
  Ready-less P Q db r less = record { idle = r.idle; unused = λ id q. r.unused id (less id q) }

  module _ (Unused Left : String → Type 0) (l : AuditLogger) (stamp : String × Time)
      (u : Unused stamp.0) (less : (id : String) → Left id → Unused id × (id ≢ stamp.0)) where
    pub log_if-Settles :
        (b : Bool) (r : Resolution) (db : Db V)
        → Ready Unused db
        → Returns (log_if b (log_conflict l stamp r) db) (λ _ d. Settles Left db d)
    log_if-Settles true r db ready =
        let (a, e, logged) = log-IsLogged Unused Left l stamp.0 stamp.1 _ db ready u less in
        (a, e, record { ready = logged.ready; outbox = logged.outbox })
    log_if-Settles false r db ready = (
      tt,
      refl,
      record { ready = Ready-less Unused Left db ready (λ id q. (less id q).0); outbox = refl },
    )

  pub apply_if-Settles :
      (P : String → Type 0) (b : Bool) (op : Operation V) (db : Db V)
      → Ready P db
      → Returns (apply_if b op db) (λ _ d. Settles P db d)
  unfolding stored
  apply_if-Settles P true op db ready =
      rw (apply_operation-stored op db ready.idle)
        (tt, refl, record { ready = record { idle = refl; unused = ready.unused }; outbox = refl })
  apply_if-Settles P false op db ready = (tt, refl, record { ready = ready; outbox = refl })

  pub Settles-trans :
      (P Q : String → Type 0) (a b c : Db V) → Settles P a b → Settles Q b c → Settles Q a c
  Settles-trans P Q a b c h k = record { ready = k.ready; outbox = k.outbox ∙ h.outbox }

  -- what a turn leaves of the engine
  pub record Absorbs (Left : String → Type 0) (before after : Engine V) : Type 0 where
    pub settles : Settles Left before.db after.db
    pub config : after.config ≡ before.config
    pub audit : after.audit ≡ before.audit
    pub node_id : after.node_id ≡ before.node_id

  module _ (Unused Left : String → Type 0) (stamp : String × Time) (u : Unused stamp.0)
      (less : (id : String) → Left id → Unused id × (id ≢ stamp.0)) where
    settle-Settles :
        (e : Engine V) (op : Operation V) (r : Resolution) (db : Db V)
        → Ready Unused db
        → Returns (settle e stamp op r db) (λ _ d. Settles Left db d)
    unfolding settle
    settle-Settles e op r db ready =
        let logs = e.config.audit_enabled && is_conflict r.comparison in
        Returns-continue (λ _ d. Settles Unused db d) (λ _ d. Settles Left db d)
          (λ _. log_if logs (log_conflict e.audit stamp r)) (apply_if (takes r.action) op db)
          (apply_if-Settles Unused (takes r.action) op db ready)
          (λ _ done.
            let d = (apply_if (takes r.action) op db).1 in
            let (a, eq, more) =
              log_if-Settles Unused Left e.audit stamp u less logs r d done.ready in
            (a, eq, Settles-trans Unused Left db d _ done more))

    pub absorb-Absorbs :
        (op : Operation V) (p : Pull) (e : Engine V)
        → Ready Unused e.db
        → Returns
            (absorb stamp op p e)
            (λ q f. (q.pulled_ops_count ≡ p.pulled_ops_count + 1) × Absorbs Left e f)
    unfolding absorb absorb_as
    absorb-Absorbs op p e ready =
        let r = resolve e.conflict_resolver (Store.get op.collection op.record_id true e.db) op in
        let (a, eq, done) = settle-Settles e op r e.db ready in
        rw eq (
          counted r p,
          refl,
          (refl, record { settles = done; config = refl; audit = refl; node_id = refl }),
        )
