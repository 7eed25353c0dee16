-- ===== src/Transport/Failover.antt =====
-- Which link the manager takes: the first in the order of preference that answers its probe.
use dhava.Common.{
  String, ◌≡◌, refl, ap, Bool, true, false, Option, none, some, List, [], ◌∷◌, ◌++◌, if◌then◌else◌,
}
use dhava.Dict
use dhava.Dict.{Dict}
use dhava.Result.{Result, ok, raise}
use dhava.Exec.{Exec, pure, continue, ◌>>=◌, result_of_continue}
use dhava.Models.{Time}
use dhava.Transport.{Transport, Network, probe, choose_or, first_available, get_active_transport}

module _ {W : Type 0} (links : Dict (Transport W)) where
  -- The names are passed over, in this order: each has no link, or its link answers the probe with
  -- false. The world goes through the probes.
  pub data Skips : List String → W → W → Type 0 where
    done : (w : W) → Skips [] w w
    absent :
        (name : String) (order : List String) (w v : W)
        → Dict.get name links ≡ none
        → Skips order w v
        → Skips (name ∷ order) w v
    down :
        (name : String) (order : List String) (w u v : W) (t : Transport W)
        → Dict.get name links ≡ some t
        → t.is_available w ≡ (ok false, u)
        → Skips order u v
        → Skips (name ∷ order) w v

  -- The link under a name of the order, which answers, after all names before it were passed over.
  pub record IsFirst (order : List String) (w : W) (t : Transport W) : Type 0 where
    pub before : List String
    pub name : String
    pub behind : List String
    pub reached : W
    pub order_is : order ≡ before ++ name ∷ behind
    pub skipped : Skips before w reached
    pub link_is : Dict.get name links ≡ some t
    pub answers : (t.is_available reached).0 ≡ ok true

  -- What the answer says of the links.
  abbrev pub Means : List String → W → Option (Transport W) → Type 0
  Means order w none = (v : W) × Skips order w v
  Means order w (some t) = IsFirst order w t

  Means-skip :
      (name : String) (order : List String) (w u : W) (o : Option (Transport W))
      → ((rest : List String) (v : W) → Skips rest u v → Skips (name ∷ rest) w v)
      → Means order u o
      → Means (name ∷ order) w o
  Means-skip name order w u none skip (v, s) = (v, skip order v s)
  Means-skip name order w u (some t) skip f = record {
    before = name ∷ f.before;
    name = f.name;
    behind = f.behind;
    reached = f.reached;
    order_is = ap (◌∷◌ name) f.order_is;
    skipped = skip f.before f.reached f.skipped;
    link_is = f.link_is;
    answers = f.answers;
  }

  module _ (now : Time) (name : String) (order : List String) (n : Network W)
      (o : Option (Transport W)) (next : Exec (Network W) (Option (Transport W)))
      (ih : (m : Network W) → (next m).0 ≡ ok o → Means order m.world o) where
    -- a turn of the loop, once the probe has come back
    resume : Transport W → Result Bool × W → Result (Option (Transport W)) × Network W
    resume t run =
        let (r, m) =
          continue run.0 (λ up. pure (if up then some t else none)) (record n { world = run.1 }) in
        continue r (choose_or now name next) m

    probed :
        (t : Transport W) (run : Result Bool × W)
        → Dict.get name links ≡ some t
        → t.is_available n.world ≡ run
        → (resume t run).0 ≡ ok o
        → Means (name ∷ order) n.world o
    unfolding resume
    probed t (raise e, u) found answer h = cc h
    probed t (ok false, u) found answer h =
        Means-skip name order n.world u o (λ rest v s. down name rest n.world u v t found answer s)
          (ih (record n { world = u }) h)
    probed t (ok true, u) found answer h = rw (← result_of_continue _ (some t) o _ h) (record {
      before = [];
      name = name;
      behind = order;
      reached = n.world;
      order_is = refl;
      skipped = done n.world;
      link_is = found;
      answers = ap (λ (run : Result Bool × W). run.0) answer;
    })

    turn :
        (found : Option (Transport W))
        → Dict.get name links ≡ found
        → ((probe found >>= choose_or now name next) n).0 ≡ ok o
        → Means (name ∷ order) n.world o
    unfolding resume
    turn none missing h =
        Means-skip name order n.world n.world o (λ rest v s. absent name rest n.world v missing s)
          (ih n h)
    turn (some t) found h = probed t (t.is_available n.world) found refl h

  first_available-Means :
      (now : Time) (order : List String) (n : Network W) (o : Option (Transport W))
      → (first_available now links order n).0 ≡ ok o
      → Means order n.world o
  unfolding first_available
  first_available-Means now [] n o h =
      let none_is : none ≡ o = cc h in rw (← none_is) (n.world, done n.world)
  first_available-Means now (name ∷ order) n o h =
      turn now name order n o (first_available now links order)
        (λ m k. first_available-Means now order m o k) (Dict.get name links) refl h

module _ {W : Type 0} where
  -- If the search for a link returns one, that is the link under the first name of the order of
  -- preference whose probe is answered with true: every name before it has no link or a link that
  -- answers with false. If it returns none, all the names were passed over in that way.
  pub get_active_transport-Means :
      (now : Time) (n : Network W) (o : Option (Transport W))
      → (get_active_transport now n).0 ≡ ok o
      → Means n.manager.transports n.manager.preference_order n.world o
  unfolding get_active_transport
  get_active_transport-Means now n o h =
      first_available-Means n.manager.transports now n.manager.preference_order n o h
