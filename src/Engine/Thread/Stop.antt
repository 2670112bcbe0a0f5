-- ===== src/Engine/Thread/Stop.antt =====
-- How the processing thread ends once `stopping` is set.
use unbound4j.Base.{
  ℕ, ◌≡◌, ap, ◌∙◌, Bool, true, false, Option, none, some, List, [], ◌∷◌, if◌then◌else◌, ◌>>=◌,
  arith,
}
use unbound4j.Uthash.{Ptr, Uthash}
use unbound4j.Engine.State.{Context, State, fatal, call}
use unbound4j.Engine.Tracking.{told, Tracks}
use unbound4j.Engine.Thread.{RoundInputs, stop_cleanup, give_up_all, processing_thread, end_thread}
use unbound4j.Engine.Thread.Round.{stop_cleanup-Drops}
use unbound4j.Engine.Lifecycle.{Kept-Reach}
use unbound4j.Engine.Contexts.{Reach-contexts}
use unbound4j.Engine.Thread.Deliveries.{Delivery, deliver_all, Documented}
use unbound4j.Engine.Thread.Answers.{process_round-Reach}
use unbound4j.Engine.Runs.{Kept, count, count-tells}

module _ (H : Uthash) (u : ℕ) where
  open H use {Table}

  -- In the round in progress, if there is one, libunbound answers queries and nobody else acts.
  abbrev pub Answering : Option (RoundInputs Table) → State Table → Type 0
  Answering none s = Unit {0}
  Answering (some inp) s =
      (ds : List Delivery) × (inp.answers s ≡ deliver_all H u ds s)
      × Documented H u ds s
      × ((x : State Table) → inp.between x ≡ some x)

module _ (H : Uthash) (u : ℕ) (cp : Ptr) (c : Context) (mine : c.ub_ctx ≡ u) where
  open H use {Table}

  -- No query is left, every accepted lookup was told once, and the contexts are as before.
  abbrev pub Ended : List ℕ → State Table → Option (State Table) → Type 0
  Ended us s result =
      (z : State Table) × (result ≡ some z)
      × Tracks H u z [] []
      × ((v : ℕ) → count v (told z.calls) ≡ count v us)
      × (z.contexts ≡ s.contexts)
      × (z.context_at cp ≡ some c)

  stopped-Ended :
      (wrlock : Bool) (inp : RoundInputs Table) (s : State Table) (us : List ℕ)
      → Kept H u cp c s us
      → c.stopping ≡ true
      → Ended us s (processing_thread H cp wrlock (inp ∷ []) s >>= λ r. some r.1)
  unfolding processing_thread
  stopped-Ended wrlock inp s us kept stop =
      let (l, qs, t, counts) = kept.queue in
      let (z, e, t', tell, same, same') = stop_cleanup-Drops H u wrlock l qs s t in
      (
        z,
        rw (kept.context, stop, mine, e),
        t',
        (λ v. omega (arith, ap (count v) tell, count-tells v qs (told s.calls), counts v)),
        same,
        ap (λ (f : Ptr → Option Context). f cp) same' ∙ kept.context,
      )

  pub end_thread-Ended :
      (wrlock : Bool) (running : Option (RoundInputs Table)) (inp : RoundInputs Table)
      (s : State Table) (us : List ℕ)
      → Kept H u cp c s us
      → Answering H u running s
      → c.stopping ≡ true
      → Ended us s (end_thread H cp wrlock running inp s)
  unfolding end_thread
  end_thread-Ended wrlock none inp s us kept answering stop =
      stopped-Ended wrlock inp s us kept stop
  end_thread-Ended wrlock (some running) inp s us kept (ds, delivers, documented, alone) stop =
      let (x, e, run) =
        process_round-Reach H u cp c mine running ds s us kept delivers documented alone in
      let (z, e', t, tell, same, at) =
        stopped-Ended wrlock inp x us (Kept-Reach H u cp c mine s x [] us run kept) stop in
      (
        z,
        rw (kept.context, mine, e) e',
        t,
        tell,
        same ∙ Reach-contexts H u cp c mine s x [] us run kept,
        at,
      )

module _ (H : Uthash) (cp : Ptr) where
  open H use {Table, items}

  -- With no query in the table there is nothing to give up.
  pub end_thread-quiet :
      (c : Context) (wrlock : Bool) (inp : RoundInputs Table) (s : State Table)
      → items s.queries ≡ []
      → s.context_at cp ≡ some c
      → c.stopping ≡ true
      → end_thread H cp wrlock none inp s ≡ some (if wrlock then s else call fatal s)
  unfolding end_thread processing_thread stop_cleanup give_up_all
  end_thread-quiet c true inp s quiet at stop = rw (at, stop, quiet)
  end_thread-quiet c false inp s quiet at stop = rw (at, stop, quiet)
