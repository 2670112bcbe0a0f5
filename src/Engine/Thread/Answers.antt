-- ===== src/Engine/Thread/Answers.antt =====
-- A round of the processing thread in which `ub_process` delivers answers and other threads act.
use unbound4j.Base.{
  ℕ, ◌≡◌, refl, ap, ◌∙◌, inl, inr, Bool, true, false, Option, some, List, [], ◌∷◌, ◌++◌, Bool-cases,
  leb,
}
use unbound4j.Uthash.{Ptr, Items, Uthash}
use unbound4j.Engine.State.{Context, State, Query}
use unbound4j.Engine.Tracking.{Tracks}
use unbound4j.Engine.Thread.{
  RoundInputs, need_to_cancel, expire_loop, check_queries, process_answers, process_round,
}
use unbound4j.Engine.Thread.Round.{process_round-Drops, need_to_cancel-defined}
use unbound4j.Engine.Runs.{turn, Reach, here, next, Kept}
use unbound4j.Engine.Lifecycle.{Kept-Reach}
use unbound4j.Engine.Concurrent.{Concurrent, nothing_yet, Reach-Concurrent, Concurrent-Kept}
use unbound4j.Engine.Interleaving.{Reach-append, Concurrent-append, Acts}
use unbound4j.Engine.Thread.Deliveries.{Delivery, deliver_all, Documented, deliver_all-Acts}

module _ (H : Uthash) (u : ℕ) where
  open H use {Table}

  -- Where the queue is not due, the pass does nothing, so the peek may be left out.
  check_queries-peek :
      (now : ℕ) (l : Items) (qs : List Query) (s : State Table)
      → Tracks H u s l qs
      → expire_loop H u now l s ≡ check_queries H u now some true true s
  unfolding expire_loop check_queries need_to_cancel
  check_queries-peek now [] qs s t = rw (t.in_table)
  check_queries-peek now ((k, p) ∷ l) [] s t = absurd t.live
  check_queries-peek now ((k, p) ∷ l) (q ∷ qs) s t =
      elim (Bool-cases (leb q.expires_at_epoch_sec now)) [
        | inl due ↦ rw (t.in_table, t.live.0, due)
        | inr early ↦ rw (t.in_table, t.live.0, early)
      ]

module _ (H : Uthash) (u : ℕ) (cp : Ptr) (c : Context) (mine : c.ub_ctx ≡ u) where
  open H use {Table, items}

  -- The peek and the pass, with nobody between them, are a round of their own.
  check_queries-Reach :
      (now : ℕ) (rdlock wrlock : Bool) (s : State Table) (us : List ℕ)
      → Kept H u cp c s us
      → (z : State Table) × (check_queries H u now some rdlock wrlock s ≡ some z)
        × Reach H u cp s z []
  unfolding process_round process_answers
  check_queries-Reach now rdlock wrlock s us kept =
      let (l, qs, t, _) = kept.queue in
      let inp : RoundInputs Table = record {
        select_ok = false;
        answers = some;
        process_ok = true;
        now = now;
        rdlock = rdlock;
        between = some;
        wrlock = wrlock;
      } in
      let (z, _, _, _, e, _, _, _, _, _) =
        process_round-Drops H u inp l qs s ((λ x. refl), (λ x. refl)) t in
      (z, e, next here (turn false true rdlock wrlock now e) refl)

  quiet-Acts :
      (now : ℕ) (rdlock wrlock : Bool) (s : State Table) (us : List ℕ)
      → Kept H u cp c s us
      → Acts H u cp (check_queries H u now some rdlock wrlock) s
  quiet-Acts now rdlock wrlock s us kept =
      let (z, e, run) = check_queries-Reach now rdlock wrlock s us kept in
      (z, [], e, Reach-Concurrent H u cp s z [] run)

  then-Acts :
      (f g : State Table → Option (State Table)) (s x : State Table) (ws : List ℕ)
      → Concurrent H u cp s x ws
      → f s ≡ g x
      → Acts H u cp g x
      → Acts H u cp f s
  then-Acts f g s x ws run e (z, vs, e', run') =
      (z, vs ++ ws, e ∙ e', Concurrent-append H u cp s x z ws vs run run')

  -- The pass with others in between is the pass behind what they did.
  check_queries-Acts :
      (now : ℕ) (between : State Table → Option (State Table)) (rdlock wrlock : Bool)
      (s : State Table) (us : List ℕ)
      → Kept H u cp c s us
      → Acts H u cp between s
      → Acts H u cp (check_queries H u now between rdlock wrlock) s
  unfolding check_queries
  check_queries-Acts now between false wrlock s us kept acts =
      then-Acts (check_queries H u now between false wrlock)
        (check_queries H u now some false wrlock) s s [] nothing_yet refl
        (quiet-Acts now false wrlock s us kept)
  check_queries-Acts now between true wrlock s us kept (x, ws, others, run) =
      let (l, qs, t, _) = kept.queue in
      let (need, e) = need_to_cancel-defined H u now l qs s t in
      let e' = ap (λ (y : Items). need_to_cancel H now y s) t.in_table ∙ e in
      elim (Bool-cases need) [
        | inr early ↦
            then-Acts (check_queries H u now between true wrlock)
              (check_queries H u now some true wrlock) s s [] nothing_yet (rw (e', early))
              (quiet-Acts now true wrlock s us kept)
        | inl due ↦
            let kept' = (Concurrent-Kept H u cp c mine s x ws us run kept).0 in
            let (l', qs', t', _) = kept'.queue in
            elim (Bool-cases wrlock) [
              | inr busy ↦
                  then-Acts (check_queries H u now between true wrlock)
                    (check_queries H u now some false wrlock) s x ws run
                    (rw (e', due, others, busy)) (quiet-Acts now false wrlock x (ws ++ us) kept')
              | inl locked ↦
                  then-Acts (check_queries H u now between true wrlock)
                    (check_queries H u now some true true) s x ws run
                    (rw (e', due, others, locked)
                      (ap (λ (y : Items). expire_loop H u now y x) t'.in_table
                        ∙ check_queries-peek H u now l' qs' x t'))
                    (quiet-Acts now true true x (ws ++ us) kept')
            ]
      ]

  -- The answers of a round, and the entry of the log if `ub_process` reports an error.
  process_answers-Acts :
      (inp : RoundInputs Table) (s : State Table) (us : List ℕ)
      → Kept H u cp c s us
      → Acts H u cp inp.answers s
      → Acts H u cp (process_answers H inp) s
  unfolding process_answers check_queries
  process_answers-Acts inp s us kept (x, ws, answered, run) = elim (Bool-cases inp.select_ok) [
    | inr failed ↦ (s, [], rw failed, nothing_yet)
    | inl selected ↦ elim (Bool-cases inp.process_ok) [
      | inl fine ↦ (x, ws, rw (selected, answered, fine), run)
      | inr error ↦
          then-Acts (process_answers H inp) (check_queries H u 0 some false false) s x ws run
            (rw (selected, answered, error))
            (quiet-Acts 0 false false x (ws ++ us)
              (Concurrent-Kept H u cp c mine s x ws us run kept).0)
    ]
  ]

  -- Take a state in which one queue of live queries is tracked and outstanding. If what ub_process
  -- calls back does, and what other threads do between the read lock and the write lock of the
  -- pass, is each defined and a history of lookups, answers and rounds of this context, in which
  -- other threads may look addresses up while the delegate of an answer is called, then the round
  -- of the processing thread is defined, whatever select, ub_process and the locks return, and as
  -- a whole it is such a history.
  pub process_round-Acts :
      (inp : RoundInputs Table) (s : State Table) (us : List ℕ)
      → Kept H u cp c s us
      → Acts H u cp inp.answers s
      → ((x : State Table) → process_answers H inp s ≡ some x → Acts H u cp inp.between x)
      → Acts H u cp (process_round H u inp) s
  unfolding process_round
  process_round-Acts inp s us kept answering others =
      let (x, ws, e, run) = process_answers-Acts inp s us kept answering in
      then-Acts (process_round H u inp)
        (check_queries H u inp.now inp.between inp.rdlock inp.wrlock) s x ws run (rw e refl)
        (check_queries-Acts inp.now inp.between inp.rdlock inp.wrlock x (ws ++ us)
          (Concurrent-Kept H u cp c mine s x ws us run kept).0 (others x e))

  -- A round in which only libunbound acts: no lookup is accepted.
  pub process_round-Reach :
      (inp : RoundInputs Table) (ds : List Delivery) (s : State Table) (us : List ℕ)
      → Kept H u cp c s us
      → inp.answers s ≡ deliver_all H u ds s
      → Documented H u ds s
      → ((x : State Table) → inp.between x ≡ some x)
      → (z : State Table) × (process_round H u inp s ≡ some z) × Reach H u cp s z []
  unfolding process_round process_answers check_queries
  process_round-Reach inp ds s us kept delivers documented alone =
      let nobody : inp.between ≡ some = λ i x. alone x i in
      let (x, e, run) = deliver_all-Acts H u cp c mine ds s us kept documented in
      let kept' = Kept-Reach H u cp c mine s x [] us run kept in
      let pass : (y : State Table)
          → process_answers H inp s ≡ some y
          → process_round H u inp s ≡ check_queries H u inp.now some inp.rdlock inp.wrlock y =
        λ y h. rw h (
          ap
            (λ (f : State Table → Option (State Table)).
              check_queries H u inp.now f inp.rdlock inp.wrlock y)
            nobody) in
      elim (Bool-cases inp.select_ok) [
        | inr failed ↦
            let (z, e', run') = check_queries-Reach inp.now inp.rdlock inp.wrlock s us kept in
            (z, pass s (rw failed) ∙ e', run')
        | inl selected ↦ elim (Bool-cases inp.process_ok) [
          | inl fine ↦
              let (z, e', run') = check_queries-Reach inp.now inp.rdlock inp.wrlock x us kept' in
              (
                z,
                pass x (rw (selected, delivers, e, fine)) ∙ e',
                Reach-append H u cp s x z [] [] run run',
              )
          | inr error ↦
              let (y, e₀, run₀) = check_queries-Reach 0 false false x us kept' in
              let (z, e', run') =
                check_queries-Reach inp.now inp.rdlock inp.wrlock y us
                  (Kept-Reach H u cp c mine x y [] us run₀ kept') in
              (
                z,
                pass y (rw (selected, delivers, e, error) e₀) ∙ e',
                Reach-append H u cp s x z [] [] run (Reach-append H u cp x y z [] [] run₀ run'),
              )
        ]
      ]
