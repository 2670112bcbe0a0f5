-- ===== src/Engine/Thread/OnTime.antt =====
-- A round of the processing thread leaves no query that is due.
use unbound4j.Base.{
  ℕ, ◌+◌, ◌≡◌, refl, ap, ◌∙◌, inl, inr, true, Option, some, List, [], ◌∷◌, leb, leb_false→lt,
  ==_self, arith, Bool-cases,
}
use unbound4j.Uthash.{Ptr, Items, Uthash}
use unbound4j.Engine.State.{Query, Context, State}
use unbound4j.Engine.Tracking.{told, waiting, Tracks}
use unbound4j.Engine.Runs.{count, Kept}
use unbound4j.Engine.Thread.{RoundInputs, IsQuiet, process_round, check_queries, need_to_cancel}
use unbound4j.Engine.Thread.Round.{process_answers-defined}
use unbound4j.Engine.Thread.Deadline.{ExpiresAfter, IsOrdered, ExpiresAfter-mono, expire_loop-exact}
use unbound4j.Engine.Thread.Timely.{Timed, InOrder, Timed-InOrder}

module _ (H : Uthash) (u : ℕ) where
  open H use {Table, items}

  -- The queries that are left expire later than now.
  abbrev pub LeavesLater : ℕ → Option (State Table) → Type 0
  LeavesLater now result =
      (z : State Table) × (l : Items) × (qs : List Query) × (result ≡ some z)
      × Tracks H u z l qs
      × ExpiresAfter (now + 1) qs

  check_queries-LeavesLater :
      (now : ℕ) (l : Items) (qs : List Query) (s : State Table)
      → Tracks H u s l qs
      → IsOrdered qs
      → LeavesLater now (check_queries H u now some true true s)
  unfolding check_queries need_to_cancel
  check_queries-LeavesLater now [] [] s t o = (s, [], [], rw (t.in_table), t, tt)
  check_queries-LeavesLater now [] (q ∷ qs) s t o = absurd t.live
  check_queries-LeavesLater now ((k, p) ∷ l) [] s t o = absurd t.live
  check_queries-LeavesLater now ((k, p) ∷ l) (q ∷ qs) s t o =
      elim (Bool-cases (leb q.expires_at_epoch_sec now)) [
        | inl due ↦
            let (z, l', gone, rest, e, t', _, _, _, later, _) =
              expire_loop-exact H u now ((k, p) ∷ l) (q ∷ qs) s t o in
            (z, l', rest, rw (t.in_table, t.live.0, due) e, t', later)
        | inr early ↦
            let late = leb_false→lt q.expires_at_epoch_sec now early in
            (
              s,
              (k, p) ∷ l,
              q ∷ qs,
              rw (t.in_table, t.live.0, early),
              t,
              (
                omega arith,
                ExpiresAfter-mono (now + 1) q.expires_at_epoch_sec qs (omega arith) o.0,
              ),
            )
      ]

nobody_waits :
    (qs : List Query) (ws : List ℕ) → ((v : ℕ) → 0 ≡ count v ws + count v (waiting qs)) → qs ≡ []
nobody_waits [] ws none_waits = refl
nobody_waits (q ∷ qs) ws none_waits =
    let counted : count q.userdata (waiting (q ∷ qs)) ≡ 1 + count q.userdata (waiting qs) =
      rw (==_self q.userdata) refl in
    absurd (omega (arith, none_waits q.userdata, counted))

module _ (H : Uthash) (u : ℕ) (cp : Ptr) (c : Context) (mine : c.ub_ctx ≡ u) where
  open H use {Table, items}

  Kept-InOrder : (s : State Table) (t : ℕ) → Kept H u cp c s [] → InOrder H u cp c s t
  Kept-InOrder s t kept =
      let (l, qs, tr, counts) = kept.queue in
      let empty = nobody_waits qs (told s.calls) counts in
      record { queue = (l, qs, tr, rw empty tt, rw empty tt); context = kept.context }

  -- Take any run of lookups, answers and rounds on one context from a state with no tracked query,
  -- in which the clock that the lookups read does not go back. A round in which libunbound
  -- delivers no answer, no other thread acts and both locks are acquired is then defined, and
  -- every query that it leaves tracked expires later than the time that the round reads.
  pub process_round-LeavesLater :
      (inp : RoundInputs Table) (s s' : State Table) (t : ℕ)
      → Kept H u cp c s []
      → Timed H u cp s s' t
      → IsQuiet inp
      → inp.rdlock ≡ true
      → inp.wrlock ≡ true
      → LeavesLater H u inp.now (process_round H u inp s')
  unfolding process_round
  process_round-LeavesLater inp s s' t start run idle reads writes =
      let (l, qs, tr, o, _) =
        (Timed-InOrder H u cp c mine s s' t (λ t₀. Kept-InOrder s t₀ start) run).queue in
      let (s₁, e₁, tr₁, _, _, _) = process_answers-defined H u inp l qs s' idle tr in
      let (z, l', qs', e, tr', later) = check_queries-LeavesLater H u inp.now l qs s₁ tr₁ o in
      let nobody : inp.between ≡ some = λ i x. idle.1 x i in
      let locked : check_queries H u inp.now inp.between inp.rdlock inp.wrlock s₁
          ≡ check_queries H u inp.now some true true s₁ =
        ap (λ f. check_queries H u inp.now f inp.rdlock inp.wrlock s₁) nobody
        ∙ ap (λ b. check_queries H u inp.now some b inp.wrlock s₁) reads
        ∙ ap (λ b. check_queries H u inp.now some true b s₁) writes in
      (z, l', qs', rw e₁ (locked ∙ e), tr', later)
