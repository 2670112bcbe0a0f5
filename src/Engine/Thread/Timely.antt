-- ===== src/Engine/Thread/Timely.antt =====
-- Runs with a clock that does not go back: a round leaves no query that is due.
use unbound4j.Base.{
  ℕ, ◌+◌, ◌≤◌, ◌≡◌, refl, sym, ap, subst, ◌∙◌, inl, inr, Option, some, List, [], ◌∷◌, ◌++◌, Bytes,
  arith,
}
use unbound4j.Uthash.{Ptr, Items, Uthash}
use unbound4j.Engine.State.{Query, Context, State}
use unbound4j.Engine.Query.{UbResult, LookupInputs, LookupError, track}
use unbound4j.Engine.Tracking.{outstanding, Tracks}
use unbound4j.Engine.Submit.{Unused, submitted, track-Accepts}
use unbound4j.Engine.Answer.{answer, answer-Tracks, answer-named}
use unbound4j.Engine.Runs.{May, May-Maps, Step, lookup, answers, turn}
use unbound4j.Engine.Lifecycle.{lookup-cases}
use unbound4j.Engine.Thread.{RoundInputs, IsQuiet, process_round}
use unbound4j.Engine.Thread.Round.{process_round-Drops}
use unbound4j.Engine.Thread.Deadline.{IsOrdered}
use unbound4j.Engine.Thread.Order.{
  ExpiresBy, ExpiresBy-mono, ExpiresBy-append, ExpiresBy-left, ExpiresBy-right, IsOrdered-append,
  IsOrdered-without, IsOrdered-right,
}

module _ (H : Uthash) (u : ℕ) (cp : Ptr) where
  open H use {Table, items, find}

  -- The clock before and behind a step: a lookup reads it.
  abbrev pub Clocked : {s s' : State Table} {ws : List ℕ} → Step H u cp s s' ws → ℕ → ℕ → Type 0
  Clocked (lookup inp ctx_id addr userdata callback r found new e) t t' =
      (t ≤ inp.now) × (t' ≡ inp.now)
  Clocked (answers k p err result buffer may e) t t' = t' ≡ t
  Clocked (turn select_ok process_ok rdlock wrlock now e) t t' = t' ≡ t

  -- The runs in which the clock of the lookups does not go back, with its last reading.
  pub data Timed (s : State Table) : State Table → ℕ → Type 0 where
    begin : (t : ℕ) → Timed s s t
    passes :
        {s₁ s₂ : State Table} {ws : List ℕ} {t t' : ℕ}
        → Timed s s₁ t
        → (step : Step H u cp s₁ s₂ ws) → Clocked step t t'
        → Timed s s₂ t'

  -- The queue is tracked in the order of expiry, and the last query expires by the clock and the timeout.
  pub record InOrder (c : Context) (s : State Table) (t : ℕ) : Type 0 where
    pub queue :
        (l : Items) × (qs : List Query) × Tracks H u s l qs
        × IsOrdered qs
        × ExpiresBy (t + c.request_timeout_secs) qs
    pub context : s.context_at cp ≡ some c

module _ (H : Uthash) (u : ℕ) (cp : Ptr) (c : Context) (mine : c.ub_ctx ≡ u) where
  open H use {Table, items, find}

  track-InOrder :
      (inp : LookupInputs) (name : Bytes) (userdata callback : ℕ) (r : Option LookupError)
      (s s' : State Table) (t : ℕ)
      → InOrder H u cp c s t
      → t ≤ inp.now
      → Unused H u inp (items s.queries) s
      → track H inp name userdata callback cp s ≡ some (r, s')
      → InOrder H u cp c s' inp.now
  track-InOrder inp name userdata callback r s s' t order later new e =
      let (l, qs, tr, o, by) = order.queue in
      let new' : Unused H u inp l s = subst (λ x. Unused H u inp x s) tr.in_table new in
      let (r₁, s₁, e₁, m₁, _, _, outcome) =
        track-Accepts H u inp name userdata callback cp c l qs s tr order.context mine new' in
      let same : s₁ ≡ s' = cc in
      let q = submitted H u inp userdata callback c in
      let by' =
        ExpiresBy-mono (t + c.request_timeout_secs) (inp.now + c.request_timeout_secs) qs
          (omega arith) by in
      let still = ap (λ (f : Ptr → Option Context). f cp) m₁ ∙ order.context in
      subst (λ x. InOrder H u cp c x inp.now) same
        (elim outcome [
          | inl (_, (l', tr')) ↦ record {
            queue = (
              l',
              qs ++ q ∷ [],
              tr',
              IsOrdered-append qs q o by',
              ExpiresBy-append (inp.now + c.request_timeout_secs) qs (q ∷ []) by' (omega arith, tt),
            );
            context = still;
          }
          | inr (_, tr') ↦ record { queue = (l, qs, tr', o, by'); context = still }
        ])

  answer-InOrder :
      (k : ℕ) (p : Ptr) (err : ℕ) (result : Option UbResult) (buffer : Option Bytes)
      (s s' : State Table) (t : ℕ)
      → InOrder H u cp c s t
      → May u k p (outstanding s.calls)
      → answer H u k p err result buffer s ≡ some s'
      → InOrder H u cp c s' t
  answer-InOrder k p err result buffer s s' t order may e =
      let (l, qs, tr, o, by) = order.queue in
      let (host, named) = answer-named H u k p err result buffer s s' e in
      let (q, qs', s₁, e₁, (xs, ys, split, split'), tr', _, m₁, _) =
        answer-Tracks H u k p err result buffer host l qs s tr
          (May-Maps u k p l (subst (May u k p) tr.at_unbound may)) named in
      let same : s₁ ≡ s' = cc in
      let o' = IsOrdered-without xs ys q (subst IsOrdered split o) in
      let split_by = subst (ExpiresBy (t + c.request_timeout_secs)) split by in
      let by' =
        ExpiresBy-append (t + c.request_timeout_secs) xs ys
          (ExpiresBy-left (t + c.request_timeout_secs) xs (q ∷ ys) split_by)
          (ExpiresBy-right (t + c.request_timeout_secs) xs (q ∷ ys) split_by).1 in
      subst (λ x. InOrder H u cp c x t) same
        (record {
          queue = (
            _,
            qs',
            tr',
            subst IsOrdered (sym split') o',
            subst (ExpiresBy (t + c.request_timeout_secs)) (sym split') by',
          );
          context = ap (λ (f : Ptr → Option Context). f cp) m₁ ∙ order.context;
        })

  round-InOrder :
      (inp : RoundInputs Table) (s s' : State Table) (t : ℕ)
      → IsQuiet inp
      → InOrder H u cp c s t
      → process_round H u inp s ≡ some s'
      → InOrder H u cp c s' t
  round-InOrder inp s s' t idle order e =
      let (l, qs, tr, o, by) = order.queue in
      let (s₁, l₁, gone, rest, e₁, split, tr', _, _, m₁) =
        process_round-Drops H u inp l qs s idle tr in
      let same : s₁ ≡ s' = cc in
      subst (λ x. InOrder H u cp c x t) same
        (record {
          queue = (
            l₁,
            rest,
            tr',
            IsOrdered-right gone rest (subst IsOrdered split o),
            ExpiresBy-right (t + c.request_timeout_secs) gone rest
                (subst (ExpiresBy (t + c.request_timeout_secs)) split by),
          );
          context = ap (λ (f : Ptr → Option Context). f cp) m₁ ∙ order.context;
        })

  Step-InOrder :
      (s s' : State Table) (ws : List ℕ) (t t' : ℕ) (step : Step H u cp s s' ws)
      → Clocked H u cp step t t'
      → InOrder H u cp c s t
      → InOrder H u cp c s' t'
  Step-InOrder s s' ws t t' (lookup inp ctx_id addr userdata callback r found new e) (later, now)
        order =
      subst (InOrder H u cp c s') (sym now)
        (elim (lookup-cases H u cp c mine inp ctx_id addr userdata callback r s s' found e) [
          | inl (_, same) ↦
              subst (λ x. InOrder H u cp c x inp.now) (sym same)
                (let (l, qs, tr, o, by) = order.queue in
                  record {
                    queue = (
                      l,
                      qs,
                      tr,
                      o,
                      ExpiresBy-mono (t + c.request_timeout_secs) (inp.now + c.request_timeout_secs)
                          qs (omega arith) by,
                    );
                    context = order.context;
                  })
          | inr (name, e') ↦ track-InOrder inp name userdata callback r s s' t order later new e'
        ])
  Step-InOrder s s' ws t t' (answers k p err result buffer may e) still order =
      subst (InOrder H u cp c s') (sym still)
        (answer-InOrder k p err result buffer s s' t order may e)
  Step-InOrder s s' ws t t' (turn select_ok process_ok rdlock wrlock now e) still order =
      subst (InOrder H u cp c s') (sym still)
        (round-InOrder _ s s' t ((λ x. refl), (λ x. refl)) order e)

  pub Timed-InOrder :
      (s s' : State Table) (t : ℕ)
      → ((t₀ : ℕ) → InOrder H u cp c s t₀)
      → Timed H u cp s s' t
      → InOrder H u cp c s' t
  Timed-InOrder s s' t start (begin _) = start t
  Timed-InOrder s s' t start (passes {s₁ = s₁} {ws = ws} {t = t₁} run step clocked) =
      Step-InOrder s₁ s' ws t₁ t step clocked (Timed-InOrder s s₁ t₁ start run)
