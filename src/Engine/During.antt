-- ===== src/Engine/During.antt =====
-- Lookups of other threads during a callback, between the call of the delegate and the write lock.
use unbound4j.Base.{
  ℕ, ◌≡◌, refl, sym, ap, subst, ◌∙◌, true, false, Option, none, some, List, [], ◌++◌, Bytes,
}
use unbound4j.Uthash.{Ptr, Uthash, has_item}
use unbound4j.Engine.State.{Query, Context, State, Call, answered, call}
use unbound4j.Engine.Query.{
  UbResult, LookupInputs, LookupError, host_name, lookup_callback, reverse_lookup,
}
use unbound4j.Engine.Tracking.{outstanding, told}
use unbound4j.Engine.Answer.{answer, answered_state, answer-runs, Live-at, Maps-has_item}
use unbound4j.Engine.Submit.{Unused}
use unbound4j.Engine.Runs.{count, May, May-Maps, accepted, lookup, Reach, here, next, Kept}
use unbound4j.Engine.Lifecycle.{told_once, Kept-Reach}
use unbound4j.Engine.Frames.{with_calls, lookup-Frames}
use unbound4j.Engine.Beside.{Beside, Beside-Submits, entered, entered_calls, outstanding-entered}

module _ (H : Uthash) (u : ℕ) (cp : Ptr) where
  open H use {Table, items, find}

  -- The lookups of other threads, with the userdata of the accepted ones.
  pub data Lookups (s : State Table) : State Table → List ℕ → Type 0 where
    no_lookup : Lookups s s []
    one_more :
        {s₁ s₂ : State Table} {vs xs : List ℕ}
        → Lookups s s₁ vs
        → (inp : LookupInputs) (ctx_id : ℕ) (addr : Bytes) (userdata callback : ℕ)
          (r : Option LookupError)
        → find ctx_id s₁.contexts ≡ some cp
        → Unused H u inp (items s₁.queries) s₁
        → reverse_lookup H some inp ctx_id addr userdata callback s₁ ≡ some (r, s₂)
        → xs ≡ accepted r userdata ++ vs
        → Lookups s s₂ xs

module _ (H : Uthash) (u : ℕ) (cp : Ptr) (c : Context) (mine : c.ub_ctx ≡ u) where
  open H use {Table, items, find, del}

  -- The state `a` is one of a run, but for its history.
  abbrev Ahead : ℕ → Ptr → Query → State Table → State Table → List ℕ → Type 0
  Ahead k p q s a ws =
      (h : List Call) × (b : State Table) × (a ≡ with_calls h b)
      × Reach H u cp s b ws
      × Beside u k p q h b.calls
      × (b.query_at p ≡ some q)

  one_more-Ahead :
      (k : ℕ) (p : Ptr) (q : Query) (h : List Call) (s b s₂ : State Table) (us vs xs : List ℕ)
      (inp : LookupInputs) (ctx_id : ℕ) (addr : Bytes) (userdata callback : ℕ)
      (r : Option LookupError)
      → Kept H u cp c s us
      → Reach H u cp s b vs
      → Beside u k p q h b.calls
      → b.query_at p ≡ some q
      → find ctx_id b.contexts ≡ some cp
      → Unused H u inp (items b.queries) (with_calls h b)
      → reverse_lookup H some inp ctx_id addr userdata callback (with_calls h b) ≡ some (r, s₂)
      → xs ≡ accepted r userdata ++ vs
      → Ahead k p q s s₂ xs
  one_more-Ahead k p q h s b s₂ us vs xs inp ctx_id addr userdata callback r kept run beside at
        found new e added =
      let kept' = Kept-Reach H u cp c mine s b vs us run kept in
      let (r', more, b', submits, runs, keeps, _) =
        lookup-Frames H u cp c mine inp ctx_id addr userdata callback (r, s₂) h b kept'.context
          found new.new_memory e in
      let result : ◌≡◌ {A = Option (Option LookupError × State Table)}
          (some (r', with_calls (more ++ h) b')) (some (r, s₂)) =
        sym (runs h) ∙ e in
      let same : with_calls (more ++ h) b' ≡ s₂ = cc in
      let same_result : r' ≡ r = cc in
      let unused : Unused H u inp (items b.queries) b = record {
        new_memory = new.new_memory;
        new_id = new.new_id;
      } in
      (
        more ++ h,
        with_calls (more ++ b.calls) b',
        sym same,
        next run (lookup inp ctx_id addr userdata callback r' found unused (runs b.calls))
            (added ∙ ap (λ (x : Option LookupError). accepted x userdata ++ vs) (sym same_result)),
        Beside-Submits u k p q more h b.calls submits beside,
        keeps p q at,
      )

  Lookups-Ahead :
      (k : ℕ) (p : Ptr) (q : Query) (h : List Call) (s a : State Table) (us ws : List ℕ)
      → Kept H u cp c s us
      → Beside u k p q h s.calls
      → s.query_at p ≡ some q
      → Lookups H u cp (with_calls h s) a ws
      → Ahead k p q s a ws
  Lookups-Ahead k p q h s a us ws kept beside at no_lookup = (h, s, refl, here, beside, at)
  Lookups-Ahead k p q h s a us ws kept beside at
        (one_more {s₁ = s₁} {vs = vs} others inp ctx_id addr userdata callback r found new e
          added) =
      let (h', b, same, run, beside', at') =
        Lookups-Ahead k p q h s s₁ us vs kept beside at others in
      one_more-Ahead k p q h' s b a us vs ws inp ctx_id addr userdata callback r kept run beside'
        at' (ap (λ (x : State Table). find ctx_id x.contexts) (sym same) ∙ found)
        (subst (λ (x : State Table). Unused H u inp (items x.queries) x) same new)
        (ap (reverse_lookup H some inp ctx_id addr userdata callback) (sym same) ∙ e) added

  callback-runs :
      (between : State Table → Option (State Table)) (k : ℕ) (p : Ptr) (q : Query) (err : ℕ)
      (result : Option UbResult) (buffer host : Option Bytes) (h : List Call) (s b : State Table)
      → s.query_at p ≡ some q
      → q.expired ≡ false
      → host_name err result buffer ≡ some host
      → between (entered H u k q err result host s) ≡ some (with_calls h b)
      → b.query_at p ≡ some q
      → has_item p (items b.queries) ≡ true
      → lookup_callback H between p err result buffer true (call (answered u k) s)
        ≡ some (with_calls h (answered_state H u k p q err result host b))
  unfolding lookup_callback
  callback-runs between k p q err none buffer host h s b at live named others at_b has =
      rw (at, named, live, others, at_b, live, has, at_b)
  callback-runs between k p q err (some r) buffer host h s b at live named others at_b has =
      rw (at, named, live, others, at_b, live, has, at_b)

  -- Take a state in which one queue of live queries is tracked and outstanding, and let libunbound
  -- answer one of them, with a host name that is defined. If other threads look addresses up
  -- between the call of the delegate and the write lock of the callback, the callback is defined,
  -- and what it leaves is what the answer leaves when those lookups, a run, come before it: the
  -- same tables, structures and queries that libunbound may answer, and each userdata told as
  -- often.
  pub lookup_callback-linear :
      (between : State Table → Option (State Table)) (k : ℕ) (p : Ptr) (q : Query) (err : ℕ)
      (result : Option UbResult) (buffer host : Option Bytes) (s s₁ : State Table) (us ws : List ℕ)
      → Kept H u cp c s us
      → May u k p (outstanding s.calls)
      → s.query_at p ≡ some q
      → host_name err result buffer ≡ some host
      → between (entered H u k q err result host s) ≡ some s₁
      → Lookups H u cp (entered H u k q err result host s) s₁ ws
      → (b : State Table) × (h : List Call) × (z : State Table) × Reach H u cp s b ws
        × May u k p (outstanding b.calls)
        × (answer H u k p err result buffer b ≡ some z)
        × (lookup_callback H between p err result buffer true (call (answered u k) s)
            ≡ some (with_calls h z))
        × (outstanding h ≡ outstanding z.calls)
        × ((v : ℕ) → count v (told h) ≡ count v (told z.calls))
  lookup_callback-linear between k p q err result buffer host s s₁ us ws kept may at named others
        lookups =
      let (l, qs, t, _) = kept.queue in
      let (q', at', live') =
        Live-at s.query_at k p l qs (May-Maps u k p l (subst (May u k p) t.at_unbound may))
          t.live in
      let same_query : q' ≡ q = cc in
      let live = subst (λ (x : Query). x.expired ≡ false) same_query live' in
      let h₀ = (entered H u k q err result host s).calls in
      let beside : Beside u k p q h₀ s.calls = record {
        may = may;
        left = outstanding-entered H u k q err result host s;
        once = λ v. told_once v q err host result u k s;
      } in
      let (h, b, same, run, beside', at_b) = Lookups-Ahead k p q h₀ s s₁ us ws kept beside at (
        subst (λ (x : State Table). Lookups H u cp x s₁ ws)
          (entered_calls H u k q err result host s) lookups) in
      let (l', qs', t', _) = (Kept-Reach H u cp c mine s b ws us run kept).queue in
      let has : has_item p (items b.queries) ≡ true =
        rw t'.in_table (
          Maps-has_item k p l' (May-Maps u k p l' (subst (May u k p) t'.at_unbound beside'.may))) in
      (
        b,
        h,
        answered_state H u k p q err result host b,
        run,
        beside'.may,
        answer-runs H u k p q err result buffer host b at_b live has named,
        callback-runs between k p q err result buffer host h s b at live named
            (others ∙ ap some same) at_b has,
        beside'.left ∙ sym (outstanding-entered H u k q err result host b),
        (λ v. beside'.once v ∙ sym (told_once v q err host result u k b)),
      )
