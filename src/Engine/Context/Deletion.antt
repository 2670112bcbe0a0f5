-- ===== src/Engine/Context/Deletion.antt =====
-- `ub4j_delete_context` together with the thread that it stops and joins.
use unbound4j.Base.{
  ℕ, ◌≡◌, refl, ap, ◌∙◌, Bool, true, Option, none, some, List, [], ◌∷◌, if◌then◌else◌, ==_self,
}
use unbound4j.Uthash.{Ptr, Uthash, remove}
use unbound4j.Engine.State.{
  Context, State, ctx_deleted, thread_joined, logged, put, call, set_context,
}
use unbound4j.Engine.Tracking.{drop_ctx, outstanding, told}
use unbound4j.Engine.Context.{join_thread, free_context_fn, delete_context}
use unbound4j.Engine.Context.Outcome.{is_deleted}
use unbound4j.Engine.Thread.{RoundInputs, end_thread}
use unbound4j.Engine.Runs.{count, Kept}
use unbound4j.Engine.Answer.{Maps-has_item}
use unbound4j.Engine.Concurrent.{Concurrent, Concurrent-keeps}
use unbound4j.Engine.State.{put_self}
use unbound4j.Engine.Thread.Stop.{Answering, end_thread-Ended}

-- What `ub4j_free_context` leaves, behind the state in which the thread has ended.
abbrev pub freed : {T : Type 0} → Ptr → Context → State T → State T
freed p c z = record z {
  context_at = put z.context_at p none;
  calls = ctx_deleted c.ub_ctx ∷ thread_joined c.thread_id ∷ z.calls;
}

abbrev pub stopped : {T : Type 0} → Ptr → Context → State T → State T
stopped p c s = call logged (set_context p (record c { stopping = true }) s)

pub free_context_fn-runs :
    (H : Uthash) (join : State H.Table → Option (State H.Table)) (joined : Bool) (p : Ptr)
    (c c' : Context) (s z : State H.Table)
    → s.context_at p ≡ some c
    → join (stopped p c s) ≡ some z
    → z.context_at p ≡ some c'
    → free_context_fn H join joined p s
      ≡ some (if joined then none else some join_thread, freed p c z)
unfolding free_context_fn
free_context_fn-runs H join joined p c c' s z at e at' = rw (at, e, at')

module _ (H : Uthash) (u : ℕ) (cp : Ptr) where
  open H use {Table, items}

  -- What is left of a context that was taken out of the table, which is then `t`.
  pub record Freed (t : Table) (us : List ℕ) (z : State Table) : Type 0 where
    pub table : z.contexts ≡ t
    pub structure : z.context_at cp ≡ none
    pub no_query : items z.queries ≡ []
    pub no_answer : outstanding z.calls ≡ []
    pub unbound : is_deleted u z.calls ≡ true
    pub all_told : (v : ℕ) → count v (told z.calls) ≡ count v us

module _ (H : Uthash) (u : ℕ) (cp : Ptr) (c : Context) (mine : c.ub_ctx ≡ u) where
  open H use {Table, items, find, find-some, items-del}

  Kept-stopped :
      (t : Table) (s : State Table) (us : List ℕ)
      → Kept H u cp c s us
      → Kept H u cp (record c { stopping = true }) (stopped cp c (record s { contexts = t })) us
  unfolding outstanding told
  Kept-stopped t s us kept =
      let (l, qs, tr, counts) = kept.queue in
      record {
        queue = (
          l,
          qs,
          record {
            in_table = tr.in_table;
            at_unbound = tr.at_unbound;
            live = tr.live;
            distinct = tr.distinct;
          },
          counts,
        );
        context = put_self s.context_at cp (some (record c { stopping = true }));
      }

  pub free_context_fn-Freed :
      (wrlock joined : Bool) (running : Option (RoundInputs Table)) (inp : RoundInputs Table)
      (t : Table) (s : State Table) (us : List ℕ)
      → Kept H u cp c s us
      → Answering H u running (stopped cp c (record s { contexts = t }))
      → (z : State Table) × (free_context_fn H
            (end_thread H cp wrlock running inp)
            joined
            cp
            (record s { contexts = t })
          ≡ some (if joined then none else some join_thread, z))
        × Freed H u cp t us z
  unfolding outstanding drop_ctx told is_deleted
  free_context_fn-Freed wrlock joined running inp t s us kept answering =
      let c' = record c { stopping = true } in
      let (z, e, tr, tell, same, at) =
        end_thread-Ended H u cp c' mine wrlock running inp
          (stopped cp c (record s { contexts = t })) us (Kept-stopped t s us kept) answering refl in
      (
        freed cp c z,
        free_context_fn-runs H (end_thread H cp wrlock running inp) joined cp c c'
            (record s { contexts = t }) z kept.context e at,
        record {
          table = same;
          structure = put_self z.context_at cp none;
          no_query = tr.in_table;
          no_answer = ap (drop_ctx c.ub_ctx) tr.at_unbound;
          unbound = rw (mine, ==_self u);
          all_told = tell;
        },
      )

  -- Start with a context structure of the Unbound context u and no tracked query, and take any
  -- history of lookups, answers and rounds, in which other threads may look addresses up while the
  -- delegate of an answer is called. Deleting the context by its id, with the lock, where its
  -- thread is at the test of its loop or in a round in which libunbound answers outstanding
  -- queries with documented results and no other thread acts, is defined: the structure is freed
  -- and its item alone leaves the table, no query is tracked or outstanding, the Unbound context
  -- is deleted, and each userdata has been told exactly as often as a lookup with it was accepted.
  -- The only error is that of the join.
  pub delete_context-tells :
      (wrlock joined : Bool) (running : Option (RoundInputs Table)) (inp : RoundInputs Table)
      (ctx_id : ℕ) (s s' : State Table) (vs : List ℕ)
      → Kept H u cp c s []
      → Concurrent H u cp s s' vs
      → Answering H u running (stopped cp c (record s' { contexts = H.del cp s'.contexts }))
      → find ctx_id s'.contexts ≡ some cp
      → (z : State Table) × (delete_context H
            (end_thread H cp wrlock running inp)
            true
            joined
            ctx_id
            s'
          ≡ some (if joined then none else some join_thread, z))
        × (items z.contexts ≡ remove cp (items s'.contexts))
        × Freed H u cp (H.del cp s'.contexts) vs z
  unfolding delete_context
  delete_context-tells wrlock joined running inp ctx_id s s' vs start history answering found =
      let kept = Concurrent-keeps H u cp c mine s s' vs history start in
      let has =
        Maps-has_item ctx_id cp (items s'.contexts) (find-some ctx_id cp s'.contexts found) in
      let (z, e, gone) =
        free_context_fn-Freed wrlock joined running inp (H.del cp s'.contexts) s' vs kept
          answering in
      (z, simp (found, has) e, ap items gone.table ∙ items-del cp s'.contexts has, gone)
