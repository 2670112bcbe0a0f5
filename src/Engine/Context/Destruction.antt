-- ===== src/Engine/Context/Destruction.antt =====
-- `ub4j_destroy` together with the threads that it stops and joins, where no query waits.
use unbound4j.Base.{
  ℕ, ◌≡◌, refl, ap, ◌∙◌, Bool, true, false, Option, none, some, List, [], ◌∷◌, All, if◌then◌else◌,
  arith, ==_self,
}
use unbound4j.Uthash.{Ptr, Items, Uthash, remove, has_item}
use unbound4j.Engine.State.{
  Context, State, Call, ctx_deleted, thread_joined, logged, fatal, put, put_self, call,
}
use unbound4j.Engine.Thread.{RoundInputs, end_thread}
use unbound4j.Engine.Thread.Stop.{end_thread-quiet}
use unbound4j.Engine.Context.{join_thread, free_context_fn, destroy_loop, destroy}
use unbound4j.Engine.Context.Outcome.{is_deleted}
use unbound4j.Engine.Context.Deletion.{freed, stopped, free_context_fn-runs}
use unbound4j.Engine.Context.Registry.{Stand-put, Registered}

-- What the end of one context adds.
abbrev pub ended_calls : Bool → Bool → Context → List Call → List Call
ended_calls wrlock joined c h =
    let h₁ =
      ctx_deleted c.ub_ctx
      ∷ thread_joined c.thread_id
      ∷ (if wrlock then logged ∷ h else fatal ∷ logged ∷ h) in
    if joined then h₁ else logged ∷ h₁

module _ (H : Uthash) (inp : RoundInputs H.Table) where
  open H use {Table, items, del, items-del}

  -- The thread of each context is at the test of its loop.
  abbrev pub join : Bool → Ptr → State Table → Option (State Table)
  join wrlock p s = end_thread H p wrlock none inp s

  abbrev pub gone : Bool → Bool → Ptr → Context → State Table → State Table
  gone wrlock joined p c s = record s {
    contexts = del p s.contexts;
    context_at = put (put s.context_at p (some (record c { stopping = true }))) p none;
    calls = ended_calls wrlock joined c s.calls;
  }

  module _ (k : ℕ) (p : Ptr) (c : Context) (l : Items) (s : State Table)
      (has : has_item p (items s.contexts) ≡ true) (quiet : items s.queries ≡ [])
      (at : s.context_at p ≡ some c) where
    pub ending :
        (wrlock joined : Bool) (z : State Table)
        → (if wrlock
            then stopped p c (record s { contexts = del p s.contexts })
            else call fatal (stopped p c (record s { contexts = del p s.contexts })))
          ≡ z
        → z.context_at p ≡ some (record c { stopping = true })
        → free_context_fn H (join wrlock p) joined p (record s { contexts = del p s.contexts })
          ≡ some (if joined then none else some join_thread, freed p c z)
    ending wrlock joined z e at' =
        free_context_fn-runs H (join wrlock p) joined p c (record c { stopping = true })
          (record s { contexts = del p s.contexts }) z at
          (end_thread-quiet H p (record c { stopping = true }) wrlock inp
              (stopped p c (record s { contexts = del p s.contexts })) quiet
              (put_self s.context_at p (some (record c { stopping = true }))) refl
            ∙ ap some e)
          at'

    destroy_loop-step :
        (wrlock joined : Bool)
        → destroy_loop H (join wrlock) joined ((k, p) ∷ l) s
          ≡ destroy_loop H (join wrlock) joined l (gone wrlock joined p c s)
    unfolding destroy_loop
    destroy_loop-step true true = rw (has, ending true true _ refl (put_self s.context_at p _))
    destroy_loop-step true false = rw (has, ending true false _ refl (put_self s.context_at p _))
    destroy_loop-step false true = rw (has, ending false true _ refl (put_self s.context_at p _))
    destroy_loop-step false false = rw (has, ending false false _ refl (put_self s.context_at p _))

  -- Each listed structure is freed and each Unbound context deleted; what was freed or deleted before
  -- stays so.
  pub record Destroys (l : Items) (cs : List Context) (s z : State Table) : Type 0 where
    pub emptied : items z.contexts ≡ []
    pub structures : All (λ (x : ℕ × Ptr). z.context_at x.1 ≡ none) l
    pub unbound : All (λ (c : Context). is_deleted c.ub_ctx z.calls ≡ true) cs
    pub still_free : (x : Ptr) → s.context_at x ≡ none → z.context_at x ≡ none
    pub still_deleted : (u : ℕ) → is_deleted u s.calls ≡ true → is_deleted u z.calls ≡ true

  pub ended_calls-deleted :
      (wrlock joined : Bool) (c : Context) (h : List Call)
      → is_deleted c.ub_ctx (ended_calls wrlock joined c h) ≡ true
  unfolding is_deleted
  ended_calls-deleted wrlock true c h = rw (==_self c.ub_ctx)
  ended_calls-deleted wrlock false c h = rw (==_self c.ub_ctx)

  ended_calls-still :
      (wrlock joined : Bool) (c : Context) (h : List Call) (u : ℕ)
      → is_deleted u h ≡ true
      → is_deleted u (ended_calls wrlock joined c h) ≡ true
  unfolding is_deleted
  ended_calls-still true true c h u e = ground (arith, e)
  ended_calls-still true false c h u e = ground (arith, e)
  ended_calls-still false true c h u e = ground (arith, e)
  ended_calls-still false false c h u e = ground (arith, e)

  destroy_loop-Destroys :
      (wrlock joined : Bool) (l : Items) (cs : List Context) (s : State Table)
      → items s.queries ≡ []
      → Registered H s l cs
      → (z : State Table) × (destroy_loop H (join wrlock) joined l s ≡ some z) × Destroys l cs s z
  unfolding destroy_loop remove has_item
  destroy_loop-Destroys wrlock joined [] [] s quiet r = (
    s,
    refl,
    record {
      emptied = r.listed;
      structures = tt;
      unbound = tt;
      still_free = λ x e. e;
      still_deleted = λ u e. e;
    },
  )
  destroy_loop-Destroys wrlock joined [] (c ∷ cs) s quiet r = absurd r.stand
  destroy_loop-Destroys wrlock joined ((k, p) ∷ l) [] s quiet r = absurd r.stand
  destroy_loop-Destroys wrlock joined ((k, p) ∷ l) (c ∷ cs) s quiet r =
      let (at, id, others) = r.stand in
      let (fresh, distinct) = r.distinct in
      let has : has_item p (items s.contexts) ≡ true = rw (r.listed, ==_self p) in
      let r' : Registered H (gone wrlock joined p c s) l cs = record {
        listed = items-del p s.contexts has ∙ rw (r.listed, ==_self p);
        stand = Stand-put _ k p none l cs fresh (Stand-put s.context_at k p _ l cs fresh others);
        distinct = distinct;
      } in
      let (z, e, d) =
        destroy_loop-Destroys wrlock joined l cs (gone wrlock joined p c s) quiet r' in
      let free = put_self (put s.context_at p (some (record c { stopping = true }))) p none in
      (
        z,
        destroy_loop-step k p c l s has quiet at wrlock joined ∙ e,
        record {
          emptied = d.emptied;
          structures = (d.still_free p free, d.structures);
          unbound =
              (d.still_deleted c.ub_ctx (ended_calls-deleted wrlock joined c s.calls), d.unbound);
          still_free = λ x e. d.still_free x (ground arith);
          still_deleted = λ w e. d.still_deleted w (ended_calls-still wrlock joined c s.calls w e);
        },
      )

  -- If no query is tracked, the table of contexts has distinct keys and structures that are
  -- allocated, and each thread is at the test of its loop, then ub4j_destroy with the lock is
  -- defined, whatever the join and the lock of the queries return: the table is empty, each listed
  -- structure is freed, each Unbound context is deleted, and what was freed or deleted before
  -- stays so.
  pub destroy-Destroys :
      (wrlock joined : Bool) (l : Items) (cs : List Context) (s : State Table)
      → items s.queries ≡ []
      → Registered H s l cs
      → (z : State Table) × (destroy H (join wrlock) true joined s ≡ some z) × Destroys l cs s z
  unfolding destroy
  destroy-Destroys wrlock joined l cs s quiet r =
      rw (r.listed) (destroy_loop-Destroys wrlock joined l cs s quiet r)

module _ (H : Uthash) where
  open H use {Table, items, del}

  -- The only context.
  pub destroy-single :
      (thread : Ptr → State Table → Option (State Table)) (joined : Bool) (k : ℕ) (p : Ptr)
      (s z : State Table)
      → items s.contexts ≡ (k, p) ∷ []
      → free_context_fn H (thread p) joined p (record s { contexts = del p s.contexts })
        ≡ some (if joined then none else some join_thread, z)
      → destroy H thread true joined s ≡ some (if joined then z else call logged z)
  unfolding destroy destroy_loop has_item
  destroy-single thread true k p s z alone e =
      let has : has_item p (items s.contexts) ≡ true = rw (alone, ==_self p) in rw (alone, has, e)
  destroy-single thread false k p s z alone e =
      let has : has_item p (items s.contexts) ≡ true = rw (alone, ==_self p) in rw (alone, has, e)
