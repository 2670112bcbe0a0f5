-- ===== src/Engine/Race.antt =====
-- A context that is deleted while a lookup holds a pointer to it.
use unbound4j.Base.{
  ℕ, ◌≤◌, ◌≡◌, ap, ◌∙◌, Bool, true, Option, none, some, List, [], ◌∷◌, AreBytes, length, ◌>>=◌,
  if◌then◌else◌,
}
use unbound4j.Uthash.{Ptr, Uthash}
use unbound4j.Engine.State.{Context, State}
use unbound4j.Engine.Query.{LookupInputs, reverse_lookup, reverse_lookup_domain, track}
use unbound4j.Engine.Runs.{Kept}
use unbound4j.Engine.Concurrent.{Concurrent}
use unbound4j.Engine.Thread.{RoundInputs, end_thread}
use unbound4j.Engine.Thread.Stop.{Answering}
use unbound4j.Engine.Context.{delete_context}
use unbound4j.Engine.Context.Deletion.{stopped, delete_context-tells}
use unbound4j.Dnsutils.Addresses.{build_reverse_lookup_domain_v4-Builds}

module _ (H : Uthash) (u : ℕ) (cp : Ptr) (c : Context) (mine : c.ub_ctx ≡ u) where
  open H use {Table, find}

  -- The context is freed, so there is nothing to submit the query to.
  freed-faults :
      (between : State Table → Option (State Table)) (inp : LookupInputs)
      (ctx_id w x y z userdata callback : ℕ) (p : Ptr) (s s₁ : State Table)
      → AreBytes (w ∷ x ∷ y ∷ z ∷ [])
      → 32 ≤ length inp.stack
      → inp.rdlock ≡ true
      → inp.domain_memory ≡ true
      → inp.query_memory ≡ some p
      → inp.wrlock ≡ true
      → find ctx_id s.contexts ≡ some cp
      → between s ≡ some s₁
      → s₁.context_at cp ≡ none
      → reverse_lookup H between inp ctx_id (w ∷ x ∷ y ∷ z ∷ []) userdata callback s ≡ none
  unfolding reverse_lookup reverse_lookup_domain track
  freed-faults between inp ctx_id w x y z userdata callback p s s₁ bytes room reads memory query
        writes found others gone =
      let (name, built, _, _) =
        build_reverse_lookup_domain_v4-Builds w x y z inp.stack inp.domain_memory bytes room in
      let named = built ∙ ap (λ (b : Bool). some (if b then some name else none)) memory in
      rw (reads, others, found, named, query, writes, gone)

  -- Start with a context structure and no tracked query, and take any history of lookups, answers
  -- and rounds, in which other threads may look addresses up while the delegate of an answer is
  -- called. If a lookup of four bytes finds the context and another thread deletes the context, as
  -- in delete_context-tells, after the lookup released the lock of the contexts, and the memory
  -- and the locks are there, then the lookup faults: it uses the freed structure.
  pub reverse_lookup-faults :
      (joined : Bool) (wrlock : Bool) (running : Option (RoundInputs Table))
      (rounds : RoundInputs Table) (inp : LookupInputs) (ctx_id w x y z userdata callback : ℕ)
      (p : Ptr) (s s' : State Table) (vs : List ℕ)
      → Kept H u cp c s []
      → Concurrent H u cp s s' vs
      → Answering H u running (stopped cp c (record s' { contexts = H.del cp s'.contexts }))
      → find ctx_id s'.contexts ≡ some cp
      → AreBytes (w ∷ x ∷ y ∷ z ∷ [])
      → 32 ≤ length inp.stack
      → inp.rdlock ≡ true
      → inp.domain_memory ≡ true
      → inp.query_memory ≡ some p
      → inp.wrlock ≡ true
      → reverse_lookup H
          (λ t.
            delete_context H (end_thread H cp wrlock running rounds) true joined ctx_id t >>= λ r.
            some r.1)
          inp
          ctx_id
          (w ∷ x ∷ y ∷ z ∷ [])
          userdata
          callback
          s'
        ≡ none
  reverse_lookup-faults joined wrlock running rounds inp ctx_id w x y z userdata callback p s s' vs
        start run answering found bytes room reads memory query writes =
      let (t, e, _, gone) =
        delete_context-tells H u cp c mine wrlock joined running rounds ctx_id s s' vs start run
          answering found in
      freed-faults _ inp ctx_id w x y z userdata callback p s' t bytes room reads memory query
        writes found (rw e) gone.structure
