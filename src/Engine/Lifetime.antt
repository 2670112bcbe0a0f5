-- ===== src/Engine/Lifetime.antt =====
-- The life of the one context of a program: its creation, a history, and `ub4j_destroy`.
use unbound4j.Base.{
  ℕ, ◌≡◌, ap, ◌∙◌, inl, inr, Bool, true, none, some, List, [], ◌∷◌, arith, ==_self, Bool-cases,
}
use unbound4j.Uthash.{Ptr, Uthash, remove, has_item}
use unbound4j.Engine.State.{Config, Context, State, logged, call}
use unbound4j.Engine.Tracking.{outstanding, told}
use unbound4j.Engine.Thread.{RoundInputs}
use unbound4j.Engine.Runs.{count, Kept}
use unbound4j.Engine.Concurrent.{Concurrent, Concurrent-Kept, Concurrent-keeps}
use unbound4j.Engine.Context.{destroy}
use unbound4j.Engine.Context.Outcome.{is_deleted, Success}
use unbound4j.Engine.Context.Deletion.{Freed, free_context_fn-Freed}
use unbound4j.Engine.Context.Destruction.{join, destroy-single}

module _ (H : Uthash) (u : ℕ) (cp : Ptr) where
  open H use {Table, items, find, empty, items-empty, items-add, items-del}

  -- A context that was created while nothing was tracked.
  pub Success-Kept :
      (config : Config) (s s' : State Table)
      → items s.queries ≡ []
      → outstanding s.calls ≡ []
      → told s.calls ≡ []
      → Success H config cp u s s'
      → (c : Context) × (c.ub_ctx ≡ u) × Kept H u cp c s' []
  Success-Kept config s s' untracked quiet silent o =
      let (c, at, _, ub, _, _) = o.stored in
      (
        c,
        ub,
        record {
          queue = (
            [],
            [],
            record {
              in_table = ap items o.leaves.same_queries ∙ untracked;
              at_unbound = o.leaves.quiet quiet;
              live = tt;
              distinct = tt;
            },
            (λ v. omega (arith, ap (count v) (o.leaves.silent ∙ silent))),
          );
          context = at;
        },
      )

  -- What is left when the only context was destroyed.
  abbrev pub Over : State Table → List ℕ → State Table → Type 0
  Over s vs z = (items z.contexts ≡ []) × Freed H u cp (H.del cp s.contexts) vs z

  pub destroy-Over :
      (c : Context) (mine : c.ub_ctx ≡ u) (k : ℕ) (wrlock joined : Bool) (inp : RoundInputs Table)
      (s s' : State Table) (vs : List ℕ)
      → Kept H u cp c s []
      → Concurrent H u cp s s' vs
      → items s.contexts ≡ (k, cp) ∷ []
      → (z : State Table) × (destroy H (join H inp wrlock) true joined s' ≡ some z) × Over s' vs z
  unfolding has_item remove outstanding told is_deleted
  destroy-Over c mine k wrlock joined inp s s' vs start history alone =
      let kept = Concurrent-keeps H u cp c mine s s' vs history start in
      let listed : items s'.contexts ≡ (k, cp) ∷ [] =
        ap items (Concurrent-Kept H u cp c mine s s' vs [] history start).1 ∙ alone in
      let has : has_item cp (items s'.contexts) ≡ true = rw (listed, ==_self cp) in
      let emptied = items-del cp s'.contexts has ∙ rw (listed, ==_self cp) in
      let (z, e, gone) =
        free_context_fn-Freed H u cp c mine wrlock joined none inp (H.del cp s'.contexts) s' vs kept
          tt in
      let runs = destroy-single H (join H inp wrlock) joined k cp s' z listed e in
      elim (Bool-cases joined) [
        | inl good ↦ (z, runs ∙ rw good, (ap items gone.table ∙ emptied, gone))
        | inr bad ↦ (
          call logged z,
          runs ∙ rw bad,
          (
            ap items gone.table ∙ emptied,
            record {
              table = gone.table;
              structure = gone.structure;
              no_query = gone.no_query;
              no_answer = gone.no_answer;
              unbound = gone.unbound;
              all_told = gone.all_told;
            },
          ),
        )
      ]
