-- ===== src/Driver/Exit.antt =====
-- How `main` exits.
use unbound4j.Base.{ℕ, ◌≡◌, ap, ◌∙◌, Bool, true, none, some, List, [], ◌∷◌, subst}
use unbound4j.Uthash.{Ptr, Uthash}
use unbound4j.Engine.State.{Config, State, initial}
use unbound4j.Engine.Context.{init, config_init, create_context}
use unbound4j.Engine.Context.Outcome.{Outcome, Success}
use unbound4j.Engine.Context.Start.{init-initial}
use unbound4j.Engine.Context.Creation.{create_context-Outcome}
use unbound4j.Engine.Context.Destruction.{join}
use unbound4j.Engine.Thread.{RoundInputs}
use unbound4j.Engine.Concurrent.{Concurrent}
use unbound4j.Engine.Lifetime.{Success-Kept, Over, destroy-Over}
use unbound4j.Driver.{MainInputs, spawn, run_main, main}

module _ (H : Uthash) (rounds : RoundInputs H.Table) where
  open H use {Table, items, empty, items-empty, items-add}

  abbrev pub started : MainInputs Table → State Table
  started inp = init inp.ctx_lock inp.query_lock inp.cfg_lock (initial H)

  -- If main of the command line driver creates its context and all its threads, and what these do
  -- until they are joined is a history of lookups, answers and rounds, in which other threads may
  -- look addresses up while the delegate of an answer is called, with the processing thread then
  -- at the test of its loop, and ub4j_destroy gets the lock, then main returns 0 and nothing is
  -- left: no context, no query, nothing outstanding at libunbound, the structure freed and the
  -- Unbound context deleted, and each userdata was told exactly as often as a lookup with it was
  -- accepted.
  pub main-Over :
      (config : Config) (inp : MainInputs Table) (p : Ptr) (u : ℕ) (query_lock : Bool)
      (s s' : State Table) (vs : List ℕ)
      → inp.create.memory ≡ some p
      → inp.create.ub_ctx_create ≡ some u
      → create_context H (config_init config) inp.create (started inp) ≡ (none, s)
      → Concurrent H u p s s' vs
      → inp.work s ≡ some s'
      → inp.wrlock ≡ true
      → spawn inp.created 0 12 ≡ true
      → (z : State Table) × (main H (join H rounds query_lock) config inp (initial H) ≡ some (0, z))
        × Over H u p s' vs z
  unfolding main run_main
  main-Over config inp p u query_lock s s' vs room made created run worked locked spawned =
      let (no_contexts, no_queries, first, quiet, silent) =
        init-initial H inp.ctx_lock inp.query_lock inp.cfg_lock in
      let outcome : Success H (config_init config) p u (started inp) s =
        subst (λ r. Outcome H (config_init config) p u (started inp) r) created
          (create_context-Outcome H (config_init config) inp.create p u (started inp) room made) in
      let (c, mine, kept) =
        Success-Kept H u p (config_init config) (started inp) s (ap items no_queries ∙ items-empty)
          quiet silent outcome in
      let alone : items s.contexts ≡ (1, p) ∷ [] =
        ap items outcome.listed ∙ items-add _ p _ ∙ rw (no_contexts, first, items-empty) in
      let (z, e, over) =
        destroy-Over H u p c mine 1 query_lock inp.joined rounds s s' vs kept run alone in
      (z, rw (created, worked, spawned, locked, e), over)
