-- ===== src/Engine/Context/Registering.antt =====
-- What `ub4j_create_context` and `ub4j_delete_context` do to the table of contexts.
use unbound4j.Base.{ℕ, ◌≡◌, ap, ◌∙◌, false, Option, none, some, List, [], ◌∷◌, ◌++◌}
use unbound4j.Uthash.{Ptr, Items, Uthash, Lacks}
use unbound4j.Engine.State.{Config, Context, State}
use unbound4j.Engine.Tracking.{Fresh, Distinct-append}
use unbound4j.Engine.Context.{Error, CreateInputs, create_context}
use unbound4j.Engine.Context.Outcome.{Outcome}
use unbound4j.Engine.Context.Creation.{create_context-Outcome}
use unbound4j.Engine.Context.Registry.{Registered, Stand-others, Stand-append, Fresh-Stand}

module _ (H : Uthash) where
  open H use {Table, items, find, items-add}

  -- Either the context joins the registry, or the caller gets an error and the registry is as before.
  abbrev pub Registers :
      Config → Ptr → ℕ → Items → List Context → State Table → Option Error × State Table → Type 0
  Registers config p u l cs s (none, s') =
      (c : Context) × Registered H s' (l ++ (s.ctx_id_generator, p) ∷ []) (cs ++ c ∷ [])
      × (c.id ≡ s.ctx_id_generator)
      × (c.ub_ctx ≡ u)
      × (c.stopping ≡ false)
      × (c.request_timeout_secs ≡ config.request_timeout_secs)
  Registers config p u l cs s (some e, s') = Registered H s' l cs

  registers :
      (config : Config) (p : Ptr) (u : ℕ) (l : Items) (cs : List Context) (s : State Table)
      (r : Option Error × State Table)
      → Registered H s l cs
      → Fresh s.ctx_id_generator p l
      → Outcome H config p u s r
      → Registers config p u l cs s r
  registers config p u l cs s (none, s') old fresh new =
      let (c, at, id, ub, live, timeout) = new.stored in
      let same =
        Stand-others s.context_at s'.context_at s.ctx_id_generator p l cs new.leaves.others fresh
          old.stand in
      (
        c,
        record {
          listed =
              ap items new.listed
              ∙ items-add s.ctx_id_generator p s.contexts
              ∙ ap (λ (x : Items). x ++ (s.ctx_id_generator, p) ∷ []) old.listed;
          stand = Stand-append s'.context_at s.ctx_id_generator p c l cs same at id;
          distinct = Distinct-append s.ctx_id_generator p l old.distinct fresh;
        },
        id,
        ub,
        live,
        timeout,
      )
  registers config p u l cs s (some e, s') old fresh new = record {
    listed = ap items new.unlisted ∙ old.listed;
    stand =
        Stand-others s.context_at s'.context_at s.ctx_id_generator p l cs new.leaves.others fresh
          old.stand;
    distinct = old.distinct;
  }

  -- If malloc gives a pointer that is not in use, ub_ctx_create succeeds and the next id is not
  -- listed, then ub4j_create_context refines the registry, a list of items with their structures:
  -- either the new context joins its end under the next id, with its Unbound context and timeout
  -- and not stopping, or there is an error and the registry is as before.
  pub create_context-Registers :
      (config : Config) (inp : CreateInputs) (p : Ptr) (u : ℕ) (l : Items) (cs : List Context)
      (s : State Table)
      → inp.memory ≡ some p
      → inp.ub_ctx_create ≡ some u
      → s.context_at p ≡ none
      → Lacks s.ctx_id_generator l
      → Registered H s l cs
      → Registers config p u l cs s (create_context H config inp s)
  create_context-Registers config inp p u l cs s room made free new old =
      registers config p u l cs s (create_context H config inp s) old
        (Fresh-Stand s.context_at s.ctx_id_generator p l cs old.stand free new)
        (create_context-Outcome H config inp p u s room made)
