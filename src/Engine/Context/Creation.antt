-- ===== src/Engine/Context/Creation.antt =====
-- What `ub4j_create_context` does on each branch.
use unbound4j.Base.{
  ℕ, ◌≡◌, refl, ap, ◌∙◌, ◌⊎◌, inl, inr, Option, none, some, ◌==◌, Bool-cases, Option-cases,
}
use unbound4j.Uthash.{Ptr, Uthash}
use unbound4j.Engine.State.{Config, Context, State, ctx_deleted, put, call, set_context}
use unbound4j.Engine.Context.{
  Error, alloc_context, create_ctx, read_resolvconf, read_hosts, read_config, CreateInputs,
  new_context, configure, launch, prepare, create_context,
}
use unbound4j.Engine.State.{put_self}
use unbound4j.Engine.Context.Launching.{Outcome-put, closed-Failure, launch-Outcome}
use unbound4j.Engine.Context.Outcome.{Failure, Outcome}

module _ (H : Uthash) where
  open H use {Table, add}

  -- The configuration either fails, or changes nothing that is modelled.
  configure-cases :
      (config : Config) (inp : CreateInputs) (p : Ptr) (c : Context) (s : State Table)
      → s.context_at p ≡ some c
      → ((e : Error) × (s' : State Table) × (configure config inp c.ub_ctx s ≡ (some e, s'))
          × Failure H e p c.ub_ctx s s')
        ⊎ (configure config inp c.ub_ctx s ≡ (none, s))
  unfolding configure
  configure-cases config inp p c s at = elim (Bool-cases config.use_system_resolver) [
    | inl system ↦ elim (Bool-cases (inp.resolvconf == 0)) [
      | inr bad ↦ inl (
        read_resolvconf inp.resolvconf,
        call (ctx_deleted c.ub_ctx) s,
        rw (system, bad),
        closed-Failure H (read_resolvconf inp.resolvconf) p c s at refl,
      )
      | inl ok ↦ elim (Bool-cases (inp.hosts == 0)) [
        | inr bad ↦ inl (
          read_hosts inp.hosts,
          s,
          rw (system, ok, bad),
          record {
            leaves = record {
              others = λ x ne. refl;
              same_queries = refl;
              same_heap = refl;
              silent = refl;
              quiet = λ e. e;
            };
            unlisted = refl;
            not_freed = (c, at);
            closed = refl;
          },
        )
        | inl fine ↦ inr (rw (system, ok, fine))
      ]
    ]
    | inr own ↦ elim (Option-cases config.unbound_config) [
      | inl unset ↦ inr (rw (own, unset))
      | inr (path, given) ↦ elim (Bool-cases (inp.config == 0)) [
        | inr bad ↦ inl (
          read_config path inp.config,
          call (ctx_deleted c.ub_ctx) s,
          rw (own, given, bad),
          closed-Failure H (read_config path inp.config) p c s at refl,
        )
        | inl ok ↦ inr (rw (own, given, ok))
      ]
    ]
  ]

  -- If malloc and ub_ctx_create succeed, ub4j_create_context on every further branch changes no
  -- query, tells no delegate, gives libunbound no query, and changes of the context structures
  -- only the one at p. On success the context is in the table under the next id, with its
  -- settings, and the generator has moved on. On an error the table is as before, the structure
  -- stays allocated, and the Unbound context was deleted, but for the error of the hosts file,
  -- which leaves it as it was.
  pub create_context-Outcome :
      (config : Config) (inp : CreateInputs) (p : Ptr) (u : ℕ) (s : State Table)
      → inp.memory ≡ some p
      → inp.ub_ctx_create ≡ some u
      → Outcome H config p u s (create_context H config inp s)
  unfolding create_context prepare
  create_context-Outcome config inp p u s room made =
      let c = new_context u in
      let after : Option Error × State Table → Option Error × State Table = λ r.
        elim r.0 as (λ e. Option Error × State Table) [
          | some error ↦ (some error, r.1)
          | none ↦ launch H config inp p c r.1
        ] in
      let no_ub_ctx : Option Error × State Table =
        (some create_ctx, record s { context_at = put s.context_at p none }) in
      let runs : create_context H config inp s ≡ prepare H config inp p u s =
        ap
          (λ (m : Option Ptr). elim m as (λ m. Option Error × State Table) [
            | none ↦ (some alloc_context, s)
            | some p ↦ elim inp.ub_ctx_create as (λ v. Option Error × State Table) [
              | none ↦ (some create_ctx, record s { context_at = put s.context_at p none })
              | some u ↦ prepare H config inp p u s
            ]
          ])
          room
        ∙ ap
            (λ (v : Option ℕ). elim v as (λ v. Option Error × State Table) [
              | none ↦ no_ub_ctx
              | some u ↦ prepare H config inp p u s
            ])
            made in
      let at = put_self s.context_at p (some c) in
      elim (configure-cases config inp p c (set_context p c s) at) [
        | inl (e, s', fails, f) ↦
            rw (runs ∙ ap after fails) (Outcome-put H config p u (some c) s (some e, s') f)
        | inr goes_on ↦ rw (runs ∙ ap after goes_on) (
            Outcome-put H config p u (some c) s (launch H config inp p c (set_context p c s))
              (launch-Outcome H config inp p c (set_context p c s) at refl))
      ]
