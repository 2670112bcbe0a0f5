-- ===== src/Engine/Context/Launching.antt =====
-- What `ub4j_create_context` does from `ub_ctx_async` on.
use unbound4j.Base.{
  ℕ, ◌≡◌, refl, ap, ◌∙◌, inl, inr, Bool, true, false, Option, none, some, ◌==◌, arith, ==_self,
  Bool-cases, Option-cases,
}
use unbound4j.Uthash.{Ptr, Uthash}
use unbound4j.Engine.State.{
  Config, Context, State, ctx_deleted, thread_created, put, call, set_context,
}
use unbound4j.Engine.Context.{
  Error, set_async, get_fd, create_thread, CreateInputs, register, launch,
}
use unbound4j.Engine.State.{put_self, put_other}
use unbound4j.Engine.Tracking.{drop_ctx, outstanding, told}
use unbound4j.Engine.Context.Outcome.{is_deleted, leaves_open, Leaves, Failure, Outcome}

module _ (H : Uthash) where
  open H use {Table, add}

  register-Outcome :
      (config : Config) (wrlock : Bool) (p : Ptr) (c : Context) (s : State Table)
      → c.stopping ≡ false
      → Outcome H config p c.ub_ctx s (register H config wrlock p c s)
  unfolding register is_deleted told outstanding drop_ctx
  register-Outcome config true p c s live = record {
    leaves = record {
      others = λ x ne. ground arith;
      same_queries = refl;
      same_heap = refl;
      silent = refl;
      quiet = λ e. e;
    };
    listed = refl;
    next_id = refl;
    stored = (_, put_self s.context_at p _, refl, refl, live, refl);
  }
  register-Outcome config false p c s live = record {
    leaves = record {
      others = λ x ne. ground arith;
      same_queries = refl;
      same_heap = refl;
      silent = refl;
      quiet = λ e. ap (drop_ctx c.ub_ctx) e;
    };
    unlisted = refl;
    not_freed = (
      _,
      put_self
          (put s.context_at p (
            some (record c {
              id = s.ctx_id_generator;
              request_timeout_secs = config.request_timeout_secs;
            })))
          p _,
    );
    closed = rw (==_self c.ub_ctx);
  }

  -- A store to the structure comes before: the outcome is that of the state before the store.
  Leaves-put :
      (p : Ptr) (v : Option Context) (s s' : State Table)
      → Leaves H p (record s { context_at = put s.context_at p v }) s'
      → Leaves H p s s'
  Leaves-put p v s s' l = record {
    others = λ x ne. l.others x ne ∙ put_other s.context_at p x v ne;
    same_queries = l.same_queries;
    same_heap = l.same_heap;
    silent = l.silent;
    quiet = l.quiet;
  }

  pub Outcome-put :
      (config : Config) (p : Ptr) (u : ℕ) (v : Option Context) (s : State Table)
      (r : Option Error × State Table)
      → Outcome H config p u (record s { context_at = put s.context_at p v }) r
      → Outcome H config p u s r
  Outcome-put config p u v s (none, s') o = record {
    leaves = Leaves-put p v s s' o.leaves;
    listed = o.listed;
    next_id = o.next_id;
    stored = o.stored;
  }
  Outcome-put config p u v s (some e, s') o = record {
    leaves = Leaves-put p v s s' o.leaves;
    unlisted = o.unlisted;
    not_freed = o.not_freed;
    closed = o.closed;
  }

  -- So does the start of the thread.
  Outcome-thread :
      (config : Config) (p : Ptr) (u : ℕ) (s : State Table) (r : Option Error × State Table)
      → Outcome H config p u (call (thread_created p) s) r
      → Outcome H config p u s r
  unfolding is_deleted told outstanding
  Outcome-thread config p u s (none, s') o = record {
    leaves = record {
      others = o.leaves.others;
      same_queries = o.leaves.same_queries;
      same_heap = o.leaves.same_heap;
      silent = o.leaves.silent;
      quiet = o.leaves.quiet;
    };
    listed = o.listed;
    next_id = o.next_id;
    stored = o.stored;
  }
  Outcome-thread config p u s (some e, s') o = record {
    leaves = record {
      others = o.leaves.others;
      same_queries = o.leaves.same_queries;
      same_heap = o.leaves.same_heap;
      silent = o.leaves.silent;
      quiet = o.leaves.quiet;
    };
    unlisted = o.unlisted;
    not_freed = o.not_freed;
    closed = o.closed;
  }

  deleted-Leaves : (p u : ℕ) (s : State Table) → Leaves H p s (call (ctx_deleted u) s)
  unfolding told outstanding drop_ctx
  deleted-Leaves p u s = record {
    others = λ x ne. refl;
    same_queries = refl;
    same_heap = refl;
    silent = refl;
    quiet = λ e. ap (drop_ctx u) e;
  }

  -- An error that deletes the Unbound context and leaves the structure.
  pub closed-Failure :
      (e : Error) (p : Ptr) (c : Context) (s : State Table)
      → s.context_at p ≡ some c
      → leaves_open e ≡ false
      → Failure H e p c.ub_ctx s (call (ctx_deleted c.ub_ctx) s)
  unfolding is_deleted
  closed-Failure e p c s at shut = record {
    leaves = deleted-Leaves p c.ub_ctx s;
    unlisted = refl;
    not_freed = (c, at);
    closed = rw (==_self c.ub_ctx, shut);
  }

  pub launch-Outcome :
      (config : Config) (inp : CreateInputs) (p : Ptr) (c : Context) (s : State Table)
      → s.context_at p ≡ some c
      → c.stopping ≡ false
      → Outcome H config p c.ub_ctx s (launch H config inp p c s)
  unfolding launch
  launch-Outcome config inp p c s at live = elim (Bool-cases (inp.async == 0)) [
    | inr failed ↦ rw failed (closed-Failure set_async p c s at refl)
    | inl ok ↦ elim (Option-cases inp.fd) [
      | inl negative ↦ rw (ok, negative, launch) (closed-Failure get_fd p c s at refl)
      | inr (fd, opened) ↦ elim (Option-cases inp.thread) [
        | inl nothread ↦
            let c₁ = record c { ub_fd = fd } in
            rw (ok, opened, nothread, launch)
              (Outcome-put config p c.ub_ctx (some c₁) s
                (some create_thread, call (ctx_deleted c.ub_ctx) (set_context p c₁ s))
                (closed-Failure create_thread p c₁ (set_context p c₁ s)
                  (put_self s.context_at p (some c₁)) refl))
        | inr (th, started) ↦
            let c₂ = record c { ub_fd = fd; thread_id = th } in
            rw (ok, opened, started, launch)
              (Outcome-put config p c.ub_ctx (some c₂) s
                (register H config inp.wrlock p c₂ (call (thread_created p) (set_context p c₂ s)))
                (Outcome-thread config p c.ub_ctx (set_context p c₂ s)
                  (register H config inp.wrlock p c₂ (call (thread_created p) (set_context p c₂ s)))
                  (register-Outcome config inp.wrlock p c₂
                    (call (thread_created p) (set_context p c₂ s)) live)))
      ]
    ]
  ]
