-- ===== src/Engine/Context.antt =====
-- jni/src/unbound4j.c: `ub4j_init`, `ub4j_config_init`, `ub4j_create_context`,
-- `ub4j_delete_context`, `ub4j_free_context` and `ub4j_destroy`. What the libraries return is an
-- argument. A function returns its error text (`none` is success) and the new state; `none` around
-- both is a fault.
pub mod Outcome
pub mod Start
pub mod Launching
pub mod Creation
pub mod Deletion
pub mod Registry
pub mod Registering
pub mod Destruction
pub mod Unregistering
use unbound4j.Base.{
  ℕ, ◌+◌, ◌%◌, ◌^◌, Bool, true, false, not, Option, none, some, List, [], ◌∷◌, Bytes, ◌==◌,
  if◌then◌else◌, ◌>>=◌,
}
use unbound4j.Uthash.{Ptr, Items, Uthash, has_item}
use unbound4j.Engine.State.{
  Config, Context, State, Call, ctx_deleted, thread_created, thread_joined, fatal, logged, put,
  call, set_context, free_context, del_context, add_context,
}

pub data Error : Type 0 where
  alloc_context : Error
  create_ctx : Error
  read_resolvconf : ℕ → Error
  read_hosts : ℕ → Error
  read_config : Bytes → ℕ → Error
  set_async : Error
  get_fd : Error
  create_thread : Error
  write_lock : Error
  join_thread : Error

-- The three locks; each failure is logged, and nothing else happens.
unfoldable pub init : {T : Type 0} (ctx_lock query_lock cfg_lock : Bool) → State T → State T
init ctx_lock query_lock cfg_lock s =
    let s₁ = if ctx_lock then s else call fatal s in
    let s₂ = if query_lock then s₁ else call fatal s₁ in if cfg_lock then s₂ else call fatal s₂

unfoldable pub config_init : Config → Config
config_init config = record {
  use_system_resolver = true;
  unbound_config = none;
  request_timeout_secs = 5;
}

pub record CreateInputs : Type 0 where
  -- `malloc`, `none` is NULL
  pub memory : Option Ptr
  pub ub_ctx_create : Option ℕ
  -- 0 is success
  pub resolvconf : ℕ
  pub hosts : ℕ
  pub config : ℕ
  pub async : ℕ
  -- `none` is a negative number
  pub fd : Option ℕ
  -- the id of the new thread, `none` if there is none
  pub thread : Option ℕ
  pub wrlock : Bool

-- `memset(ctx, 0, …)` and the Unbound context.
abbrev pub new_context : ℕ → Context
new_context u = record {
  id = 0;
  ub_ctx = u;
  ub_fd = 0;
  thread_id = 0;
  stopping = false;
  request_timeout_secs = 0;
}

module _ {T : Type 0} where
  -- The two ways to configure the Unbound context.
  unfoldable pub configure : Config → CreateInputs → ℕ → State T → Option Error × State T
  configure config inp u s =
      if config.use_system_resolver
      then (if not (inp.resolvconf == 0)
          then (some (read_resolvconf inp.resolvconf), call (ctx_deleted u) s)
          else if not (inp.hosts == 0)
          then (some (read_hosts inp.hosts), s)
          else (none, s))
      else elim config.unbound_config [
        | none ↦ (none, s)
        | some path ↦
            if not (inp.config == 0)
            then (some (read_config path inp.config), call (ctx_deleted u) s)
            else (none, s)
      ]

module _ (H : Uthash) where
  open H use {Table, items, find}

  -- The id, the settings, and the entry in the table.
  unfoldable pub register : Config → Bool → Ptr → Context → State Table → Option Error × State Table
  register config wrlock p c s =
      let c₁ = record c {
        id = s.ctx_id_generator;
        request_timeout_secs = config.request_timeout_secs;
      } in
      let s₁ = record (set_context p c₁ s) {
        ctx_id_generator = (s.ctx_id_generator + 1) % 2 ^ 32;
      } in
      if not wrlock
      then (
        some write_lock,
        call (ctx_deleted c.ub_ctx) (set_context p (record c₁ { stopping = true }) s₁),
      )
      else (none, call logged (add_context H c₁.id p s₁))

  -- From `ub_ctx_async` on.
  unfoldable pub launch :
      Config → CreateInputs → Ptr → Context → State Table → Option Error × State Table
  launch config inp p c s =
      if not (inp.async == 0)
      then (some set_async, call (ctx_deleted c.ub_ctx) s)
      else elim inp.fd [
        | none ↦ (some get_fd, call (ctx_deleted c.ub_ctx) s)
        | some fd ↦
            let c₁ = record c { ub_fd = fd } in
            elim inp.thread [
              | none ↦ (some create_thread, call (ctx_deleted c.ub_ctx) (set_context p c₁ s))
              | some th ↦
                  let c₂ = record c₁ { thread_id = th } in
                  register config inp.wrlock p c₂ (call (thread_created p) (set_context p c₂ s))
            ]
      ]

  -- Behind `ub_ctx_create`.
  unfoldable pub prepare :
      Config → CreateInputs → Ptr → ℕ → State Table → Option Error × State Table
  prepare config inp p u s =
      let (e, s₁) = configure config inp u (set_context p (new_context u) s) in
      elim e [ some error ↦ (some error, s₁) | none ↦ launch config inp p (new_context u) s₁ ]

  -- The result is the pointer to the context, NULL beside an error.
  unfoldable pub create_context : Config → CreateInputs → State Table → Option Error × State Table
  create_context config inp s = elim inp.memory [
    | none ↦ (some alloc_context, s)
    | some p ↦ elim inp.ub_ctx_create [
      | none ↦ (some create_ctx, record s { context_at = put s.context_at p none })
      | some u ↦ prepare config inp p u s
    ]
  ]

  -- `ub4j_free_context`. `join` is what the processing thread still does before it ends, and tells
  -- whether `pthread_join` succeeds.
  pub free_context_fn :
      (State Table → Option (State Table))
      → Bool
      → Ptr
      → State Table
      → Option (Option Error × State Table)
  free_context_fn join joined p s = s.context_at p >>= λ c.
      join (call logged (set_context p (record c { stopping = true }) s)) >>= λ s₁.
      free_context p (call (ctx_deleted c.ub_ctx) (call (thread_joined c.thread_id) s₁)) >>= λ s₂.
      some (if joined then none else some join_thread, s₂)

  unfoldable pub delete_context :
      (State Table → Option (State Table))
      → (wrlock joined : Bool) → ℕ
      → State Table
      → Option (Option Error × State Table)
  delete_context join wrlock joined ctx_id s =
      if not wrlock then some (some write_lock, s) else elim (find ctx_id s.contexts) [
        | none ↦ some (none, s)
        | some p ↦ del_context H p s >>= λ s₁. free_context_fn join joined p s₁
      ]

  -- `HASH_ITER` with `HASH_DEL`, over the items that are left.
  pub destroy_loop :
      (Ptr → State Table → Option (State Table)) → Bool → Items → State Table → Option (State Table)
  destroy_loop join joined [] s = some s
  destroy_loop join joined ((k, p) ∷ l) s = del_context H p s >>= λ s₁.
      free_context_fn (join p) joined p s₁ >>= λ r.
      destroy_loop join joined l (elim r.0 [ none ↦ r.1 | some e ↦ call logged r.1 ])

  pub destroy :
      (Ptr → State Table → Option (State Table))
      → (wrlock joined : Bool) → State Table
      → Option (State Table)
  destroy join wrlock joined s =
      if not wrlock then some (call fatal s) else destroy_loop join joined (items s.contexts) s
