-- ===== src/Engine/Context/Outcome.antt =====
-- What `ub4j_create_context` leaves behind, on success and on an error.
use unbound4j.Base.{
  ℕ, ◌+◌, ◌%◌, ◌^◌, ◌≡◌, Bool, true, false, Option, none, some, List, [], ◌∷◌, ◌==◌, ◌||◌,
  if◌then◌else◌,
}
use unbound4j.Uthash.{Ptr, Uthash}
use unbound4j.Engine.State.{
  Config, Context, State, Call, ctx_deleted, thread_created, thread_joined, resolved, cancelled,
  answered, result_freed, delegate, fatal, logged,
}
use unbound4j.Engine.Tracking.{outstanding, told}
use unbound4j.Engine.Context.{
  Error, alloc_context, create_ctx, read_resolvconf, read_hosts, read_config, set_async, get_fd,
  create_thread, write_lock, join_thread,
}

-- The Unbound context was deleted at some time.
unfoldable pub is_deleted : ℕ → List Call → Bool
is_deleted u [] = false
is_deleted u (ctx_deleted w ∷ h) = w == u || is_deleted u h
is_deleted u (thread_created p ∷ h) = is_deleted u h
is_deleted u (thread_joined th ∷ h) = is_deleted u h
is_deleted u (resolved w id p name ∷ h) = is_deleted u h
is_deleted u (cancelled w id ∷ h) = is_deleted u h
is_deleted u (answered w id ∷ h) = is_deleted u h
is_deleted u (result_freed ∷ h) = is_deleted u h
is_deleted u (delegate f v e r ∷ h) = is_deleted u h
is_deleted u (fatal ∷ h) = is_deleted u h
is_deleted u (logged ∷ h) = is_deleted u h

-- The errors behind which the Unbound context is left open.
abbrev pub leaves_open : Error → Bool
leaves_open alloc_context = false
leaves_open create_ctx = false
leaves_open (read_resolvconf n) = false
leaves_open (read_hosts n) = true
leaves_open (read_config path n) = false
leaves_open set_async = false
leaves_open get_fd = false
leaves_open create_thread = false
leaves_open write_lock = false
leaves_open join_thread = false

module _ (H : Uthash) where
  open H use {Table, add}

  -- Only the structure at `p` changes, and no query does.
  pub record Leaves (p : Ptr) (s s' : State Table) : Type 0 where
    pub others : (x : Ptr) → ¬ (p ≡ x) → s'.context_at x ≡ s.context_at x
    pub same_queries : s'.queries ≡ s.queries
    pub same_heap : s'.query_at ≡ s.query_at
    -- nobody is told, and libunbound gets no query
    pub silent : told s'.calls ≡ told s.calls
    pub quiet : outstanding s.calls ≡ [] → outstanding s'.calls ≡ []

  -- The context is in the table under the next id, with the settings of the configuration.
  pub record Success (config : Config) (p : Ptr) (u : ℕ) (s s' : State Table) : Type 0 where
    pub leaves : Leaves p s s'
    pub listed : s'.contexts ≡ add s.ctx_id_generator p s.contexts
    pub next_id : s'.ctx_id_generator ≡ (s.ctx_id_generator + 1) % 2 ^ 32
    pub stored :
        (c : Context) × (s'.context_at p ≡ some c)
        × (c.id ≡ s.ctx_id_generator)
        × (c.ub_ctx ≡ u)
        × (c.stopping ≡ false)
        × (c.request_timeout_secs ≡ config.request_timeout_secs)

  -- The table is as before; the structure is not freed, and the Unbound context is deleted but for one
  -- error.
  pub record Failure (e : Error) (p : Ptr) (u : ℕ) (s s' : State Table) : Type 0 where
    pub leaves : Leaves p s s'
    pub unlisted : s'.contexts ≡ s.contexts
    pub not_freed : (c : Context) × (s'.context_at p ≡ some c)
    pub closed : is_deleted u s'.calls ≡ (if leaves_open e then is_deleted u s.calls else true)

  abbrev pub Outcome : Config → Ptr → ℕ → State Table → Option Error × State Table → Type 0
  Outcome config p u s (none, s') = Success config p u s s'
  Outcome config p u s (some e, s') = Failure e p u s s'
