-- ===== src/Engine/Thread.antt =====
-- jni/src/unbound4j.c: `context_processing_thread`. The result of `select` and the answers that
-- `ub_process` delivers are arguments.
pub mod Expiry
pub mod Round
pub mod Deadline
pub mod Stop
pub mod Deliveries
pub mod Answers
pub mod Order
pub mod Timely
pub mod OnTime
use unbound4j.Base.{
  ℕ, ◌≡◌, Bool, true, false, not, Option, none, some, List, [], ◌∷◌, leb, if◌then◌else◌, ◌>>=◌,
}
use unbound4j.Uthash.{Ptr, Items, Uthash}
use unbound4j.Engine.State.{State, Query, Call, cancelled, fatal, call, set_query, del_query}
use unbound4j.Engine.Query.{lookup_callback}

pub record RoundInputs (T : Type 0) : Type 0 where
  pub select_ok : Bool
  -- the callbacks that `ub_process` makes, and whether it succeeds
  pub answers : State T → Option (State T)
  pub process_ok : Bool
  pub now : ℕ
  pub rdlock : Bool
  -- what other threads do between the release of the read lock and the write lock
  pub between : State T → Option (State T)
  pub wrlock : Bool

-- Nobody else does anything during the round.
abbrev pub IsQuiet : {T : Type 0} → RoundInputs T → Type 0
IsQuiet {T} inp =
    ((s : State T) → inp.answers s ≡ some s) × ((s : State T) → inp.between s ≡ some s)

module _ (H : Uthash) where
  open H use {Table, items}

  -- One query is given up: out of the table, cancelled, marked, and its callback made.
  pub give_up : ℕ → Ptr → Query → State Table → Option (State Table)
  give_up u p q s = del_query H p s >>= λ s₁.
      lookup_callback H some p 1 none none true
        (set_query p (record q { expired = true }) (call (cancelled u q.id) s₁))

  -- `HASH_ITER` over the items that are left, up to the first query that has not expired.
  pub expire_loop : ℕ → ℕ → Items → State Table → Option (State Table)
  expire_loop u now [] s = some s
  expire_loop u now ((k, p) ∷ l) s = s.query_at p >>= λ q.
      if leb q.expires_at_epoch_sec now
      then (give_up u p q s >>= λ s₁. expire_loop u now l s₁)
      else some s

  -- The peek at the head of the table.
  pub need_to_cancel : ℕ → Items → State Table → Option Bool
  need_to_cancel now [] s = some false
  need_to_cancel now ((k, p) ∷ l) s = s.query_at p >>= λ q. some (leb q.expires_at_epoch_sec now)

  -- From the current time on: the peek under the read lock, and the pass under the write lock.
  pub check_queries :
      ℕ
      → ℕ
      → (State Table → Option (State Table))
      → (rdlock wrlock : Bool) → State Table
      → Option (State Table)
  check_queries u now between rdlock wrlock s =
      if not rdlock
      then some (call fatal s)
      else (need_to_cancel now (items s.queries) s >>= λ need.
          if need
          then (between s >>= λ s₁.
              if not wrlock then some (call fatal s₁) else expire_loop u now (items s₁.queries) s₁)
          else some s)

  -- `ub_process`, if `select` did not fail: the answers, and a log entry if it reports an error.
  pub process_answers : RoundInputs Table → State Table → Option (State Table)
  process_answers inp s =
      if inp.select_ok
      then (inp.answers s >>= λ s'. some (if inp.process_ok then s' else call fatal s'))
      else some s

  -- The body of `while(!ctx->stopping)`, in the thread of a context with the Unbound context `u`.
  pub process_round : ℕ → RoundInputs Table → State Table → Option (State Table)
  process_round u inp s =
      process_answers inp s >>= λ s₁. check_queries u inp.now inp.between inp.rdlock inp.wrlock s₁

  pub give_up_all : ℕ → Items → State Table → Option (State Table)
  give_up_all u [] s = some s
  give_up_all u ((k, p) ∷ l) s = s.query_at p >>= λ q. give_up u p q s >>= λ s₁. give_up_all u l s₁

  -- Behind the loop. A failure of the lock is logged, and the queries are given up all the same.
  pub stop_cleanup : ℕ → Bool → State Table → Option (State Table)
  stop_cleanup u wrlock s =
      let s₁ = if wrlock then s else call fatal s in give_up_all u (items s₁.queries) s₁

  -- The thread of the context at `cp`, for the rounds whose inputs are listed; `true` tells that it
  -- has ended.
  pub processing_thread :
      Ptr → Bool → List (RoundInputs Table) → State Table → Option (Bool × State Table)
  processing_thread cp wrlock [] s = some (false, s)
  processing_thread cp wrlock (inp ∷ inps) s = s.context_at cp >>= λ c.
      if c.stopping
      then (stop_cleanup c.ub_ctx wrlock s >>= λ s₁. some (true, s₁))
      else (process_round c.ub_ctx inp s >>= λ s₁. processing_thread cp wrlock inps s₁)

  -- What the thread still does once `stopping` is set: the rest of the round that it is in, if it is in
  -- one, and the test of the loop.
  pub end_thread :
      Ptr
      → Bool
      → Option (RoundInputs Table)
      → RoundInputs Table
      → State Table
      → Option (State Table)
  end_thread cp wrlock none inp s = processing_thread cp wrlock (inp ∷ []) s >>= λ r. some r.1
  end_thread cp wrlock (some running) inp s = s.context_at cp >>= λ c.
      process_round c.ub_ctx running s >>= λ s₁.
      processing_thread cp wrlock (inp ∷ []) s₁ >>= λ r. some r.1
