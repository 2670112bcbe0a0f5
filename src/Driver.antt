-- ===== src/Driver.antt =====
-- jni/src/main.c, the command line driver: twelve threads look addresses up for ten seconds. What its
-- threads do until they are joined is an argument of `main`.
pub mod Addresses
pub mod Exit
pub mod Turns
use unbound4j.Base.{
  ℕ, zero, suc, ◌+◌, ◌*◌, ◌/◌, ◌%◌, ◌^◌, Bool, true, false, Option, none, some, List, [], ◌∷◌, ◌++◌,
  Bytes, if◌then◌else◌, ◌>>=◌,
}
use unbound4j.Uthash.{Ptr, Uthash}
use unbound4j.Engine.State.{Config, State}
use unbound4j.Engine.Context.{Error, CreateInputs, init, config_init, create_context, destroy}
use unbound4j.Engine.Query.{LookupError, LookupInputs, reverse_lookup}

-- What is printed, and the `free` of a host name.
pub data Action : Type 0 where
  print_error : Bytes → Action
  print_result : Bytes → Action
  print_no_result : Action
  print_failure : LookupError → Action
  free_name : Action

-- `callback`
pub print_callback : Option Bytes → Option Bytes → List Action
print_callback (some err) result = print_error err ∷ []
print_callback none (some result) = print_result result ∷ free_name ∷ []
print_callback none none = print_no_result ∷ []

-- `atomic_fetch_add(&ip_generator, 1)`: the old value, and the generator, an `int` by its bit pattern.
unfoldable pub fetch_add : ℕ → ℕ × ℕ
fetch_add g = (g, (g + 1) % 2 ^ 32)

-- The addresses of a turn, and the generator behind it.
unfoldable pub generate : ℕ → List ℕ × ℕ
generate g =
    let r₀ = fetch_add g in
    let r₁ = fetch_add r₀.1 in let r₂ = fetch_add r₁.1 in (r₀.0 ∷ r₁.0 ∷ r₂.0 ∷ [], r₂.1)

-- The bytes of an `int` in memory, on a little endian machine or a big endian one.
unfoldable pub int_bytes : Bool → ℕ → Bytes
int_bytes true n = n % 256 ∷ n / 256 % 256 ∷ n / 65536 % 256 ∷ n / 16777216 % 256 ∷ []
int_bytes false n = n / 16777216 % 256 ∷ n / 65536 % 256 ∷ n / 256 % 256 ∷ n % 256 ∷ []

-- `pthread_create` for the threads from the `i`-th on; whether all of them were created.
unfoldable pub spawn : (ℕ → Bool) → ℕ → ℕ → Bool
spawn created i zero = true
spawn created i (suc n) = if created i then spawn created (i + 1) n else false

pub record MainInputs (T : Type 0) : Type 0 where
  pub ctx_lock : Bool
  pub query_lock : Bool
  pub cfg_lock : Bool
  pub create : CreateInputs
  pub created : ℕ → Bool
  -- what happens until the threads are joined, or until `main` returns because one is missing
  pub work : State T → Option (State T)
  pub wrlock : Bool
  pub joined : Bool

module _ (H : Uthash) where
  open H use {Table}

  -- The lookups of a turn, with the context at `cp` and no userdata.
  unfoldable pub lookups :
      Bool → Ptr → ℕ → List LookupInputs → List ℕ → State Table → Option (List Action × State Table)
  lookups little cp callback [] ips s = some ([], s)
  lookups little cp callback (inp ∷ inps) [] s = some ([], s)
  lookups little cp callback (inp ∷ inps) (ip ∷ ips) s = s.context_at cp >>= λ c.
      reverse_lookup H some inp c.id (int_bytes little ip) 0 callback s >>= λ r.
      lookups little cp callback inps ips r.1 >>= λ z.
      some (elim r.0 [ none ↦ z.0 | some e ↦ print_failure e ∷ z.0 ], z.1)

  -- `while(!done)`, for the turns before `done` is set, each with the inputs of its lookups.
  unfoldable pub thread_routine :
      Bool
      → Ptr
      → ℕ
      → List (List LookupInputs)
      → ℕ
      → State Table
      → Option (List Action × ℕ × State Table)
  thread_routine little cp callback [] g s = some ([], g, s)
  thread_routine little cp callback (inps ∷ turns) g s =
      lookups little cp callback inps (generate g).0 s >>= λ r.
      thread_routine little cp callback turns (generate g).1 r.1 >>= λ z.
      some (r.0 ++ z.0, z.1, z.2)

  -- From the result of `ub4j_create_context` on: the exit code, and what is left.
  pub run_main :
      (Ptr → State Table → Option (State Table))
      → MainInputs Table
      → Option Error × State Table
      → Option (ℕ × State Table)
  run_main thread inp (some e, s) = destroy H thread inp.wrlock inp.joined s >>= λ z. some (1, z)
  run_main thread inp (none, s) = inp.work s >>= λ s₁.
      if spawn inp.created 0 12
      then (destroy H thread inp.wrlock inp.joined s₁ >>= λ z. some (0, z))
      else some (1, s₁)

  -- `thread` is what the processing threads still do when they are joined.
  pub main :
      (Ptr → State Table → Option (State Table))
      → Config
      → MainInputs Table
      → State Table
      → Option (ℕ × State Table)
  main thread config inp s = run_main thread inp (
      create_context H (config_init config) inp.create
        (init inp.ctx_lock inp.query_lock inp.cfg_lock s))
