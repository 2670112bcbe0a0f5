-- ===== src/Engine/State.antt =====
-- jni/src/unbound4j.h and the globals of jni/src/unbound4j.c: the structures, the heap that holds
-- them, the two hash tables, and the calls made to libunbound, to pthread and to the delegates.
-- Identifiers of libunbound and pthread objects are numbers; an `int` id is its bit pattern. Times
-- and timeouts are seconds, not negative and without overflow.
use unbound4j.Base.{
  ◌≡◌, arith, ==_self, ℕ, Bool, Option, none, some, List, [], ◌∷◌, Bytes, ◌==◌, if◌then◌else◌,
  ◌>>=◌,
}
use unbound4j.Uthash.{Ptr, Uthash, has_item}

pub record Config : Type 0 where
  pub use_system_resolver : Bool
  pub unbound_config : Option Bytes
  pub request_timeout_secs : ℕ

pub record Context : Type 0 where
  pub id : ℕ
  pub ub_ctx : ℕ
  pub ub_fd : ℕ
  pub thread_id : ℕ
  pub stopping : Bool
  pub request_timeout_secs : ℕ

pub record Query : Type 0 where
  pub id : ℕ
  pub userdata : ℕ
  pub callback : ℕ
  pub expires_at_epoch_sec : ℕ
  pub expired : Bool

-- The error text of a delegate callback: `"Query timed out."`, or `ub_strerror` of a number.
pub data ErrorText : Type 0 where
  timed_out : ErrorText
  strerror : ℕ → ErrorText

-- Calls out of the program, with the arguments that identify what they are about.
pub data Call : Type 0 where
  ctx_deleted : ℕ → Call
  thread_created : Ptr → Call
  thread_joined : ℕ → Call
  -- the Unbound context, the id that libunbound gave, `mydata`, and the name looked up
  resolved : ℕ → ℕ → Ptr → Bytes → Call
  cancelled : ℕ → ℕ → Call
  -- the entry of libunbound into the callback of an asynchronous query
  answered : ℕ → ℕ → Call
  result_freed : Call
  -- the delegate, its userdata, the error text and the host name
  delegate : ℕ → ℕ → Option ErrorText → Option Bytes → Call
  fatal : Call
  logged : Call

pub record State (T : Type 0) : Type 0 where
  pub contexts : T
  pub ctx_id_generator : ℕ
  pub queries : T
  pub context_at : Ptr → Option Context
  pub query_at : Ptr → Option Query
  -- the calls made so far, the latest first
  pub calls : List Call

-- `*p = v`, `malloc` and `free` on one kind of structure.
abbrev pub put {ℓ} : {A : Type ℓ} → (Ptr → Option A) → Ptr → Option A → Ptr → Option A
put heap p v q = if p == q then v else heap q

pub put_self {ℓ} :
    {A : Type ℓ} (heap : Ptr → Option A) (p : Ptr) (v : Option A) → put heap p v p ≡ v
put_self heap p v = rw (==_self p)

pub put_other {ℓ} :
    {A : Type ℓ} (heap : Ptr → Option A) (p x : Ptr) (v : Option A)
    → ¬ (p ≡ x)
    → put heap p v x ≡ heap x
put_other heap p x v ne = ground arith

module _ {T : Type 0} where
  abbrev pub call : Call → State T → State T
  call c s = record s { calls = c ∷ s.calls }

  abbrev pub set_context : Ptr → Context → State T → State T
  set_context p c s = record s { context_at = put s.context_at p (some c) }

  abbrev pub set_query : Ptr → Query → State T → State T
  set_query p q s = record s { query_at = put s.query_at p (some q) }

  -- `free(p)`, a fault if `p` is not allocated.
  abbrev pub free_context : Ptr → State T → Option (State T)
  free_context p s =
      s.context_at p >>= λ _. some (record s { context_at = put s.context_at p none })

  abbrev pub free_query : Ptr → State T → Option (State T)
  free_query p s = s.query_at p >>= λ _. some (record s { query_at = put s.query_at p none })

module _ (H : Uthash) where
  open H use {Table, items, add, del, empty}

  -- `HASH_DEL(g_queries, p)`: a fault if `p` is no item of the table.
  abbrev pub del_query : Ptr → State Table → Option (State Table)
  del_query p s =
      if has_item p (items s.queries) then some (record s { queries = del p s.queries }) else none

  abbrev pub del_context : Ptr → State Table → Option (State Table)
  del_context p s =
      if has_item p (items s.contexts)
      then some (record s { contexts = del p s.contexts })
      else none

  abbrev pub add_query : ℕ → Ptr → State Table → State Table
  add_query k p s = record s { queries = add k p s.queries }

  abbrev pub add_context : ℕ → Ptr → State Table → State Table
  add_context k p s = record s { contexts = add k p s.contexts }

  -- The globals before the first call: empty tables, and ids from 1.
  abbrev pub initial : State Table
  initial = record {
    contexts = empty;
    ctx_id_generator = 1;
    queries = empty;
    context_at = λ _. none;
    query_at = λ _. none;
    calls = [];
  }
