-- ===== src/Engine/Query.antt =====
-- jni/src/unbound4j.c: `ub4j_reverse_lookup` and `ub_reverse_lookup_callback`.
pub mod HostName
use unbound4j.Base.{
  ℕ, ◌+◌, Bool, false, not, Option, none, some, [], Bytes, length, ◌==◌, if◌then◌else◌, ◌>>=◌,
}
use unbound4j.Uthash.{Ptr, Uthash}
use unbound4j.Sldns.Dname.{rdata_buf}
use unbound4j.Dnsutils.{build_reverse_lookup_domain_v4, build_reverse_lookup_domain_v6}
use unbound4j.Engine.State.{
  Context, Query, State, ErrorText, timed_out, strerror, resolved, result_freed, delegate, fatal,
  call, set_query, free_query, del_query, add_query,
}

-- What the program reads of a `struct ub_result`.
pub record UbResult : Type 0 where
  pub havedata : Bool
  pub first : Bytes
  pub first_len : ℕ
  pub qtype : ℕ

-- The host name buffer, `none` if it stays NULL. `buffer` is what `malloc(256)` gives, and `none` is
-- its failure, which the code does not look for. A scan that does not end would be a fault, too.
unfoldable pub host_name : ℕ → Option UbResult → Option Bytes → Option (Option Bytes)
host_name err none buffer = some none
host_name err (some r) buffer =
    if err == 0
    then (if r.havedata
        then (rdata_buf r.first r.first_len
              (elim buffer [
                | none ↦ record { mem = []; at = none; room = 256 }
                | some mem ↦ record { mem = mem; at = some 0; room = 256 }
              ])
              r.qtype
            >>= λ o. o >>= λ scan. some (some scan.out.mem))
        else some none)
    else some none

abbrev pub error_text : ℕ → Bool → Option ErrorText
error_text err expired =
    if err == 0 then none else some (if expired then timed_out else strerror err)

abbrev pub free_result : {T : Type 0} → Option UbResult → State T → State T
free_result none s = s
free_result (some r) s = call result_freed s

module _ (H : Uthash) where
  open H use {Table, find}

  -- `locked` tells whether the write lock is acquired, where the code asks for it.
  abbrev pub untrack : Bool → Bool → Ptr → State Table → Option (State Table)
  untrack expired locked p s =
      if not expired then (if locked then del_query H p s else some (call fatal s)) else some s

  -- `between` is what other threads do from the call of the delegate to the write lock.
  unfoldable pub lookup_callback :
      (State Table → Option (State Table))
      → Ptr
      → ℕ
      → Option UbResult
      → Option Bytes
      → Bool
      → State Table
      → Option (State Table)
  lookup_callback between p err result buffer locked s = s.query_at p >>= λ q.
      host_name err result buffer >>= λ host.
      between (
        call (delegate q.callback q.userdata (error_text err q.expired) host)
          (free_result result s))
      >>= λ s₁. s₁.query_at p >>= λ q₁. untrack q₁.expired locked p s₁ >>= λ s₂. free_query p s₂

pub data LookupError : Type 0 where
  read_lock : LookupError
  invalid_context : LookupError
  invalid_address : ℕ → LookupError
  alloc_domain : LookupError
  alloc_query : LookupError
  write_lock : LookupError
  resolve : ℕ → LookupError

pub record LookupInputs : Type 0 where
  pub rdlock : Bool
  -- what is on the stack where the name is built
  pub stack : Bytes
  pub domain_memory : Bool
  pub query_memory : Option Ptr
  pub wrlock : Bool
  pub now : ℕ
  -- what `ub_resolve_async` returns, 0 is success, and the id that it stores
  pub nret : ℕ
  pub async_id : ℕ

-- The name to look up, by the length of the address.
unfoldable pub reverse_lookup_domain : Bytes → Bytes → Bool → Option (Option (Option Bytes))
reverse_lookup_domain addr stack memory =
    if length addr == 4
    then (build_reverse_lookup_domain_v4 addr stack memory >>= λ d. some (some d))
    else if length addr == 16
    then (build_reverse_lookup_domain_v6 addr stack memory >>= λ d. some (some d))
    else some none

module _ (H : Uthash) where
  open H use {Table, find}

  -- From the write lock on, with the name and the context.
  unfoldable pub submit :
      LookupInputs
      → Bytes
      → Ptr
      → Query
      → Context
      → State Table
      → Option (Option LookupError × State Table)
  submit inp domain p q c s =
      let q₁ = record q { expires_at_epoch_sec = inp.now + c.request_timeout_secs } in
      if inp.nret == 0
      then (let q₂ = record q₁ { id = inp.async_id } in
          some (
            none,
            add_query H q₂.id p (call (resolved c.ub_ctx inp.async_id p domain) (set_query p q₂ s)),
          ))
      else (free_query p (set_query p q₁ s) >>= λ s₁. some (some (resolve inp.nret), s₁))

  -- The query structure, filled but for its expiry and its id.
  abbrev pub new_query : ℕ → ℕ → Query
  new_query userdata callback = record {
    id = 0;
    userdata = userdata;
    callback = callback;
    expires_at_epoch_sec = 0;
    expired = false;
  }

  unfoldable pub track :
      LookupInputs → Bytes → ℕ → ℕ → Ptr → State Table → Option (Option LookupError × State Table)
  track inp domain userdata callback cp s = elim inp.query_memory [
    | none ↦ some (some alloc_query, s)
    | some p ↦
        let q = new_query userdata callback in
        let s₁ = set_query p q s in
        if not inp.wrlock
        then some (some write_lock, s₁)
        else (s₁.context_at cp >>= λ c. submit inp domain p q c s₁)
  ]

  -- `between` is what other threads do after the lock of the contexts is released.
  unfoldable pub reverse_lookup :
      (State Table → Option (State Table))
      → LookupInputs
      → ℕ
      → Bytes
      → ℕ
      → ℕ
      → State Table
      → Option (Option LookupError × State Table)
  reverse_lookup between inp ctx_id addr userdata callback s =
      if not inp.rdlock
      then some (some read_lock, s)
      else (between s >>= λ s₁. elim (find ctx_id s.contexts) [
        | none ↦ some (some invalid_context, s₁)
        | some cp ↦ reverse_lookup_domain addr inp.stack inp.domain_memory >>= λ d. elim d [
          | none ↦ some (some (invalid_address (length addr)), s₁)
          | some domain ↦ elim domain [
            | none ↦ some (some alloc_domain, s₁)
            | some name ↦ track inp name userdata callback cp s₁
          ]
        ]
      ])
