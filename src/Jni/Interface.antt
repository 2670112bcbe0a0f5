-- ===== src/Jni/Interface.antt =====
-- jni/src/unbound4j_jinterface.c: the entries that Java calls. The state of the engine is passed along,
-- beside the calls made to the machine. A reference to a Java object is a number.
pub mod Entries
use unbound4j.Base.{
  ℕ, Bool, true, false, not, Option, none, some, List, [], ◌∷◌, Bytes, codes, length, ◌++◌, ◌==◌,
  if◌then◌else◌, ◌>>=◌,
}
use unbound4j.Uthash.{Ptr, Uthash}
use unbound4j.Engine.State.{Config, State, fatal, call, put}
use unbound4j.Engine.Context.{Error, CreateInputs, init, create_context, delete_context, destroy}
use unbound4j.Engine.Query.{LookupInputs, reverse_lookup}
use unbound4j.Jni.Jvm.{
  completable_future, unbound4j_config, constructor, complete, is_use_system_resolver,
  get_unbound_config, get_request_timeout_seconds, env_ok, env_detached, env_error, text,
  class_name, library_error, Jvm, JniCall, took_string, released_string,
}
use unbound4j.Jni.Callback.{callback}
use unbound4j.Jni.Throw.{throw_no_class_def_error, throw_runtime_exception}

module _ {T : Type 0} where
  -- `JNI_OnLoad`: whether it returns a version, and the new state.
  pub on_load : Jvm → (ctx_lock query_lock cfg_lock : Bool) → State T → Bool × State T
  on_load jvm ctx_lock query_lock cfg_lock s = elim jvm.get_env [
    | env_detached ↦ (false, s)
    | env_error ↦ (false, s)
    | env_ok ↦
        if not (jvm.find_class completable_future)
        then (false, call fatal s)
        else if not jvm.new_global_ref
        then (false, call fatal s)
        else if not (jvm.get_method completable_future constructor)
        then (false, call fatal s)
        else if not (jvm.get_method completable_future complete)
        then (false, call fatal s)
        else (true, init ctx_lock query_lock cfg_lock s)
  ]

-- The lookup of the methods of the configuration object: the calls made if one is not found.
abbrev pub find_config_methods : Jvm → ℕ → Option (Option (List JniCall))
find_config_methods jvm fuel =
    if not (jvm.find_class unbound4j_config)
    then (throw_no_class_def_error jvm fuel (class_name unbound4j_config) >>= λ h. some (some h))
    else if not (jvm.get_method unbound4j_config is_use_system_resolver)
    then (throw_runtime_exception jvm fuel (text (codes "isUseSystemResolver method not found."))
        >>= λ h. some (some h))
    else if not (jvm.get_method unbound4j_config get_unbound_config)
    then (throw_runtime_exception jvm fuel (text (codes "getUnboundConfigMethod method not found."))
        >>= λ h. some (some h))
    else if not (jvm.get_method unbound4j_config get_request_timeout_seconds)
    then (throw_runtime_exception jvm fuel
          (text (codes "getRequestTimeoutSeconds method not found."))
        >>= λ h. some (some h))
    else some none

-- An error of the engine becomes a RuntimeException.
abbrev pub throw_if : {E : Type 0} → Jvm → ℕ → Option E → Option (List JniCall)
throw_if jvm fuel none = some []
throw_if jvm fuel (some e) = throw_runtime_exception jvm fuel library_error

-- What the getters of the configuration object return, with the string in C.
abbrev pub read_config_object : Jvm → Config → Config
read_config_object jvm object = record object {
  unbound_config = elim object.unbound_config [
    | none ↦ none
    | some path ↦ if jvm.get_string path then some path else none
  ];
}

-- The characters taken, and those given back.
abbrev pub taken : Option Bytes → List JniCall
taken none = []
taken (some path) = took_string ∷ []

abbrev pub released : Option Bytes → List JniCall
released none = []
released (some path) = released_string ∷ []

-- `Interface_version`, `none` is NULL.
abbrev pub java_version : Jvm → Bytes → Option Bytes
java_version jvm ub_version = if jvm.new_string ub_version then some ub_version else none

-- `as_uint8_array`: a fault if there is no memory for a copy that is not empty.
abbrev pub as_uint8_array : Bool → Bytes → Option Bytes
as_uint8_array memory array =
    if memory then some array else if length array == 0 then some [] else none

-- The callback contexts, each with its future.
abbrev pub Futures : Type 0
Futures = Ptr → Option ℕ

-- `callback` with its `mydata`, which it frees.
pub callback_at :
    Jvm → ℕ → Futures → Ptr → Option Bytes → Option Bytes → Option (List JniCall × Futures)
callback_at jvm fuel futures p err result = futures p >>= λ future.
    callback jvm fuel future err result >>= λ h. some (h, put futures p none)

module _ (H : Uthash) where
  open H use {Table}

  -- `JNI_OnUnload`
  pub on_unload :
      (Ptr → State Table → Option (State Table))
      → (wrlock joined : Bool) → State Table
      → Option (State Table)
  on_unload join wrlock joined s = destroy H join wrlock joined s

  -- From the result of `ub4j_create_context` on.
  pub finish_create :
      Jvm
      → ℕ
      → Config
      → CreateInputs
      → Option Error × State Table
      → Option (Option ℕ × List JniCall × State Table)
  finish_create jvm fuel config inp (some error, s₁) =
      throw_runtime_exception jvm fuel library_error >>= λ h.
      some (none, (taken config.unbound_config ++ h) ++ released config.unbound_config, s₁)
  finish_create jvm fuel config inp (none, s₁) = inp.memory >>= λ p. s₁.context_at p >>= λ c.
      some (some c.id, taken config.unbound_config ++ released config.unbound_config, s₁)

  -- `Interface_create_1context`: the id (`none` is -1), the calls, and the new state.
  pub java_create_context :
      Jvm → ℕ → Config → CreateInputs → State Table → Option (Option ℕ × List JniCall × State Table)
  java_create_context jvm fuel object inp s = find_config_methods jvm fuel >>= λ failure.
      elim failure [
        | some h ↦ some (none, h, s)
        | none ↦
            let config = read_config_object jvm object in
            finish_create jvm fuel config inp (create_context H config inp s)
      ]

  -- `Interface_delete_1context`
  pub java_delete_context :
      Jvm
      → ℕ
      → (State Table → Option (State Table))
      → (wrlock joined : Bool) → ℕ
      → State Table
      → Option (List JniCall × State Table)
  java_delete_context jvm fuel join wrlock joined ctx_id s =
      delete_context H join wrlock joined ctx_id s >>= λ r.
      throw_if jvm fuel r.0 >>= λ h. some (h, r.1)

  -- `Interface_reverse_1lookup`: `future` is the global reference, `memory` what `malloc` gives for the
  -- callback context and whether it has room for the address. The future is returned in any case.
  pub java_reverse_lookup :
      Jvm
      → ℕ
      → (State Table → Option (State Table))
      → LookupInputs
      → (ctx_id : ℕ) → (array : Bytes) → (future : ℕ) → (memory : Option Ptr × Bool)
      → (delegate : ℕ) → Futures
      → State Table
      → Option (ℕ × List JniCall × Futures × State Table)
  java_reverse_lookup jvm fuel between inp ctx_id array future memory delegate futures s =
      memory.0 >>= λ p.
      let futures₁ = put futures p (some future) in
      as_uint8_array memory.1 array >>= λ addr.
      reverse_lookup H between inp ctx_id addr p delegate s >>= λ r.
      throw_if jvm fuel r.0 >>= λ h. some (future, h, futures₁, r.1)
