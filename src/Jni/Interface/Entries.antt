-- ===== src/Jni/Interface/Entries.antt =====
-- What the entries of Java return and throw.
use unbound4j.Base.{
  ℕ, suc, ◌≡◌, ◌⊎◌, refl, ap, inl, inr, Bool, true, Option, none, some, List, [], ◌∷◌, ◌++◌, Bytes,
}
use unbound4j.Uthash.{Ptr, Uthash}
use unbound4j.Engine.State.{Config, State, put, put_self}
use unbound4j.Engine.Context.{Error, CreateInputs, create_context, delete_context}
use unbound4j.Engine.Context.Outcome.{Outcome}
use unbound4j.Engine.Context.Creation.{create_context-Outcome}
use unbound4j.Engine.Query.{LookupError, LookupInputs, reverse_lookup}
use unbound4j.Jni.Jvm.{
  JavaClass, Message, no_class_def_found_error, library_error, Jvm, JniCall, throw_new, took_string,
  released_string,
}
use unbound4j.Jni.Throw.Laws.{tally, throwing, throw_runtime_exception-throws}
use unbound4j.Jni.Interface.{
  find_config_methods, read_config_object, taken, released, Futures, finish_create,
  java_create_context, java_delete_context, java_reverse_lookup,
}

abbrev pub taking : JniCall → ℕ
taking took_string = 1
taking _ = 0

abbrev pub releasing : JniCall → ℕ
releasing released_string = 1
releasing _ = 0

-- The calls throw `n` exceptions, and give back each string that they take.
abbrev pub Balanced : ℕ → List JniCall → Type 0
Balanced n h = (tally throwing h ≡ n) × (tally taking h ≡ tally releasing h)

Balanced-throw :
    (path : Option Bytes) (c : JavaClass) (m : Message)
    → Balanced 1 ((taken path ++ throw_new c m ∷ []) ++ released path)
Balanced-throw none c m = (refl, refl)
Balanced-throw (some path) c m = (refl, refl)

Balanced-quiet : (path : Option Bytes) → Balanced 0 (taken path ++ released path)
Balanced-quiet none = (refl, refl)
Balanced-quiet (some path) = (refl, refl)

module _ (H : Uthash) (jvm : Jvm) (fuel : ℕ)
    (found : jvm.find_class no_class_def_found_error ≡ true) where
  open H use {Table, add}

  -- Either the id of the new context is returned, or -1 with an exception.
  abbrev pub Returns : Ptr → State Table → Option (Option ℕ × List JniCall × State Table) → Type 0
  Returns p s result =
      (r : Option ℕ) × (h : List JniCall) × (s' : State Table) × (result ≡ some (r, h, s'))
      × (((r ≡ some s.ctx_id_generator)
            × Balanced 0 h
            × (s'.contexts ≡ add s.ctx_id_generator p s.contexts))
          ⊎ ((r ≡ none) × Balanced 1 h × (s'.contexts ≡ s.contexts)))

  finish_create-Returns :
      (config : Config) (inp : CreateInputs) (p : Ptr) (u : ℕ) (s : State Table)
      (r : Option Error × State Table)
      → inp.memory ≡ some p
      → Outcome H config p u s r
      → Returns p s (finish_create H jvm (suc fuel) config inp r)
  unfolding finish_create
  finish_create-Returns config inp p u s (some e, s₁) room o =
      let (c, m, thrown) = throw_runtime_exception-throws jvm fuel library_error found in
      (
        none,
        (taken config.unbound_config ++ throw_new c m ∷ []) ++ released config.unbound_config,
        s₁,
        rw thrown,
        inr (refl, Balanced-throw config.unbound_config c m, o.unlisted),
      )
  finish_create-Returns config inp p u s (none, s₁) room o =
      let (c, at, id, _, _, _) = o.stored in
      (
        some c.id,
        taken config.unbound_config ++ released config.unbound_config,
        s₁,
        rw (room, at),
        inl (ap some id, Balanced-quiet config.unbound_config, o.listed),
      )

  -- If the machine has NoClassDefFoundError and the methods of the configuration class, and malloc
  -- and ub_ctx_create succeed, then Interface_create_1context returns on every further branch:
  -- either the id of the new context, with no exception and the context in the table, or -1 with
  -- one exception and the table as before. It gives back each string that it takes.
  pub java_create_context-Returns :
      (object : Config) (inp : CreateInputs) (p : Ptr) (u : ℕ) (s : State Table)
      → find_config_methods jvm (suc fuel) ≡ some none
      → inp.memory ≡ some p
      → inp.ub_ctx_create ≡ some u
      → Returns p s (java_create_context H jvm (suc fuel) object inp s)
  unfolding java_create_context
  java_create_context-Returns object inp p u s methods room made =
      let config = read_config_object jvm object in
      rw methods (
        finish_create-Returns config inp p u s (create_context H config inp s) room
          (create_context-Outcome H config inp p u s room made))

  -- If the machine has NoClassDefFoundError, malloc succeeds and ub4j_reverse_lookup returns, then
  -- Interface_reverse_1lookup returns the future, throws one exception exactly if the lookup
  -- failed, and leaves the callback context allocated, also where the lookup failed.
  pub java_reverse_lookup-Throws :
      (between : State Table → Option (State Table)) (inp : LookupInputs) (ctx_id : ℕ)
      (array : Bytes) (future : ℕ) (p : Ptr) (delegate : ℕ) (futures : Futures) (s s' : State Table)
      (r : Option LookupError)
      → reverse_lookup H between inp ctx_id array p delegate s ≡ some (r, s')
      → (h : List JniCall) × (futures' : Futures) × (java_reverse_lookup H jvm
            (suc fuel)
            between
            inp
            ctx_id
            array
            future
            (some p, true)
            delegate
            futures
            s
          ≡ some (future, h, futures', s'))
        × (tally throwing h ≡ elim r [ none ↦ 0 | some e ↦ 1 ])
        × (futures' p ≡ some future)
  unfolding java_reverse_lookup
  java_reverse_lookup-Throws between inp ctx_id array future p delegate futures s s' none e =
      ([], put futures p (some future), rw e, refl, put_self futures p (some future))
  java_reverse_lookup-Throws between inp ctx_id array future p delegate futures s s' (some error)
        e =
      let (c, m, thrown) = throw_runtime_exception-throws jvm fuel library_error found in
      (
        throw_new c m ∷ [],
        put futures p (some future),
        rw (e, thrown),
        refl,
        put_self futures p (some future),
      )

  -- If the machine has NoClassDefFoundError and ub4j_delete_context returns, then
  -- Interface_delete_1context returns and throws one exception exactly if the deletion reported an
  -- error.
  pub java_delete_context-Throws :
      (join : State Table → Option (State Table)) (wrlock joined : Bool) (ctx_id : ℕ)
      (s s' : State Table) (r : Option Error)
      → delete_context H join wrlock joined ctx_id s ≡ some (r, s')
      → (h : List JniCall) × (java_delete_context H jvm (suc fuel) join wrlock joined ctx_id s
          ≡ some (h, s'))
        × (tally throwing h ≡ elim r [ none ↦ 0 | some e ↦ 1 ])
  unfolding java_delete_context
  java_delete_context-Throws join wrlock joined ctx_id s s' none e = ([], rw e, refl)
  java_delete_context-Throws join wrlock joined ctx_id s s' (some error) e =
      let (c, m, thrown) = throw_runtime_exception-throws jvm fuel library_error found in
      (throw_new c m ∷ [], rw (e, thrown), refl)
