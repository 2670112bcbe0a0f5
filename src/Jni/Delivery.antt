-- ===== src/Jni/Delivery.antt =====
-- The delegate calls of jni/src/unbound4j.c, each run by the Java callback of
-- jni/src/unbound4j_jinterface.c.
use unbound4j.Base.{
  ℕ, ◌≡◌, true, false, Option, none, some, List, [], ◌∷◌, ◌++◌, Bytes, codes, length, ltb, ◌>>=◌,
  if◌then◌else◌,
}
use unbound4j.Uthash.{Uthash}
use unbound4j.Engine.State.{
  Context, State, ErrorText, timed_out, strerror, Call, ctx_deleted, thread_created, thread_joined,
  resolved, cancelled, answered, result_freed, delegate, fatal, logged,
}
use unbound4j.Engine.Tracking.{told}
use unbound4j.Engine.Runs.{count}
use unbound4j.Engine.Concurrent.{Concurrent}
use unbound4j.Jni.Jvm.{
  no_class_def_found_error, completable_future, complete_exceptionally, runtime_exception,
  constructor, Jvm, JniCall,
}
use unbound4j.Jni.Throw.Laws.{tally, completion, context_free}
use unbound4j.Jni.Callback.{has_env, callback}

-- The text of an error; `ub_strerror` is an argument.
abbrev pub describe : (ℕ → Bytes) → Option ErrorText → Option Bytes
describe text none = none
describe text (some timed_out) = some (codes "Query timed out.")
describe text (some (strerror n)) = some (text n)

-- The callbacks for a history, the earliest first. A callback frees its context, and `malloc` may give
-- the address to a later lookup, so an address stands for one context after another, each there from
-- its lookup to its callback: `future_of v k` is the future in the `k`-th context at `v`, from 0, that
-- has a callback.
unfoldable pub deliver : Jvm → ℕ → (ℕ → Bytes) → (ℕ → ℕ → ℕ) → List Call → Option (List JniCall)
deliver jvm fuel text future_of [] = some []
deliver jvm fuel text future_of (delegate f v e host ∷ h) =
    deliver jvm fuel text future_of h >>= λ before.
    callback jvm fuel (future_of v (count v (told h))) (describe text e) host >>= λ now.
    some (before ++ now)
deliver jvm fuel text future_of (ctx_deleted u ∷ h) = deliver jvm fuel text future_of h
deliver jvm fuel text future_of (thread_created p ∷ h) = deliver jvm fuel text future_of h
deliver jvm fuel text future_of (thread_joined th ∷ h) = deliver jvm fuel text future_of h
deliver jvm fuel text future_of (resolved u id p name ∷ h) = deliver jvm fuel text future_of h
deliver jvm fuel text future_of (cancelled u id ∷ h) = deliver jvm fuel text future_of h
deliver jvm fuel text future_of (answered u id ∷ h) = deliver jvm fuel text future_of h
deliver jvm fuel text future_of (result_freed ∷ h) = deliver jvm fuel text future_of h
deliver jvm fuel text future_of (fatal ∷ h) = deliver jvm fuel text future_of h
deliver jvm fuel text future_of (logged ∷ h) = deliver jvm fuel text future_of h

-- A machine that gives an environment, and has the classes, the methods, the strings and the objects
-- that the callback asks for, and whose `complete` does not throw.
pub record IsHealthy (jvm : Jvm) : Type 0 where
  pub environment : has_env jvm ≡ true
  pub no_class_def : jvm.find_class no_class_def_found_error ≡ true
  pub future_class : jvm.find_class completable_future ≡ true
  pub future_method : jvm.get_method completable_future complete_exceptionally ≡ true
  pub exception_class : jvm.find_class runtime_exception ≡ true
  pub exception_method : jvm.get_method runtime_exception constructor ≡ true
  pub exception_object : jvm.new_object runtime_exception ≡ true
  pub strings : (s : Bytes) → jvm.new_string s ≡ true
  pub no_throw : jvm.exception ≡ false

module _ (jvm : Jvm) (fuel : ℕ) (text : ℕ → Bytes) (future_of : ℕ → ℕ → ℕ) (healthy : IsHealthy jvm)
    (different : (v k w j : ℕ) → future_of v k ≡ future_of w j → (v ≡ w) × (k ≡ j)) where
  abbrev pub Delivers : List Call → Option (List JniCall) → Type 0
  Delivers calls result =
      (h : List JniCall) × (result ≡ some h)
      × ((v k : ℕ)
          → tally (completion (future_of v k)) h ≡ (if ltb k (count v (told calls)) then 1 else 0))
      × (tally context_free h ≡ length (told calls))
