-- ===== src/Jni/Callback.antt =====
-- jni/src/unbound4j_jinterface.c, `callback`: the delegate that completes a Java future.
pub mod Ends
use unbound4j.Base.{
  ℕ, Bool, true, false, Option, none, some, List, [], ◌∷◌, ◌++◌, Bytes, if◌then◌else◌, ◌>>=◌, ◌||◌,
  not,
}
use unbound4j.Jni.Jvm.{
  EnvStatus, env_ok, env_detached, env_error, Jvm, JniCall, completed, detached, freed_context,
  freed_result, logged,
}
use unbound4j.Jni.Throw.{complete_future_exceptionally}

-- `cleanup:`, with the host name if there is one.
abbrev pub cleanup : Option Bytes → List JniCall
cleanup none = freed_context ∷ []
cleanup (some host) = freed_context ∷ freed_result ∷ []

-- Whether there is an environment for the thread.
abbrev pub has_env : Jvm → Bool
has_env jvm = elim jvm.get_env [ env_ok ↦ true | env_detached ↦ jvm.attach | env_error ↦ false ]

-- A call of `complete`, and the look at the exception behind it. One that is `pending` before the
-- call is still there behind it.
abbrev pub complete_call : Jvm → ℕ → Bool → Option Bytes → List JniCall
complete_call jvm future pending host =
    let failed = pending || jvm.exception in
    completed future (not failed) host ∷ (if failed then logged ∷ [] else [])

-- The three ways to complete the future. A host name that cannot be made is NULL, with an exception
-- pending.
unfoldable pub complete_future : Jvm → ℕ → ℕ → Option Bytes → Option Bytes → Option (List JniCall)
complete_future jvm fuel future (some err) result =
    complete_future_exceptionally jvm fuel future err
complete_future jvm fuel future none (some host) = some (
    if jvm.new_string host
    then complete_call jvm future false (some host)
    else complete_call jvm future true none)
complete_future jvm fuel future none none = some (complete_call jvm future false none)

unfoldable pub callback : Jvm → ℕ → ℕ → Option Bytes → Option Bytes → Option (List JniCall)
callback jvm fuel future err result =
    if has_env jvm
    then (complete_future jvm fuel future err result >>= λ h. some (h ++ detached ∷ cleanup result))
    else some (logged ∷ cleanup result)
