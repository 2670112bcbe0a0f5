-- ===== src/Jni/Callback/Ends.antt =====
-- How the callback ends: what it frees, and how often it completes the future.
use unbound4j.Base.{
  ℕ, suc, ◌≡◌, refl, inl, inr, true, Option, none, some, List, ◌∷◌, ◌++◌, Bytes, if◌then◌else◌,
  ◌&&◌, ◌||◌, not, Bool, false, ◌==◌, Bool-cases, arith,
}
use unbound4j.Jni.Jvm.{no_class_def_found_error, Jvm, JniCall, detached, logged}
use unbound4j.Jni.Throw.Laws.{
  tally, tally-append, completion, context_free, result_free, Completes,
  complete_future_exceptionally-Completes, can_fail,
}
use unbound4j.Jni.Callback.{cleanup, has_env, complete_call, complete_future, callback}

-- Whether the future can be completed: with a host name or an exception for which there are the
-- string and the object, and by a method that does not throw.
abbrev pub succeeds : Jvm → Option Bytes → Option Bytes → Bool
succeeds jvm (some err) result = can_fail jvm err
succeeds jvm none (some host) = jvm.new_string host && not jvm.exception
succeeds jvm none none = not jvm.exception

-- How often a future is completed by the callback of another: once if they are the same and it can be.
abbrev pub expected : Jvm → Option Bytes → Option Bytes → ℕ → ℕ → ℕ
expected jvm err result future other =
    if succeeds jvm err result then (if future == other then 1 else 0) else 0

abbrev pub results : Option Bytes → ℕ
results none = 0
results (some host) = 1

complete_call-Completes :
    (jvm : Jvm) (future other : ℕ) (pending : Bool) (host : Option Bytes)
    → Completes other
        (if not (pending || jvm.exception) then (if future == other then 1 else 0) else 0)
        (complete_call jvm future pending host)
complete_call-Completes jvm future other pending host =
    elim (Bool-cases (pending || jvm.exception)) [
      | inl thrown ↦ simp thrown (record {
        times = omega arith;
        no_context_free = omega arith;
        no_result_free = omega arith;
      })
      | inr fine ↦ simp fine (record {
        times = ground arith;
        no_context_free = omega arith;
        no_result_free = omega arith;
      })
    ]

complete_future-Completes :
    (jvm : Jvm) (fuel future other : ℕ) (err result : Option Bytes)
    → jvm.find_class no_class_def_found_error ≡ true
    → (h : List JniCall) × (complete_future jvm (suc fuel) future err result ≡ some h)
      × Completes other (expected jvm err result future other) h
unfolding complete_future
complete_future-Completes jvm fuel future other (some err) result found =
    complete_future_exceptionally-Completes jvm fuel other found future err
complete_future-Completes jvm fuel future other none (some host) found =
    elim (Bool-cases (jvm.new_string host)) [
      | inl made ↦ (
        complete_call jvm future false (some host),
        simp made,
        simp made (complete_call-Completes jvm future other false (some host)),
      )
      | inr failed ↦ (
        complete_call jvm future true none,
        simp failed,
        simp failed (complete_call-Completes jvm future other true none),
      )
    ]
complete_future-Completes jvm fuel future other none none found =
    (_, refl, complete_call-Completes jvm future other false none)

cleanup-frees :
    (future : ℕ) (result : Option Bytes)
    → (tally (completion future) (cleanup result) ≡ 0)
      × (tally context_free (cleanup result) ≡ 1)
      × (tally result_free (cleanup result) ≡ results result)
cleanup-frees future none = (refl, refl, refl)
cleanup-frees future (some host) = (refl, refl, refl)

-- If the machine has the class NoClassDefFoundError, the Java callback returns on every branch,
-- frees its context once and the host name once if there is one. A call of completeExceptionally
-- counts as a completion where it has an exception object, and one of complete where no
-- exception is pending and it does not throw. So counted, the callback completes no other
-- future, and its own once if the thread has an environment and the future can be completed, and
-- else not at all. With an error text it can be where CompletableFuture, its method,
-- RuntimeException and its constructor are found and the string and the object are made; without
-- one, where the string of the host name, if there is one, is made and complete does not throw.
pub callback-Ends :
    (jvm : Jvm) (fuel future other : ℕ) (err result : Option Bytes)
    → jvm.find_class no_class_def_found_error ≡ true
    → (h : List JniCall) × (callback jvm (suc fuel) future err result ≡ some h)
      × (tally context_free h ≡ 1)
      × (tally result_free h ≡ results result)
      × (tally (completion other) h
          ≡ (if has_env jvm then expected jvm err result future other else 0))
unfolding callback
callback-Ends jvm fuel future other err result found =
    let (none_completed, frees_context, frees_result) = cleanup-frees other result in
    elim (Bool-cases (has_env jvm)) [
      | inr no_env ↦ rw no_env (
        logged ∷ cleanup result,
        refl,
        omega (arith, frees_context),
        omega (arith, frees_result),
        omega (arith, none_completed),
      )
      | inl env ↦
          let (h, e, c) = complete_future-Completes jvm fuel future other err result found in
          let last = detached ∷ cleanup result in
          rw (env, e)
            (
              h ++ last,
              refl,
              omega (arith, tally-append context_free h last, c.no_context_free, frees_context),
              omega (arith, tally-append result_free h last, c.no_result_free, frees_result),
              omega (arith, tally-append (completion other) h last, c.times, none_completed),
            )
    ]
