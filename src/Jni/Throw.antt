-- ===== src/Jni/Throw.antt =====
-- jni/src/jniutils.c: exceptions, and the exceptional completion of a future. The result is the calls
-- made, in their order; `none` says that the fuel of `throwNoClassDefError` ran out. The returned
-- numbers are not used by any caller.
pub mod Laws
use unbound4j.Base.{
  ℕ, zero, suc, Bool, true, false, not, Option, none, some, List, [], ◌∷◌, ◌++◌, Bytes, codes,
  if◌then◌else◌, ◌>>=◌,
}
use unbound4j.Jni.Jvm.{
  JavaClass, no_class_def_found_error, no_such_field_error, runtime_exception, out_of_memory_error,
  completable_future, constructor, complete_exceptionally, Message, text, class_name, Jvm, JniCall,
  throw_new, completed_exceptionally,
}

-- It calls itself where the class of the exception is not found.
unfoldable pub throw_no_class_def_error : Jvm → ℕ → Message → Option (List JniCall)
throw_no_class_def_error jvm zero message = none
throw_no_class_def_error jvm (suc fuel) message =
    let again = throw_no_class_def_error jvm fuel (class_name no_class_def_found_error) in
    if jvm.find_class no_class_def_found_error
    then some (throw_new no_class_def_found_error message ∷ [])
    else again

-- The common text of the next three.
unfoldable pub throw_class : Jvm → ℕ → JavaClass → Message → Option (List JniCall)
throw_class jvm fuel ex_class message =
    if jvm.find_class ex_class
    then some (throw_new ex_class message ∷ [])
    else throw_no_class_def_error jvm fuel (class_name ex_class)

abbrev pub throw_no_such_field_error : Jvm → ℕ → Message → Option (List JniCall)
throw_no_such_field_error jvm fuel message = throw_class jvm fuel no_such_field_error message

abbrev pub throw_runtime_exception : Jvm → ℕ → Message → Option (List JniCall)
throw_runtime_exception jvm fuel message = throw_class jvm fuel runtime_exception message

abbrev pub throw_out_of_memory_error : Jvm → ℕ → Message → Option (List JniCall)
throw_out_of_memory_error jvm fuel message = throw_class jvm fuel out_of_memory_error message

-- From the lookup of the exception's class to the label `complete`: whether there is an exception
-- object, and what was thrown on the way.
unfoldable pub new_exception : Jvm → ℕ → Bytes → Option (Bool × List JniCall)
new_exception jvm fuel message =
    if not (jvm.find_class runtime_exception)
    then (throw_no_class_def_error jvm fuel (class_name runtime_exception) >>= λ h. some (false, h))
    else if not (jvm.get_method runtime_exception constructor)
    then (throw_runtime_exception jvm fuel
          (text (codes "Constructor on RuntimeException not found."))
        >>= λ h. some (false, h))
    else if not (jvm.new_string message)
    then (throw_runtime_exception jvm fuel
          (text (codes "Failed to create Java string for exception message"))
        >>= λ h. some (false, h))
    else if not (jvm.new_object runtime_exception)
    then (throw_runtime_exception jvm fuel (text (codes "Failed to create new RuntimeException"))
        >>= λ h. some (false, h))
    else some (true, [])

unfoldable pub complete_future_exceptionally : Jvm → ℕ → ℕ → Bytes → Option (List JniCall)
complete_future_exceptionally jvm fuel future message =
    if not (jvm.find_class completable_future)
    then throw_no_class_def_error jvm fuel (class_name completable_future)
    else if not (jvm.get_method completable_future complete_exceptionally)
    then throw_runtime_exception jvm fuel (text (codes "completeExceptionally method not found."))
    else (new_exception jvm fuel message >>= λ r.
        some (r.1 ++ completed_exceptionally future r.0 ∷ []))
