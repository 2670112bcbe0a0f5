-- ===== src/Tests/Jni.antt =====
-- The bridge to Java with concrete machines.
use unbound4j.Base.{◌≡◌, refl, Bool, true, false, none, some, List, codes}
use unbound4j.Jni.Jvm.{env_detached, text, Jvm, JniCall}
use unbound4j.Jni.Throw.{throw_no_class_def_error}
use unbound4j.Jni.Throw.Laws.{
  tally, completion, context_free, result_free, throw_no_class_def_error-diverges,
}
use unbound4j.Jni.Callback.{callback}
use unbound4j.Jni.Callback.Ends.{callback-Ends}

-- A machine where all classes are found and strings can be made, or none.
abbrev pub machine : Bool → Jvm
machine classes = record {
  get_env = env_detached;
  attach = true;
  find_class = λ c. classes;
  new_global_ref = true;
  get_method = λ c m. true;
  new_string = λ s. classes;
  get_string = λ s. true;
  new_object = λ c. true;
  exception = false;
}

callback-Ends_example :
    (h : List JniCall) × (callback (machine true) 1 8 (some (codes "Query timed out.")) none
      ≡ some h)
    × (tally context_free h ≡ 1)
    × (tally result_free h ≡ 0)
    × (tally (completion 8) h ≡ 1)
callback-Ends_example =
    callback-Ends (machine true) 0 8 8 (some (codes "Query timed out.")) none refl

throw_no_class_def_error-diverges_example :
    throw_no_class_def_error (machine false) 9 (text (codes "x")) ≡ none
throw_no_class_def_error-diverges_example =
    throw_no_class_def_error-diverges (machine false) 9 (text (codes "x")) refl
