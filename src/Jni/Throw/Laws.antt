-- ===== src/Jni/Throw/Laws.antt =====
-- Which exceptions end, and how often a future is completed.
use unbound4j.Base.{
  ℕ, zero, suc, ◌+◌, ◌≡◌, refl, ◌∙◌, inl, inr, Bool, true, false, Option, none, some, List, [], ◌∷◌,
  ◌++◌, Bytes, codes, if◌then◌else◌, ◌==◌, ◌&&◌, Bool-cases, arith,
}
use unbound4j.Jni.Jvm.{
  took_string, released_string, JavaClass, no_class_def_found_error, runtime_exception,
  completable_future, constructor, complete_exceptionally, Message, text, class_name, Jvm, JniCall,
  throw_new, completed_exceptionally, completed, detached, freed_context, freed_result, logged,
}
use unbound4j.Jni.Throw.{
  throw_runtime_exception, throw_no_class_def_error, throw_class, new_exception,
  complete_future_exceptionally,
}

-- If the machine does not have the class NoClassDefFoundError, throwNoClassDefError calls itself
-- without end: no fuel is enough.
pub throw_no_class_def_error-diverges :
    (jvm : Jvm) (fuel : ℕ) (message : Message)
    → jvm.find_class no_class_def_found_error ≡ false
    → throw_no_class_def_error jvm fuel message ≡ none
unfolding throw_no_class_def_error
throw_no_class_def_error-diverges jvm zero message missing = refl
throw_no_class_def_error-diverges jvm (suc fuel) message missing =
    let again =
      throw_no_class_def_error-diverges jvm fuel (class_name no_class_def_found_error) missing in
    simp (missing, again)

-- A number for each call, added up.
abbrev pub tally : (JniCall → ℕ) → List JniCall → ℕ
tally weigh [] = 0
tally weigh (c ∷ h) = weigh c + tally weigh h

pub tally-append :
    (weigh : JniCall → ℕ) (g h : List JniCall)
    → tally weigh (g ++ h) ≡ tally weigh g + tally weigh h
tally-append weigh [] h = omega arith
tally-append weigh (c ∷ g) h = omega (arith, tally-append weigh g h)

-- One for each call that completes the future, in one way or the other.
abbrev pub completion : ℕ → JniCall → ℕ
completion future (throw_new c m) = 0
completion future took_string = 0
completion future released_string = 0
completion future (completed_exceptionally f ex) = if ex then (if f == future then 1 else 0) else 0
completion future (completed f goes host) = if goes then (if f == future then 1 else 0) else 0
completion future detached = 0
completion future freed_context = 0
completion future freed_result = 0
completion future logged = 0

abbrev pub context_free : JniCall → ℕ
context_free (throw_new c m) = 0
context_free took_string = 0
context_free released_string = 0
context_free (completed_exceptionally f ex) = 0
context_free (completed f goes host) = 0
context_free detached = 0
context_free freed_context = 1
context_free freed_result = 0
context_free logged = 0

abbrev pub result_free : JniCall → ℕ
result_free (throw_new c m) = 0
result_free took_string = 0
result_free released_string = 0
result_free (completed_exceptionally f ex) = 0
result_free (completed f goes host) = 0
result_free detached = 0
result_free freed_context = 0
result_free freed_result = 1
result_free logged = 0

-- One for each exception thrown.
abbrev pub throwing : JniCall → ℕ
throwing (throw_new c m) = 1
throwing took_string = 0
throwing released_string = 0
throwing (completed_exceptionally f ex) = 0
throwing (completed f goes host) = 0
throwing detached = 0
throwing freed_context = 0
throwing freed_result = 0
throwing logged = 0

-- Nothing is freed, and the future is completed `n` times.
pub record Completes (future n : ℕ) (h : List JniCall) : Type 0 where
  pub times : tally (completion future) h ≡ n
  pub no_context_free : tally context_free h ≡ 0
  pub no_result_free : tally result_free h ≡ 0

-- The calls are defined.
abbrev pub Throws : ℕ → Option (List JniCall) → Type 0
Throws future r = (h : List JniCall) × (r ≡ some h) × Completes future 0 h

one_throw : (future : ℕ) (c : JavaClass) (m : Message) → Completes future 0 (throw_new c m ∷ [])
one_throw future c m = record {
  times = omega arith;
  no_context_free = omega arith;
  no_result_free = omega arith;
}

-- There is an exception object exactly where its parts are found.
abbrev pub has_exception : Jvm → Bytes → Bool
has_exception jvm message =
    jvm.find_class runtime_exception
    && jvm.get_method runtime_exception constructor
    && jvm.new_string message
    && jvm.new_object runtime_exception

-- Whether the exceptional completion can be called, and has an exception object.
abbrev pub can_fail : Jvm → Bytes → Bool
can_fail jvm message =
    jvm.find_class completable_future
    && jvm.get_method completable_future complete_exceptionally
    && has_exception jvm message

module _ (jvm : Jvm) (fuel future : ℕ)
    (found : jvm.find_class no_class_def_found_error ≡ true) where
  pub throw_no_class_def_error-Throws :
      (message : Message) → Throws future (throw_no_class_def_error jvm (suc fuel) message)
  unfolding throw_no_class_def_error
  throw_no_class_def_error-Throws message =
      (throw_new no_class_def_found_error message ∷ [], simp found, one_throw future _ _)

  pub throw_class-Throws :
      (ex_class : JavaClass) (message : Message)
      → Throws future (throw_class jvm (suc fuel) ex_class message)
  unfolding throw_class
  throw_class-Throws ex_class message = elim (Bool-cases (jvm.find_class ex_class)) [
    | inl known ↦ (throw_new ex_class message ∷ [], simp known, one_throw future _ _)
    | inr unknown ↦
        let (h, e, c) = throw_no_class_def_error-Throws (class_name ex_class) in
        (h, simp (unknown, e), c)
  ]

  new_exception-Throws :
      (message : Bytes)
      → (h : List JniCall) × (new_exception jvm (suc fuel) message
          ≡ some (has_exception jvm message, h))
        × Completes future 0 h
  unfolding new_exception
  new_exception-Throws message = elim (Bool-cases (jvm.find_class runtime_exception)) [
    | inr no_class ↦
        let (h, e, c) = throw_no_class_def_error-Throws (class_name runtime_exception) in
        (h, simp (no_class, e), c)
    | inl a_class ↦ elim (Bool-cases (jvm.get_method runtime_exception constructor)) [
      | inr no_method ↦
          let (h, e, c) =
            throw_class-Throws runtime_exception
              (text (codes "Constructor on RuntimeException not found.")) in
          (h, simp (a_class, no_method, e), c)
      | inl a_method ↦ elim (Bool-cases (jvm.new_string message)) [
        | inr no_string ↦
            let (h, e, c) =
              throw_class-Throws runtime_exception
                (text (codes "Failed to create Java string for exception message")) in
            (h, simp (a_class, a_method, no_string, e), c)
        | inl a_string ↦ elim (Bool-cases (jvm.new_object runtime_exception)) [
          | inr no_object ↦
              let (h, e, c) =
                throw_class-Throws runtime_exception
                  (text (codes "Failed to create new RuntimeException")) in
              (h, simp (a_class, a_method, a_string, no_object, e), c)
          | inl an_object ↦ (
            [],
            simp (a_class, a_method, a_string, an_object),
            record { times = refl; no_context_free = refl; no_result_free = refl },
          )
        ]
      ]
    ]
  ]

  -- The future is completed once if all that is needed for it is found, and else not at all; no
  -- other future is.
  pub complete_future_exceptionally-Completes :
      (subject : ℕ) (message : Bytes)
      → (h : List JniCall) × (complete_future_exceptionally jvm (suc fuel) subject message ≡ some h)
        × Completes future
            (if can_fail jvm message then (if subject == future then 1 else 0) else 0)
            h
  unfolding complete_future_exceptionally
  complete_future_exceptionally-Completes subject message =
      elim (Bool-cases (jvm.find_class completable_future)) [
        | inr no_class ↦
            let (h, e, c) = throw_no_class_def_error-Throws (class_name completable_future) in
            (h, simp (no_class, e), simp no_class c)
        | inl a_class ↦
            elim (Bool-cases (jvm.get_method completable_future complete_exceptionally)) [
              | inr no_method ↦
                  let (h, e, c) =
                    throw_class-Throws runtime_exception
                      (text (codes "completeExceptionally method not found.")) in
                  (h, simp (a_class, no_method, e), simp (a_class, no_method) c)
              | inl a_method ↦
                  let (h, e, c) = new_exception-Throws message in
                  let last = completed_exceptionally subject (has_exception jvm message) ∷ [] in
                  (
                    h ++ last,
                    simp (a_class, a_method, e),
                    simp (a_class, a_method)
                        (record {
                          times = tally-append (completion future) h last ∙ ground (arith, c.times);
                          no_context_free =
                              omega (arith, tally-append context_free h last, c.no_context_free);
                          no_result_free =
                              omega (arith, tally-append result_free h last, c.no_result_free);
                        }),
                  )
            ]
      ]

-- Every throw is one exception.
pub throw_runtime_exception-throws :
    (jvm : Jvm) (fuel : ℕ) (message : Message)
    → jvm.find_class no_class_def_found_error ≡ true
    → (c : JavaClass) × (m : Message) × (throw_runtime_exception jvm (suc fuel) message
        ≡ some (throw_new c m ∷ []))
unfolding throw_class throw_no_class_def_error
throw_runtime_exception-throws jvm fuel message found =
    elim (Bool-cases (jvm.find_class runtime_exception)) [
      | inl known ↦ (runtime_exception, message, simp known)
      | inr unknown ↦
          (no_class_def_found_error, class_name runtime_exception, simp (unknown, found))
    ]
