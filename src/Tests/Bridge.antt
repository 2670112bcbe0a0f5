-- ===== src/Tests/Bridge.antt =====
-- The entries of Java on concrete states.
use unbound4j.Base.{ℕ, zero, suc, ◌+◌, ◌*◌, ◌≡◌, refl, true, false, none, some, List}
use unbound4j.Uthash.{list_table}
use unbound4j.Engine.State.{State, initial}
use unbound4j.Engine.Context.{write_lock, delete_context}
use unbound4j.Jni.Jvm.{JniCall}
use unbound4j.Jni.Throw.Laws.{tally, throwing}
use unbound4j.Jni.Interface.{Futures, java_create_context, java_delete_context, java_reverse_lookup}
use unbound4j.Jni.Interface.Entries.{
  Returns, java_create_context-Returns, java_delete_context-Throws, java_reverse_lookup-Throws,
}
use unbound4j.Tests.States.{idle, inputs, address, looked_up, lookup_runs}
use unbound4j.Tests.Queue.{any_config, created}
use unbound4j.Tests.Jni.{machine}

java_create_context-Returns_example :
    Returns list_table
      (machine true)
      0
      refl
      100
      (initial list_table)
      (java_create_context list_table (machine true) 1 any_config created (initial list_table))
java_create_context-Returns_example =
    java_create_context-Returns list_table (machine true) 0 refl any_config created 100 50
      (initial list_table) refl refl refl

java_reverse_lookup-Throws_example :
    (h : List JniCall) × (futures : Futures) × (java_reverse_lookup list_table
        (machine true)
        1
        some
        inputs
        1
        address
        77
        (some 11, true)
        9
        (λ p. none)
        idle
      ≡ some (77, h, futures, looked_up))
    × (tally throwing h ≡ 0)
    × (futures 11 ≡ some 77)
java_reverse_lookup-Throws_example =
    java_reverse_lookup-Throws list_table (machine true) 0 refl some inputs 1 address 77 11 9
      (λ p. none) idle looked_up none lookup_runs

-- Different futures for different contexts.
future_of : ℕ → ℕ → ℕ
future_of zero k = 2 * k + 1
future_of (suc v) k = 2 * future_of v k

-- Without the write lock.
refused : delete_context list_table some false true 1 idle ≡ some (some write_lock, idle)
unfolding delete_context
refused = refl

java_delete_context-Throws_example :
    (h : List JniCall) × (java_delete_context list_table (machine true) 1 some false true 1 idle
      ≡ some (h, idle))
    × (tally throwing h ≡ 1)
java_delete_context-Throws_example =
    java_delete_context-Throws list_table (machine true) 0 refl some false true 1 idle idle
      (some write_lock) refused
