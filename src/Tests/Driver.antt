-- ===== src/Tests/Driver.antt =====
-- The driver with one lookup.
use unbound4j.Base.{
  ℕ, ◌+◌, ◌≡◌, refl, subst, true, false, Option, none, some, List, [], ◌∷◌, length, get_elem?,
  codes, ◌>>=◌, arith,
}
use unbound4j.Memory.{store, store_all, vsnprintf, snprintf, c_string}
use unbound4j.Dnsutils.{build_reverse_lookup_domain_v4, strdup, v4_text, decimal}
use unbound4j.Uthash.{Items, list_table, lookup_item}
use unbound4j.Engine.State.{State, resolved, put, initial}
use unbound4j.Engine.Query.{
  alloc_query, LookupInputs, reverse_lookup, reverse_lookup_domain, track, submit,
}
use unbound4j.Engine.Context.{
  init, config_init, create_context, prepare, configure, launch, register,
}
use unbound4j.Engine.Context.Destruction.{join}
use unbound4j.Engine.Concurrent.{Reach-Concurrent}
use unbound4j.Engine.Runs.{Reach, here, next, lookup}
use unbound4j.Engine.Lifetime.{Over}
use unbound4j.Driver.{
  Action, MainInputs, spawn, generate, fetch_add, int_bytes, lookups, thread_routine, main,
}
use unbound4j.Driver.Addresses.{generated, generated-get}
use unbound4j.Driver.Turns.{Supplied, AllSupplied, nulls, thread_routine-Runs}
use unbound4j.Driver.Exit.{started, main-Over}
use unbound4j.Tests.States.{context, idle, idle-Kept, inputs}
use unbound4j.Tests.Queue.{quiet, any_config, created}

generated-get_example : get_elem? (generated 2 4294967295).0 4 ≡ some 3
generated-get_example = generated-get 2 4294967295 4 (omega arith) (omega arith)

abbrev one_lookup : State Items → Option (State Items)
one_lookup s = lookups list_table true 100 9 (inputs ∷ []) (16843009 ∷ []) s >>= λ r. some r.1

abbrev driven : MainInputs Items
driven = record {
  ctx_lock = true;
  query_lock = true;
  cfg_lock = true;
  create = created;
  created = λ i. true;
  work = one_lookup;
  wrlock = true;
  joined = true;
}

abbrev born : State Items
born =
    (create_context list_table (config_init any_config) created (started list_table quiet driven)).1

born_created :
    create_context list_table (config_init any_config) created (started list_table quiet driven)
    ≡ (none, born)
unfolding create_context prepare configure launch register config_init init
born_created = refl

abbrev asked : State Items
asked = record born {
  queries = (3, 300) ∷ [];
  query_at =
      put
        (put born.query_at 300 (
          some (record {
            id = 0;
            userdata = 0;
            callback = 9;
            expires_at_epoch_sec = 0;
            expired = false;
          })))
        300
        (some (record {
          id = 3;
          userdata = 0;
          callback = 9;
          expires_at_epoch_sec = 15;
          expired = false;
        }));
  calls = resolved 50 3 300 (codes "1.1.1.1.in-addr.arpa") ∷ born.calls;
}

asked_runs :
    reverse_lookup list_table some inputs 1 (int_bytes true 16843009) 0 9 born ≡ some (none, asked)
unfolding reverse_lookup reverse_lookup_domain track submit build_reverse_lookup_domain_v4 v4_text
    decimal strdup snprintf vsnprintf store_all store c_string lookup_item int_bytes create_context
    prepare configure launch register config_init init
asked_runs = refl

born_asked : Reach list_table 50 100 born asked (0 ∷ [])
unfolding lookup_item create_context prepare configure launch register config_init init
born_asked =
    next here
      (lookup inputs 1 (int_bytes true 16843009) 0 9 none refl
        (record { new_memory = λ p e. refl; new_id = λ j x m. absurd m }) asked_runs)
      refl

worked : one_lookup born ≡ some asked
unfolding lookups create_context prepare configure launch register config_init init
worked = rw asked_runs

spawned : spawn driven.created 0 12 ≡ true
unfolding spawn
spawned = refl

main-Over_example :
    (z : State Items) × (main list_table
        (join list_table quiet true)
        any_config
        driven
        (initial list_table)
      ≡ some (0, z))
    × Over list_table 50 100 asked (0 ∷ []) z
main-Over_example =
    main-Over list_table quiet any_config driven 100 50 true born asked (0 ∷ []) refl refl
      born_created (Reach-Concurrent list_table 50 100 born asked (0 ∷ []) born_asked) worked refl
      spawned

-- One turn: the first lookup is accepted, the others find no memory.
abbrev short_of_memory : LookupInputs
short_of_memory = record inputs { query_memory = none; async_id = 4 }

abbrev turn_inputs : List LookupInputs
turn_inputs = inputs ∷ short_of_memory ∷ short_of_memory ∷ []

abbrev pending : State Items
pending = record idle {
  queries = (3, 300) ∷ [];
  query_at =
      put
        (put idle.query_at 300 (
          some (record {
            id = 0;
            userdata = 0;
            callback = 9;
            expires_at_epoch_sec = 0;
            expired = false;
          })))
        300
        (some (record {
          id = 3;
          userdata = 0;
          callback = 9;
          expires_at_epoch_sec = 15;
          expired = false;
        }));
  calls = resolved 50 3 300 (codes "1.1.1.1.in-addr.arpa") ∷ [];
}

first_runs :
    reverse_lookup list_table some inputs 1 (int_bytes true 16843009) 0 9 idle
    ≡ some (none, pending)
unfolding reverse_lookup reverse_lookup_domain track submit build_reverse_lookup_domain_v4 v4_text
    decimal strdup snprintf vsnprintf store_all store c_string lookup_item int_bytes
first_runs = refl

second_runs :
    reverse_lookup list_table some short_of_memory 1 (int_bytes true 16843010) 0 9 pending
    ≡ some (some alloc_query, pending)
unfolding reverse_lookup reverse_lookup_domain track submit build_reverse_lookup_domain_v4 v4_text
    decimal strdup snprintf vsnprintf store_all store c_string lookup_item int_bytes
second_runs = refl

turn-Supplied :
    Supplied list_table 50 100 context refl true 9 turn_inputs
      (16843009 ∷ 16843010 ∷ 16843011 ∷ [])
      idle
turn-Supplied = (
  omega arith,
  record { new_memory = λ p e. refl; new_id = λ j x m. absurd m },
  λ r s' e.
      let same : pending ≡ s' = let f = first_runs in cc in
      subst
        (λ x.
          Supplied list_table 50 100 context refl true 9 (short_of_memory ∷ short_of_memory ∷ [])
            (16843010 ∷ 16843011 ∷ []) x)
        same
        (
          omega arith,
          record { new_memory = λ p e. ground arith; new_id = λ j x m. ground arith },
          λ r s' e.
              let same' : pending ≡ s' = let f = second_runs in cc in
              subst
                (λ x.
                  Supplied list_table 50 100 context refl true 9 (short_of_memory ∷ [])
                    (16843011 ∷ []) x)
                same'
                (
                  omega arith,
                  record { new_memory = λ p e. ground arith; new_id = λ j x m. ground arith },
                  λ r s' e. tt,
                ),
        ),
)

turns-AllSupplied :
    AllSupplied list_table 50 100 context refl true 9 (turn_inputs ∷ []) 16843009 idle
unfolding generate fetch_add
turns-AllSupplied = (refl, turn-Supplied, λ out s' e. tt)

found_idle : lookup_item 1 idle.contexts ≡ some 100
unfolding lookup_item
found_idle = refl

thread_routine-Runs_example :
    (out : List Action) × (s' : State Items) × (k : ℕ) × (thread_routine list_table true 100 9
        (turn_inputs ∷ [])
        16843009
        idle
      ≡ some (out, (generated 1 16843009).1, s'))
    × Reach list_table 50 100 idle s' (nulls k)
    × (k + length out ≡ 3)
thread_routine-Runs_example =
    thread_routine-Runs list_table 50 100 context refl true 9 (turn_inputs ∷ []) 16843009 idle idle
      0 idle-Kept here found_idle turns-AllSupplied
