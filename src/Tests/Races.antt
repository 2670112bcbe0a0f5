-- ===== src/Tests/Races.antt =====
-- Two threads at once.
use unbound4j.Base.{
  ◌≡◌, refl, inl, inr, subst, List, Bytes, ◌++◌, true, false, Option, none, some, [], ◌∷◌, ◌>>=◌,
  arith,
}
use unbound4j.Uthash.{Items, list_table, lookup_item}
use unbound4j.Engine.State.{State, Query, answered, call}
use unbound4j.Engine.Query.{
  LookupInputs, LookupError, track, reverse_lookup, lookup_callback, host_name,
}
use unbound4j.Engine.Thread.{end_thread, check_queries}
use unbound4j.Engine.Context.{delete_context}
use unbound4j.Engine.Concurrent.{Concurrent}
use unbound4j.Engine.Overlap.{reverse_lookup-Accepts}
use unbound4j.Engine.Submit.{Accepts}
use unbound4j.Engine.Runs.{accepted}
use unbound4j.Engine.Tracking.{Tracks}
use unbound4j.Dnsutils.Decode.{parse_v4}
use unbound4j.Engine.Unlocked.{unlocked_callback-faults}
use unbound4j.Engine.Race.{reverse_lookup-faults}
use unbound4j.Tests.States.{
  busy, busy-Tracks, first_query, second_query, context, idle, idle-Kept, inputs, address,
  looked_up, lookup_runs, history,
}
use unbound4j.Tests.Queue.{quiet}
use unbound4j.Tests.Registry.{failing, failing-Answering, looked_up_finds}

idle_finds : lookup_item 1 idle.contexts ≡ some 100
unfolding lookup_item
idle_finds = refl

-- Another thread looks 192.0.2.5 up in between.
abbrev meanwhile : State Items → Option (State Items)
meanwhile s = reverse_lookup list_table some inputs 1 address 11 9 s >>= λ r. some r.1

meanwhile_runs : meanwhile idle ≡ some looked_up
meanwhile_runs = rw lookup_runs

abbrev pub second_inputs : LookupInputs
second_inputs = record inputs { query_memory = some 400; async_id = 4 }

reverse_lookup-Accepts_example :
    (name : Bytes) × (l : Items) × (qs : List Query) × (r : Option LookupError) × (t : State Items)
    × (parse_v4 name ≡ address)
    × Tracks list_table 50 looked_up l qs
    × (track list_table second_inputs name 12 9 100 looked_up ≡ some (r, t))
    × (reverse_lookup list_table meanwhile second_inputs 1 address 12 9 idle ≡ some (r, t))
    × Accepts list_table 50 second_inputs 12 9 context l qs looked_up (some (r, t))
    × Concurrent list_table 50 100 idle t (accepted r 12 ++ 11 ∷ [])
reverse_lookup-Accepts_example =
    reverse_lookup-Accepts list_table 50 100 context refl meanwhile second_inputs 1 192 0 2 5 12 9
      idle looked_up [] (11 ∷ []) idle-Kept meanwhile_runs history
      (omega arith, (omega arith, (omega arith, (omega arith, tt)))) (omega arith) refl refl
      idle_finds
      (record {
        new_memory =
            λ p e. (let same : 400 ≡ p = cc in subst (λ x. looked_up.query_at x ≡ none) same refl);
        new_id =
            λ j x m. elim m [ inl (e, _) ↦ (λ h. omega arith) | inr none_more ↦ absurd none_more ];
      })

reverse_lookup-faults_example :
    reverse_lookup list_table
      (λ s.
        delete_context list_table
          (end_thread list_table 100 true (some failing) quiet)
          true
          true
          1
          s
        >>= λ r. some r.1)
      second_inputs
      1
      address
      12
      9
      looked_up
    ≡ none
reverse_lookup-faults_example =
    reverse_lookup-faults list_table 50 100 context refl true true (some failing) quiet
      second_inputs 1 192 0 2 5 12 9 400 idle looked_up (11 ∷ []) idle-Kept history
      failing-Answering looked_up_finds
      (omega arith, (omega arith, (omega arith, (omega arith, tt)))) (omega arith) refl refl refl
      refl

failed : host_name 2 none none ≡ some none
unfolding host_name
failed = refl

-- The answer to the older of two queries, without the write lock.
unlocked_callback-faults_example :
    (z : State Items) × (lookup_callback list_table some 200 2 none none false
        (call (answered 50 1) busy)
      ≡ some z)
    × (z.queries ≡ busy.queries)
    × (z.query_at 200 ≡ none)
    × (check_queries list_table 50 10 some true true z ≡ none)
unlocked_callback-faults_example =
    unlocked_callback-faults list_table 50 10 some true 1 200 ((2, 201) ∷ [])
      (first_query ∷ second_query ∷ []) 2 none none none busy busy-Tracks failed
