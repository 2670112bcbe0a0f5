-- ===== src/Tests/Engine.antt =====
-- jni/src/unbound4j.c on concrete states.
use unbound4j.Base.{ℕ, ◌≤◌, ◌≡◌, refl, Option, none, some, List, [], ◌∷◌, ◌++◌, Bytes, All, arith}
use unbound4j.Uthash.{Items, list_table, lookup_item}
use unbound4j.Engine.State.{Query, State}
use unbound4j.Engine.Query.{UbResult}
use unbound4j.Engine.Tracking.{outstanding, tagged, Tracks}
use unbound4j.Engine.Thread.{process_round, give_up, expire_loop}
use unbound4j.Engine.Thread.Expiry.{tell_timeouts}
use unbound4j.Engine.Thread.Deadline.{ExpiresAfter, IsOrdered, expire_loop-exact}
use unbound4j.Engine.Thread.Timely.{Timed, begin, passes}
use unbound4j.Engine.Thread.OnTime.{LeavesLater, process_round-LeavesLater}
use unbound4j.Engine.Answer.{answer}
use unbound4j.Engine.Runs.{lookup}
use unbound4j.Engine.Foreign.{foreign_give_up-faults}
use unbound4j.Tests.States.{
  context, idle, idle-Kept, looked_up, first_query, second_query, busy, busy-Tracks, inputs,
  address, lookup_runs,
}
use unbound4j.Tests.Queue.{quiet}

expire_loop-exact_example :
    (s' : State Items) × (l' : Items) × (gone : List Query) × (rest : List Query) × (expire_loop
        list_table 50 15 busy.queries busy
      ≡ some s')
    × Tracks list_table 50 s' l' rest
    × (s'.calls ≡ tell_timeouts list_table 50 gone busy.calls)
    × (first_query ∷ second_query ∷ [] ≡ gone ++ rest)
    × All (λ (q : Query). q.expires_at_epoch_sec ≤ 15) gone
    × ExpiresAfter 16 rest
    × IsOrdered rest
expire_loop-exact_example =
    expire_loop-exact list_table 50 15 busy.queries (first_query ∷ second_query ∷ []) busy
      busy-Tracks (omega arith)

foreign_give_up-faults_example :
    (s' : State Items) × (give_up list_table 51 200 first_query busy ≡ some s')
    × (outstanding s'.calls ≡ tagged 50 busy.queries)
    × ((err : ℕ) (result : Option UbResult) (buffer : Option Bytes)
        → answer list_table 50 1 200 err result buffer s' ≡ none)
foreign_give_up-faults_example =
    foreign_give_up-faults list_table 50 51 1 200 first_query ((2, 201) ∷ []) (second_query ∷ [])
      busy busy-Tracks (omega arith)

found : lookup_item 1 idle.contexts ≡ some 100
unfolding lookup_item
found = refl

-- The lookup of the run read the clock at 10.
timed : Timed list_table 50 100 idle looked_up 10
timed =
    passes (begin 0)
      (lookup inputs 1 address 11 9 none found
        (record { new_memory = λ p e. refl; new_id = λ j x m. absurd m }) lookup_runs)
      (omega arith, refl)

process_round-LeavesLater_example :
    LeavesLater list_table 50 15 (process_round list_table 50 quiet looked_up)
process_round-LeavesLater_example =
    process_round-LeavesLater list_table 50 100 context refl quiet idle looked_up 10 idle-Kept timed
      ((λ x. refl), (λ x. refl)) refl refl
