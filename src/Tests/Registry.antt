-- ===== src/Tests/Registry.antt =====
-- Creation, lookup and deletion of contexts on concrete states.
use unbound4j.Base.{◌≡◌, refl, inl, true, none, some, [], ◌∷◌, arith}
use unbound4j.Uthash.{Items, list_table, lookup_item, remove}
use unbound4j.Engine.State.{State}
use unbound4j.Engine.Tracking.{outstanding}
use unbound4j.Engine.Thread.{RoundInputs, end_thread}
use unbound4j.Engine.Context.{CreateInputs, create_context, delete_context, destroy}
use unbound4j.Engine.Context.Deletion.{Freed, stopped, delete_context-tells}
use unbound4j.Engine.Context.Registry.{Registered}
use unbound4j.Engine.Context.Registering.{Registers, create_context-Registers}
use unbound4j.Engine.Context.Destruction.{join, Destroys, destroy-Destroys}
use unbound4j.Engine.Context.Unregistering.{Unregisters, delete_context-Unregisters}
use unbound4j.Engine.Thread.Deliveries.{deliver_all}
use unbound4j.Engine.Thread.Stop.{Answering}
use unbound4j.Tests.States.{context, idle, idle-Kept, looked_up, history}
use unbound4j.Tests.Names.{buffer}
use unbound4j.Tests.Queue.{quiet, any_config, created}

pub looked_up_finds : lookup_item 1 looked_up.contexts ≡ some 100
unfolding lookup_item
looked_up_finds = refl

-- In the round in progress libunbound reports an error for the query that waits.
abbrev pub failing : RoundInputs Items
failing = record quiet {
  answers =
      deliver_all list_table 50
        (record { id = 3; query = 300; err = 2; result = none; buffer = buffer } ∷ []);
}

pub failing-Answering :
    Answering list_table 50
      (some failing)
      (stopped 100 context (record looked_up { contexts = remove 100 looked_up.contexts }))
unfolding outstanding
failing-Answering = (
  record { id = 3; query = 300; err = 2; result = none; buffer = buffer } ∷ [],
  refl,
  (inl (refl, refl, refl), tt, refl, λ s e. tt),
  λ x. refl,
)

-- The context is deleted while a lookup waits and a round is in progress.
delete_context-tells_example :
    (z : State Items) × (delete_context list_table
        (end_thread list_table 100 true (some failing) quiet)
        true
        true
        1
        looked_up
      ≡ some (none, z))
    × (z.contexts ≡ remove 100 looked_up.contexts)
    × Freed list_table 50 100 (remove 100 looked_up.contexts) (11 ∷ []) z
delete_context-tells_example =
    delete_context-tells list_table 50 100 context refl true true (some failing) quiet 1 idle
      looked_up (11 ∷ []) idle-Kept history failing-Answering looked_up_finds

idle-Registered : Registered list_table idle idle.contexts (context ∷ [])
idle-Registered = record { listed = refl; stand = (refl, refl, tt); distinct = (tt, tt) }

-- A second context, at another address.
abbrev second : CreateInputs
second = record created { memory = some 101; ub_ctx_create = some 51 }

create_context-Registers_example :
    Registers list_table any_config 101 51 idle.contexts
      (context ∷ [])
      idle
      (create_context list_table any_config second idle)
create_context-Registers_example =
    create_context-Registers list_table any_config second 101 51 idle.contexts (context ∷ []) idle
      refl refl refl (omega arith) idle-Registered

destroy-Destroys_example :
    (z : State Items) × (destroy list_table (join list_table quiet true) true true idle ≡ some z)
    × Destroys list_table quiet idle.contexts (context ∷ []) idle z
destroy-Destroys_example =
    destroy-Destroys list_table quiet true true idle.contexts (context ∷ []) idle refl
      idle-Registered

delete_context-Unregisters_example :
    Unregisters list_table quiet true true 1 idle.contexts
      (context ∷ [])
      idle
      (lookup_item 1 idle.contexts)
delete_context-Unregisters_example =
    delete_context-Unregisters list_table quiet true true 1 idle.contexts (context ∷ []) idle refl
      idle-Registered
