-- ===== src/Tests/Queue.antt =====
-- Single operations of jni/src/unbound4j.c on concrete states.
use unbound4j.Base.{◌≡◌, refl, inl, inr, true, false, none, some, List, [], ◌∷◌, codes, arith}
use unbound4j.Uthash.{Items, list_table, remove}
use unbound4j.Engine.State.{Config, Query, State, initial, delegate, answered}
use unbound4j.Engine.Query.{track, host_name, error_text}
use unbound4j.Engine.Tracking.{Tracks}
use unbound4j.Engine.Thread.{RoundInputs}
use unbound4j.Engine.Answer.{Takes, answer, answer-Tracks}
use unbound4j.Engine.Submit.{Accepts, track-Accepts}
use unbound4j.Engine.Context.{CreateInputs, config_init, create_context}
use unbound4j.Engine.Context.Creation.{create_context-Outcome}
use unbound4j.Engine.Context.Outcome.{Outcome}
use unbound4j.Tests.States.{context, inputs, first_query, second_query, busy, busy-Tracks}

no_host : host_name 2 none none ≡ some none
unfolding host_name
no_host = refl

-- The second query is answered with an error.
answer-Tracks_example :
    (q : Query) × (qs' : List Query) × (s' : State Items) × (answer list_table 50 2 201 2 none none
        busy
      ≡ some s')
    × Takes q (first_query ∷ second_query ∷ []) qs'
    × Tracks list_table 50 s' ((1, 200) ∷ []) qs'
    × (s'.calls
        ≡ delegate q.callback q.userdata (error_text 2 false) none ∷ answered 50 2 ∷ busy.calls)
    × (s'.context_at ≡ busy.context_at)
    × (s'.contexts ≡ busy.contexts)
unfolding remove
answer-Tracks_example =
    answer-Tracks list_table 50 2 201 2 none none none busy.queries
      (first_query ∷ second_query ∷ []) busy busy-Tracks (inr (inl (refl, refl))) no_host

busy_context : busy.context_at 100 ≡ some context
busy_context = refl

-- A third lookup joins the two.
track-Accepts_example :
    Accepts list_table 50 inputs 13 9 context busy.queries
      (first_query ∷ second_query ∷ [])
      busy
      (track list_table inputs (codes "5.2.0.192.in-addr.arpa") 13 9 100 busy)
track-Accepts_example =
    track-Accepts list_table 50 inputs (codes "5.2.0.192.in-addr.arpa") 13 9 100 context
      busy.queries (first_query ∷ second_query ∷ []) busy busy-Tracks busy_context refl
      (record { new_memory = λ p e. ground arith; new_id = λ j x m. ground arith })

abbrev pub quiet : RoundInputs Items
quiet = record {
  select_ok = true;
  answers = some;
  process_ok = true;
  now = 15;
  rdlock = true;
  between = some;
  wrlock = true;
}

abbrev pub any_config : Config
any_config = record { use_system_resolver = false; unbound_config = none; request_timeout_secs = 0 }

abbrev pub created : CreateInputs
created = record {
  memory = some 100;
  ub_ctx_create = some 50;
  resolvconf = 0;
  hosts = 0;
  config = 0;
  async = 0;
  fd = some 9;
  thread = some 70;
  wrlock = true;
}

create_context-Outcome_example :
    Outcome list_table
      (config_init any_config)
      100
      50
      (initial list_table)
      (create_context list_table (config_init any_config) created (initial list_table))
create_context-Outcome_example =
    create_context-Outcome list_table (config_init any_config) created 100 50 (initial list_table)
      refl refl
