-- ===== src/Tests/States.antt =====
-- Concrete states of jni/src/unbound4j.c, with lists of items for hash tables.
use unbound4j.Base.{
  ◌≡◌, refl, true, false, none, some, [], ◌∷◌, Bytes, codes, ◌==◌, if◌then◌else◌, arith,
}
use unbound4j.Memory.{store, store_all, vsnprintf, snprintf, c_string}
use unbound4j.Dnsutils.{build_reverse_lookup_domain_v4, strdup, v4_text, decimal}
use unbound4j.Uthash.{Items, list_table, lookup_item}
use unbound4j.Engine.State.{Query, Context, State, resolved, put}
use unbound4j.Engine.Query.{LookupInputs, reverse_lookup, reverse_lookup_domain, track, submit}
use unbound4j.Engine.Tracking.{outstanding, told, Tracks}
use unbound4j.Engine.Concurrent.{Concurrent, Reach-Concurrent}
use unbound4j.Engine.Runs.{Reach, here, next, lookup, Kept}

abbrev pub context : Context
context = record {
  id = 1;
  ub_ctx = 50;
  ub_fd = 9;
  thread_id = 70;
  stopping = false;
  request_timeout_secs = 5;
}

-- One context at address 100, no queries.
abbrev pub idle : State Items
idle = record {
  contexts = (1, 100) ∷ [];
  ctx_id_generator = 2;
  queries = [];
  context_at = λ p. if p == 100 then some context else none;
  query_at = λ p. none;
  calls = [];
}

pub idle-Kept : Kept list_table 50 100 context idle []
unfolding outstanding told
idle-Kept = record {
  queue = (
    [],
    [],
    record { in_table = refl; at_unbound = refl; live = tt; distinct = tt },
    λ v. omega arith,
  );
  context = refl;
}

abbrev pub stack : Bytes
stack = codes "0123456789abcdef0123456789abcdef0123456789abcdef"

abbrev pub inputs : LookupInputs
inputs = record {
  rdlock = true;
  stack = stack;
  domain_memory = true;
  query_memory = some 300;
  wrlock = true;
  now = 10;
  nret = 0;
  async_id = 3;
}

abbrev pub waiting_query : Query
waiting_query = record {
  id = 3;
  userdata = 11;
  callback = 9;
  expires_at_epoch_sec = 15;
  expired = false;
}

-- After a lookup of 192.0.2.5.
abbrev pub looked_up : State Items
looked_up = record idle {
  queries = (3, 300) ∷ [];
  query_at =
      put (put idle.query_at 300 (some (record waiting_query { id = 0; expires_at_epoch_sec = 0 })))
        300 (some waiting_query);
  calls = resolved 50 3 300 (codes "5.2.0.192.in-addr.arpa") ∷ [];
}

abbrev pub address : Bytes
address = 192 ∷ 0 ∷ 2 ∷ 5 ∷ []

pub lookup_runs : reverse_lookup list_table some inputs 1 address 11 9 idle ≡ some (none, looked_up)
unfolding reverse_lookup reverse_lookup_domain track submit build_reverse_lookup_domain_v4 v4_text
    decimal strdup snprintf vsnprintf store_all store c_string lookup_item
lookup_runs = refl

pub run : Reach list_table 50 100 idle looked_up (11 ∷ [])
unfolding lookup_item
run =
    next here
      (lookup inputs 1 address 11 9 none refl
        (record { new_memory = λ p e. refl; new_id = λ j x m. absurd m }) lookup_runs)
      refl

pub history : Concurrent list_table 50 100 idle looked_up (11 ∷ [])
history = Reach-Concurrent list_table 50 100 idle looked_up (11 ∷ []) run

abbrev pub first_query : Query
first_query = record {
  id = 1;
  userdata = 11;
  callback = 9;
  expires_at_epoch_sec = 10;
  expired = false;
}

abbrev pub second_query : Query
second_query = record {
  id = 2;
  userdata = 12;
  callback = 9;
  expires_at_epoch_sec = 20;
  expired = false;
}

-- Two queries wait.
abbrev pub busy : State Items
busy = record idle {
  queries = (1, 200) ∷ (2, 201) ∷ [];
  query_at =
      λ p. if p == 200 then some first_query else if p == 201 then some second_query else none;
  calls = resolved 50 2 201 [] ∷ resolved 50 1 200 [] ∷ [];
}

pub busy-Tracks : Tracks list_table 50 busy busy.queries (first_query ∷ second_query ∷ [])
unfolding outstanding
busy-Tracks = record {
  in_table = refl;
  at_unbound = refl;
  live = (refl, refl, refl, (refl, refl, refl, tt));
  distinct = ((omega arith, omega arith, tt), (tt, tt));
}
