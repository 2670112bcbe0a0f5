-- ===== src/Tests/Histories.antt =====
-- An answer during which another thread looks an address up.
use unbound4j.Base.{
  ℕ, ◌≡◌, refl, inl, inr, true, Option, none, some, List, [], ◌∷◌, codes, ◌>>=◌, subst, arith,
}
use unbound4j.Memory.{store, store_all, vsnprintf, snprintf, c_string}
use unbound4j.Dnsutils.{build_reverse_lookup_domain_v4, strdup, v4_text, decimal}
use unbound4j.Uthash.{Items, list_table, lookup_item, has_item, remove}
use unbound4j.Engine.State.{Query, State, Call, resolved, answered, put, call}
use unbound4j.Engine.Query.{
  host_name, lookup_callback, reverse_lookup, reverse_lookup_domain, track, submit,
}
use unbound4j.Engine.Tracking.{outstanding, told}
use unbound4j.Engine.Thread.{RoundInputs, process_round, stop_cleanup}
use unbound4j.Engine.Answer.{answer}
use unbound4j.Engine.Runs.{count, May, Reach, Kept}
use unbound4j.Engine.Frames.{with_calls}
use unbound4j.Engine.During.{Lookups, no_lookup, one_more, lookup_callback-linear}
use unbound4j.Engine.Beside.{entered}
use unbound4j.Engine.Concurrent.{Concurrent, nothing_yet, during, Concurrent-Kept, Concurrent-told}
use unbound4j.Tests.States.{context, idle, idle-Kept, waiting_query, address, looked_up, history}
use unbound4j.Tests.Names.{looked_up-Kept, May-answer}
use unbound4j.Engine.Interleaving.{Acts, lookup_callback-Acts}
use unbound4j.Engine.Thread.Answers.{process_round-Acts}
use unbound4j.Tests.Queue.{quiet}
use unbound4j.Tests.Races.{second_inputs}

-- In the delegate, which is told an error.
abbrev telling : State Items
telling = entered list_table 50 3 waiting_query 2 none none looked_up

abbrev another : State Items → Option (State Items)
another s = reverse_lookup list_table some second_inputs 1 address 12 9 s >>= λ r. some r.1

abbrev later_query : Query
later_query = record waiting_query { id = 4; userdata = 12 }

abbrev both : State Items
both = record telling {
  queries = (3, 300) ∷ (4, 400) ∷ [];
  query_at =
      put
        (put looked_up.query_at 400
          (some (record later_query { id = 0; expires_at_epoch_sec = 0 })))
        400 (some later_query);
  calls = resolved 50 4 400 (codes "5.2.0.192.in-addr.arpa") ∷ telling.calls;
}

another_runs :
    reverse_lookup list_table some second_inputs 1 address 12 9 telling ≡ some (none, both)
unfolding reverse_lookup reverse_lookup_domain track submit build_reverse_lookup_domain_v4 v4_text
    decimal strdup snprintf vsnprintf store_all store c_string lookup_item
another_runs = refl

another_ends : another telling ≡ some both
another_ends = rw another_runs

another-Lookups : Lookups list_table 50 100 telling both (12 ∷ [])
unfolding lookup_item
another-Lookups =
    one_more no_lookup second_inputs 1 address 12 9 none refl
      (record {
        new_memory =
            λ p e. (let same : 400 ≡ p = cc in subst (λ x. telling.query_at x ≡ none) same refl);
        new_id =
            λ j x m. elim m [ inl (e, _) ↦ (λ h. omega arith) | inr none_more ↦ absurd none_more ];
      })
      another_runs refl

named : host_name 2 none none ≡ some none
unfolding host_name
named = refl

lookup_callback-linear_example :
    (b : State Items) × (h : List Call) × (z : State Items) × Reach list_table 50 100 looked_up b
      (12 ∷ [])
    × May 50 3 300 (outstanding b.calls)
    × (answer list_table 50 3 300 2 none none b ≡ some z)
    × (lookup_callback list_table another 300 2 none none true (call (answered 50 3) looked_up)
        ≡ some (with_calls h z))
    × (outstanding h ≡ outstanding z.calls)
    × ((v : ℕ) → count v (told h) ≡ count v (told z.calls))
lookup_callback-linear_example =
    lookup_callback-linear list_table 50 100 context refl another 3 300 waiting_query 2 none none
      none looked_up both (11 ∷ []) (12 ∷ []) looked_up-Kept May-answer refl named another_ends
      another-Lookups

abbrev over : State Items
over = record both { queries = (4, 400) ∷ []; query_at = put both.query_at 300 none }

callback_ends :
    lookup_callback list_table another 300 2 none none true (call (answered 50 3) looked_up)
    ≡ some over
unfolding lookup_callback host_name has_item remove
callback_ends = rw another_ends refl

overlapped : Concurrent list_table 50 100 idle over (12 ∷ 11 ∷ [])
overlapped =
    during history another 3 300 waiting_query 2 none none none May-answer refl named another_ends
      another-Lookups callback_ends refl

Concurrent-Kept_example :
    Kept list_table 50 100 context over (12 ∷ 11 ∷ []) × (over.contexts ≡ idle.contexts)
Concurrent-Kept_example =
    Concurrent-Kept list_table 50 100 context refl idle over (12 ∷ 11 ∷ []) [] overlapped idle-Kept

Concurrent-told_example :
    (z : State Items) × (stop_cleanup list_table 50 true over ≡ some z)
    × (z.queries ≡ [])
    × (outstanding z.calls ≡ [])
    × ((v : ℕ) → count v (told z.calls) ≡ count v (12 ∷ 11 ∷ []))
Concurrent-told_example =
    Concurrent-told list_table 50 100 context refl true idle over (12 ∷ 11 ∷ []) idle-Kept
      overlapped

-- A round with that answer.
abbrev answered_round : RoundInputs Items
answered_round = record quiet {
  answers = λ s. lookup_callback list_table another 300 2 none none true (call (answered 50 3) s);
}

process_round-Acts_example :
    Acts list_table 50 100 (process_round list_table 50 answered_round) looked_up
process_round-Acts_example =
    process_round-Acts list_table 50 100 context refl answered_round looked_up (11 ∷ [])
      looked_up-Kept
      (lookup_callback-Acts list_table 50 100 context refl another 3 300 waiting_query 2 none none
        none looked_up both (11 ∷ []) (12 ∷ []) looked_up-Kept May-answer refl named another_ends
        another-Lookups)
      (λ x e. (x, [], refl, nothing_yet))
