-- ===== src/Engine/Unlocked.antt =====
-- A callback that does not get the write lock of the queries.
use unbound4j.Base.{ℕ, ◌≡◌, refl, inl, true, false, Bool, Option, none, some, List, ◌∷◌, Bytes}
use unbound4j.Uthash.{Ptr, Items, Uthash}
use unbound4j.Engine.State.{Query, State, answered, delegate, fatal, put, put_self, call}
use unbound4j.Engine.Query.{UbResult, host_name, lookup_callback, error_text, free_result}
use unbound4j.Engine.Tracking.{Tracks}
use unbound4j.Engine.Thread.{check_queries}
use unbound4j.Engine.Thread.Round.{check_queries-freed}
use unbound4j.Engine.Answer.{Live-at}

module _ (H : Uthash) (u : ℕ) where
  open H use {Table, items}

  -- What it leaves: the query is freed, and its item stays.
  abbrev left_over :
      ℕ → Ptr → Query → ℕ → Option UbResult → Option Bytes → State Table → State Table
  left_over k p q err result host s = record s {
    query_at = put s.query_at p none;
    calls =
        fatal
        ∷ delegate q.callback q.userdata (error_text err false) host
        ∷ (free_result result (call (answered u k) s)).calls;
  }

  unlocked-runs :
      (k : ℕ) (p : Ptr) (q : Query) (err : ℕ) (result : Option UbResult)
      (buffer host : Option Bytes) (s : State Table)
      → s.query_at p ≡ some q
      → q.expired ≡ false
      → host_name err result buffer ≡ some host
      → lookup_callback H some p err result buffer false (call (answered u k) s)
        ≡ some (left_over k p q err result host s)
  unfolding lookup_callback
  unlocked-runs k p q err none buffer host s at live named = rw (at, named, live, at)
  unlocked-runs k p q err (some r) buffer host s at live named = rw (at, named, live, at)

  -- If a queue is tracked and libunbound answers the query at its head, with a host name that is
  -- defined, but the callback does not get the write lock, the callback is defined and frees the
  -- query, whose item stays at the head of the table; the next pass of the processing thread that
  -- gets the read lock then reads the freed query, whatever else it is given.
  pub unlocked_callback-faults :
      (now : ℕ) (between : State Table → Option (State Table)) (wrlock : Bool) (k : ℕ) (p : Ptr)
      (l : Items) (qs : List Query) (err : ℕ) (result : Option UbResult)
      (buffer host : Option Bytes) (s : State Table)
      → Tracks H u s ((k, p) ∷ l) qs
      → host_name err result buffer ≡ some host
      → (z : State Table) × (lookup_callback H some p err result buffer false
            (call (answered u k) s)
          ≡ some z)
        × (items z.queries ≡ (k, p) ∷ l)
        × (z.query_at p ≡ none)
        × (check_queries H u now between true wrlock z ≡ none)
  unlocked_callback-faults now between wrlock k p l qs err result buffer host s t named =
      let (q, at, live) = Live-at s.query_at k p ((k, p) ∷ l) qs (inl (refl, refl)) t.live in
      let z = left_over k p q err result host s in
      let gone = put_self s.query_at p none in
      (
        z,
        unlocked-runs k p q err result buffer host s at live named,
        t.in_table,
        gone,
        check_queries-freed H u now between wrlock k p l z t.in_table gone,
      )
