-- ===== src/Engine/Shutdown.antt =====
-- Runs of lookups, answers and rounds up to the end of the thread.
use unbound4j.Base.{refl, length, ℕ, ◌≡◌, subst, Bool, Option, some, List, [], Bytes}
use unbound4j.Uthash.{Ptr, Uthash}
use unbound4j.Engine.State.{Context, State}
use unbound4j.Engine.Query.HostName.{IsResult, host_name-defined}
use unbound4j.Engine.Query.{UbResult, host_name}
use unbound4j.Engine.Tracking.{outstanding, told}
use unbound4j.Engine.Thread.{RoundInputs, IsQuiet, process_round, stop_cleanup}
use unbound4j.Engine.Thread.Round.{process_round-Drops}
use unbound4j.Engine.Answer.{answer, answer-Tracks}
use unbound4j.Engine.Runs.{next, answers, count, May, May-Maps, Reach, Kept}
use unbound4j.Engine.Lifecycle.{Reach-Kept}
use unbound4j.Engine.Concurrent.{Reach-Concurrent, Concurrent-told}

module _ (H : Uthash) (u : ℕ) (cp : Ptr) (c : Context) (mine : c.ub_ctx ≡ u) where
  open H use {Table, items}

  -- What a run leaves to the thread when it ends.
  pub stop-told :
      (wrlock : Bool) (s s' : State Table) (vs : List ℕ)
      → Kept H u cp c s []
      → Reach H u cp s s' vs
      → (z : State Table) × (stop_cleanup H u wrlock s' ≡ some z)
        × (items z.queries ≡ [])
        × (outstanding z.calls ≡ [])
        × ((v : ℕ) → count v (told z.calls) ≡ count v vs)
  stop-told wrlock s s' vs start run =
      Concurrent-told H u cp c mine wrlock s s' vs start (Reach-Concurrent H u cp s s' vs run)

  -- No answer and no round faults.
  pub Reach-defined :
      (s s' : State Table) (vs : List ℕ)
      → Kept H u cp c s []
      → Reach H u cp s s' vs
      → ((k : ℕ) (p : Ptr) (err : ℕ) (result : Option UbResult) (buffer host : Option Bytes)
          → May u k p (outstanding s'.calls)
          → host_name err result buffer ≡ some host
          → (z : State Table) × (answer H u k p err result buffer s' ≡ some z))
        × ((inp : RoundInputs Table)
            → IsQuiet inp
            → (z : State Table) × (process_round H u inp s' ≡ some z))
  Reach-defined s s' vs start run =
      let (l, qs, t, counts) = (Reach-Kept H u cp c mine s s' vs run start).queue in
      (
        (λ k p err result buffer host may named.
            let (q, qs', z, e, _, _, _, _, _) =
              answer-Tracks H u k p err result buffer host l qs s' t
                (May-Maps u k p l (subst (May u k p) t.at_unbound may)) named in
            (z, e)),
        (λ inp idle.
            let (z, _, _, _, e, _, _, _, _, _) = process_round-Drops H u inp l qs s' idle t in
            (z, e)),
      )

  -- After any run from a state with no tracked query, an answer of libunbound to a query that it
  -- has outstanding, with data that are bytes with their length, a buffer of 256 bytes and the
  -- write lock, is defined, and the state behind it is again one of a run, with the same accepted
  -- lookups and one agreed queue.
  pub Reach-answered :
      (s s' : State Table) (vs : List ℕ) (k : ℕ) (p : Ptr) (err : ℕ) (result : Option UbResult)
      (mem : Bytes)
      → Kept H u cp c s []
      → Reach H u cp s s' vs
      → May u k p (outstanding s'.calls)
      → IsResult result
      → length mem ≡ 256
      → (z : State Table) × (answer H u k p err result (some mem) s' ≡ some z)
        × Reach H u cp s z vs
        × Kept H u cp c z vs
  Reach-answered s s' vs k p err result mem start run may documented size =
      let (host, named, _) = host_name-defined err result mem documented size in
      let (z, e) = (Reach-defined s s' vs start run).0 k p err result (some mem) host may named in
      let run' = next run (answers k p err result (some mem) may e) refl in
      (z, e, run', Reach-Kept H u cp c mine s z vs run' start)
