-- ===== src/Engine/Foreign.antt =====
-- The table of queries is shared by all contexts, and a thread gives up what it finds there: what
-- happens when it finds a query of another context.
use unbound4j.Base.{
  ℕ, ◌≡◌, ◌≢◌, refl, ap, false, Option, none, some, List, [], ◌∷◌, Bytes, ◌==◌, arith, ==_self,
}
use unbound4j.Uthash.{Ptr, Items, Uthash}
use unbound4j.Engine.State.{Query, State}
use unbound4j.Engine.Query.{UbResult, lookup_callback}
use unbound4j.Engine.Tracking.{drop_async, outstanding, tagged, Tracks}
use unbound4j.Engine.Thread.{give_up}
use unbound4j.Engine.Thread.Expiry.{given_up, give_up-runs}
use unbound4j.Engine.Answer.{answer}

drop_async-other : (u w k : ℕ) (l : Items) → u ≢ w → drop_async w k (tagged u l) ≡ tagged u l
unfolding drop_async
drop_async-other u w k [] ne = refl
drop_async-other u w k ((j, p) ∷ l) ne =
    let other : (u == w) ≡ false = ground arith in
    rw other (ap (◌∷◌ (u, j, p)) (drop_async-other u w k l ne))

module _ (H : Uthash) (u w : ℕ) where
  open H use {Table}

  -- If the thread of the Unbound context w gives up the oldest tracked query of another context u,
  -- that is defined and frees the query, but libunbound still has every query of u outstanding;
  -- when it then answers the one that was given up, the callback reads freed memory.
  pub foreign_give_up-faults :
      (k : ℕ) (p : Ptr) (q : Query) (l : Items) (qs : List Query) (s : State Table)
      → Tracks H u s ((k, p) ∷ l) (q ∷ qs)
      → u ≢ w
      → (s' : State Table) × (give_up H w p q s ≡ some s')
        × (outstanding s'.calls ≡ tagged u ((k, p) ∷ l))
        × ((err : ℕ) (result : Option UbResult) (buffer : Option Bytes)
            → answer H u k p err result buffer s' ≡ none)
  foreign_give_up-faults k p q l qs s t ne = (
    given_up H w p q s,
    give_up-runs H w k p q l s t.in_table,
    unfold outstanding in rw t.at_unbound (drop_async-other u w q.id ((k, p) ∷ l) ne),
    (λ err result buffer. unfold answer lookup_callback in rw (==_self p)),
  )
