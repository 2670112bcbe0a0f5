-- ===== src/Engine/Thread/Deliveries.antt =====
-- The answers that `ub_process` delivers in one call.
use unbound4j.Base.{ℕ, ◌≡◌, refl, Option, some, List, [], ◌∷◌, Bytes, length, ◌>>=◌, subst}
use unbound4j.Uthash.{Ptr, Uthash}
use unbound4j.Engine.State.{Context, State}
use unbound4j.Engine.Query.{UbResult}
use unbound4j.Engine.Query.HostName.{IsResult, host_name-defined}
use unbound4j.Engine.Tracking.{outstanding}
use unbound4j.Engine.Answer.{answer, answer-Tracks}
use unbound4j.Engine.Runs.{May, May-Maps, answers, Reach, here, next, Kept}
use unbound4j.Engine.Lifecycle.{Kept-Reach}
use unbound4j.Engine.Interleaving.{Reach-append}

-- What libunbound passes to the callback, and the buffer that `malloc(256)` gives.
pub record Delivery : Type 0 where
  pub id : ℕ
  pub query : Ptr
  pub err : ℕ
  pub result : Option UbResult
  pub buffer : Bytes

module _ (H : Uthash) (u : ℕ) where
  open H use {Table}

  -- The callbacks of one call of `ub_process`.
  unfoldable pub deliver_all : List Delivery → State Table → Option (State Table)
  deliver_all [] s = some s
  deliver_all (d ∷ ds) s =
      answer H u d.id d.query d.err d.result (some d.buffer) s >>= λ s₁. deliver_all ds s₁

  -- Each answer is to a query that is outstanding by then, with data as libunbound documents them.
  abbrev pub Documented : List Delivery → State Table → Type 0
  Documented [] s = Unit {0}
  Documented (d ∷ ds) s =
      May u d.id d.query (outstanding s.calls)
      × IsResult d.result
      × (length d.buffer ≡ 256)
      × ((s₁ : State Table)
          → answer H u d.id d.query d.err d.result (some d.buffer) s ≡ some s₁
          → Documented ds s₁)

module _ (H : Uthash) (u : ℕ) (cp : Ptr) (c : Context) (mine : c.ub_ctx ≡ u) where
  open H use {Table, items}

  pub deliver_all-Acts :
      (ds : List Delivery) (s : State Table) (us : List ℕ)
      → Kept H u cp c s us
      → Documented H u ds s
      → (z : State Table) × (deliver_all H u ds s ≡ some z) × Reach H u cp s z []
  unfolding deliver_all
  deliver_all-Acts [] s us kept documented = (s, refl, here)
  deliver_all-Acts (d ∷ ds) s us kept (may, result, size, later) =
      let (l, qs, t, counts) = kept.queue in
      let (host, named, _) = host_name-defined d.err d.result d.buffer result size in
      let (q, qs', s₁, e, _, _, _, _, _) =
        answer-Tracks H u d.id d.query d.err d.result (some d.buffer) host l qs s t
          (May-Maps u d.id d.query l (subst (May u d.id d.query) t.at_unbound may)) named in
      let run : Reach H u cp s s₁ [] =
        next here (answers d.id d.query d.err d.result (some d.buffer) may e) refl in
      let (z, e', run') =
        deliver_all-Acts ds s₁ us (Kept-Reach H u cp c mine s s₁ [] us run kept) (later s₁ e) in
      (z, rw (e, e'), Reach-append H u cp s s₁ z [] [] run run')
