-- ===== src/Engine/Concurrent.antt =====
-- Histories in which other threads act between the locks of a function.
use unbound4j.Base.{
  ℕ, ◌≡◌, refl, sym, ap, subst, ◌∙◌, Bool, true, Option, some, List, [], ◌++◌, append_assoc,
  append-nil, Bytes, arith,
}
use unbound4j.Uthash.{Ptr, Uthash}
use unbound4j.Engine.State.{Query, Context, State, answered, call}
use unbound4j.Engine.Query.{UbResult, LookupInputs, host_name, lookup_callback, reverse_lookup}
use unbound4j.Engine.Tracking.{outstanding, told}
use unbound4j.Engine.Thread.{stop_cleanup}
use unbound4j.Engine.Thread.Round.{stop_cleanup-Drops}
use unbound4j.Engine.Runs.{count, count-tells, May, Step, answers, Reach, here, next, Kept}
use unbound4j.Engine.Lifecycle.{Kept-Reach}
use unbound4j.Engine.Contexts.{Reach-contexts}
use unbound4j.Engine.Frames.{with_calls}
use unbound4j.Engine.During.{Lookups, lookup_callback-linear}
use unbound4j.Engine.Beside.{entered}

module _ (H : Uthash) (u : ℕ) (cp : Ptr) where
  open H use {Table}

  -- Whole steps, and callbacks during which other threads look addresses up, with the userdata of
  -- the accepted lookups.
  pub data Concurrent (s : State Table) : State Table → List ℕ → Type 0 where
    nothing_yet : Concurrent s s []
    whole :
        {s₁ s₂ : State Table} {vs ws xs : List ℕ}
        → Concurrent s s₁ vs
        → Step H u cp s₁ s₂ ws
        → xs ≡ ws ++ vs
        → Concurrent s s₂ xs
    during :
        {s₁ s₂ s₃ : State Table} {vs ws xs : List ℕ}
        → Concurrent s s₁ vs
        → (between : State Table → Option (State Table)) (k : ℕ) (p : Ptr) (q : Query) (err : ℕ)
          (result : Option UbResult) (buffer host : Option Bytes)
        → May u k p (outstanding s₁.calls)
        → s₁.query_at p ≡ some q
        → host_name err result buffer ≡ some host
        → between (entered H u k q err result host s₁) ≡ some s₂
        → Lookups H u cp (entered H u k q err result host s₁) s₂ ws
        → lookup_callback H between p err result buffer true (call (answered u k) s₁) ≡ some s₃
        → xs ≡ ws ++ vs
        → Concurrent s s₃ xs

  -- A run has whole steps only.
  pub Reach-Concurrent :
      (s s' : State Table) (vs : List ℕ) → Reach H u cp s s' vs → Concurrent s s' vs
  Reach-Concurrent s s' vs here = nothing_yet
  Reach-Concurrent s s' vs (next {s₁ = s₁} {vs = us} run step e) =
      whole (Reach-Concurrent s s₁ us run) step e

module _ (H : Uthash) (u : ℕ) (cp : Ptr) (c : Context) (mine : c.ub_ctx ≡ u) where
  open H use {Table, items, find}

  callback-Kept :
      (between : State Table → Option (State Table)) (k : ℕ) (p : Ptr) (q : Query) (err : ℕ)
      (result : Option UbResult) (buffer host : Option Bytes) (s s₁ s₂ : State Table)
      (us ws : List ℕ)
      → Kept H u cp c s us
      → May u k p (outstanding s.calls)
      → s.query_at p ≡ some q
      → host_name err result buffer ≡ some host
      → between (entered H u k q err result host s) ≡ some s₁
      → Lookups H u cp (entered H u k q err result host s) s₁ ws
      → lookup_callback H between p err result buffer true (call (answered u k) s) ≡ some s₂
      → Kept H u cp c s₂ (ws ++ us) × (s₂.contexts ≡ s.contexts)
  callback-Kept between k p q err result buffer host s s₁ s₂ us ws kept may at named others lookups
        e =
      let (b, h, z, run, may', e', ends, same_out, same_told) =
        lookup_callback-linear H u cp c mine between k p q err result buffer host s s₁ us ws kept
          may at named others lookups in
      let run' = next run (answers k p err result buffer may' e') refl in
      let kept' = Kept-Reach H u cp c mine s z ws us run' kept in
      let (l, qs, t, counts) = kept'.queue in
      let same : with_calls h z ≡ s₂ = cc in
      subst (λ (x : State Table). Kept H u cp c x (ws ++ us) × (x.contexts ≡ s.contexts)) same
        (
          record {
            queue = (
              l,
              qs,
              record {
                in_table = t.in_table;
                at_unbound = same_out ∙ t.at_unbound;
                live = t.live;
                distinct = t.distinct;
              },
              λ v. omega (arith, counts v, same_told v),
            );
            context = kept'.context;
          },
          Reach-contexts H u cp c mine s z ws us run' kept,
        )

  -- Take a state in which one queue of live queries is tracked and outstanding, and each userdata
  -- was accepted as often as it was told and waits together (Kept). After any history of lookups,
  -- answers and rounds, in which other threads may look addresses up while the delegate of an
  -- answer is called, the state is again such a one, with the lookups that were accepted on the
  -- way, and the context structure and the table of contexts are unchanged.
  pub Concurrent-Kept :
      (s s' : State Table) (ws us : List ℕ)
      → Concurrent H u cp s s' ws
      → Kept H u cp c s us
      → Kept H u cp c s' (ws ++ us) × (s'.contexts ≡ s.contexts)
  Concurrent-Kept s s' ws us nothing_yet kept = (kept, refl)
  Concurrent-Kept s s' ws us (whole {s₁ = s₁} {vs = vs} {ws = xs} history step e) kept =
      let (kept₁, same) = Concurrent-Kept s s₁ vs us history kept in
      let run = next here step (sym (append-nil xs)) in
      (
        subst (Kept H u cp c s')
            (sym (append_assoc xs vs us) ∙ ap (λ (x : List ℕ). x ++ us) (sym e))
            (Kept-Reach H u cp c mine s₁ s' xs (vs ++ us) run kept₁),
        Reach-contexts H u cp c mine s₁ s' xs (vs ++ us) run kept₁ ∙ same,
      )
  Concurrent-Kept s s' ws us
        (during {s₁ = s₁} {s₂ = s₂} {vs = vs} {ws = xs} history between k p q err result buffer host
          may at named others lookups ends e)
        kept =
      let (kept₁, same) = Concurrent-Kept s s₁ vs us history kept in
      let (kept₂, same₂) =
        callback-Kept between k p q err result buffer host s₁ s₂ s' (vs ++ us) xs kept₁ may at named
          others lookups ends in
      (
        subst (Kept H u cp c s')
            (sym (append_assoc xs vs us) ∙ ap (λ (x : List ℕ). x ++ us) (sym e)) kept₂,
        same₂ ∙ same,
      )

  -- From a state with no query.
  pub Concurrent-keeps :
      (s s' : State Table) (ws : List ℕ)
      → Concurrent H u cp s s' ws
      → Kept H u cp c s []
      → Kept H u cp c s' ws
  Concurrent-keeps s s' ws history kept =
      subst (Kept H u cp c s') (append-nil ws) (Concurrent-Kept s s' ws [] history kept).0

  -- A lookup behind the release of the lock of the contexts goes on as if it began there.
  pub reverse_lookup-linear :
      (between : State Table → Option (State Table)) (inp : LookupInputs) (ctx_id : ℕ)
      (addr : Bytes) (userdata callback : ℕ) (s s₁ : State Table) (ws us : List ℕ)
      → Kept H u cp c s us
      → between s ≡ some s₁
      → Concurrent H u cp s s₁ ws
      → inp.rdlock ≡ true
      → reverse_lookup H between inp ctx_id addr userdata callback s
        ≡ reverse_lookup H some inp ctx_id addr userdata callback s₁
  unfolding reverse_lookup
  reverse_lookup-linear between inp ctx_id addr userdata callback s s₁ ws us kept others history
        locked =
      let same : find ctx_id s₁.contexts ≡ find ctx_id s.contexts =
        ap (find ctx_id) (Concurrent-Kept s s₁ ws us history kept).1 in
      rw (locked, others, same) refl

  -- Start with a context structure of the Unbound context u and no tracked query (Kept with an
  -- empty list), and take any history of lookups, answers and rounds, in which other threads may
  -- look addresses up while the delegate of an answer is called, where malloc returns unused
  -- memory and libunbound unused ids. If the thread then cleans up, with or without the lock, that
  -- is defined, the table is empty, libunbound has nothing outstanding, and each userdata has been
  -- told to a delegate exactly as often as a lookup with it was accepted.
  pub Concurrent-told :
      (wrlock : Bool) (s s' : State Table) (vs : List ℕ)
      → Kept H u cp c s []
      → Concurrent H u cp s s' vs
      → (z : State Table) × (stop_cleanup H u wrlock s' ≡ some z)
        × (items z.queries ≡ [])
        × (outstanding z.calls ≡ [])
        × ((v : ℕ) → count v (told z.calls) ≡ count v vs)
  Concurrent-told wrlock s s' vs begun history =
      let (l, qs, t, counts) = (Concurrent-keeps s s' vs history begun).queue in
      let (z, e, t', calls, _, _) = stop_cleanup-Drops H u wrlock l qs s' t in
      (
        z,
        e,
        t'.in_table,
        t'.at_unbound,
        λ v. omega (arith, counts v, ap (count v) calls, count-tells v qs (told s'.calls)),
      )
