-- ===== src/Engine/Interleaving.antt =====
-- Functions that are defined in a state and do what is a history.
use unbound4j.Base.{
  ℕ, ◌≡◌, ap, sym, ◌∙◌, true, Option, some, List, ◌++◌, append_assoc, append-nil, Bytes,
}
use unbound4j.Uthash.{Ptr, Uthash}
use unbound4j.Engine.State.{State, Context, Query, answered, call}
use unbound4j.Engine.Query.{UbResult, host_name, lookup_callback}
use unbound4j.Engine.Tracking.{outstanding}
use unbound4j.Engine.Frames.{with_calls}
use unbound4j.Engine.Beside.{entered}
use unbound4j.Engine.During.{Lookups, lookup_callback-linear}
use unbound4j.Engine.Concurrent.{Concurrent, nothing_yet, whole, during}
use unbound4j.Engine.Runs.{May, Kept, Reach, here, next}

module _ (H : Uthash) (u : ℕ) (cp : Ptr) where
  open H use {Table, find}

  pub Reach-append :
      (s s₁ s₂ : State Table) (vs ws : List ℕ)
      → Reach H u cp s s₁ vs
      → Reach H u cp s₁ s₂ ws
      → Reach H u cp s s₂ (ws ++ vs)
  Reach-append s s₁ s₂ vs ws run here = run
  Reach-append s s₁ s₂ vs ws run (next {s₁ = x} {vs = us} {ws = xs} run' step e) =
      next (Reach-append s s₁ x vs us run run') step
        (ap (λ (y : List ℕ). y ++ vs) e ∙ append_assoc xs us vs)

  pub Concurrent-append :
      (s s₁ s₂ : State Table) (vs ws : List ℕ)
      → Concurrent H u cp s s₁ vs
      → Concurrent H u cp s₁ s₂ ws
      → Concurrent H u cp s s₂ (ws ++ vs)
  Concurrent-append s s₁ s₂ vs ws history nothing_yet = history
  Concurrent-append s s₁ s₂ vs ws history (whole {s₁ = x} {vs = us} {ws = xs} later step e) =
      whole (Concurrent-append s s₁ x vs us history later) step
        (ap (λ (y : List ℕ). y ++ vs) e ∙ append_assoc xs us vs)
  Concurrent-append s s₁ s₂ vs ws history
        (during {s₁ = x} {vs = us} {ws = xs} later between k p q err result buffer host may at named
          others lookups ends e) =
      during (Concurrent-append s s₁ x vs us history later) between k p q err result buffer host may
        at named others lookups ends (ap (λ (y : List ℕ). y ++ vs) e ∙ append_assoc xs us vs)

  -- In the state `s` the function is defined, and what it does is a history.
  abbrev pub Acts : (State Table → Option (State Table)) → State Table → Type 0
  Acts f s = (z : State Table) × (ws : List ℕ) × (f s ≡ some z) × Concurrent H u cp s z ws

module _ (H : Uthash) (u : ℕ) (cp : Ptr) (c : Context) (mine : c.ub_ctx ≡ u) where
  open H use {Table}

  -- An answer during which other threads look addresses up.
  pub lookup_callback-Acts :
      (between : State Table → Option (State Table)) (k : ℕ) (p : Ptr) (q : Query) (err : ℕ)
      (result : Option UbResult) (buffer host : Option Bytes) (s s₁ : State Table) (us ws : List ℕ)
      → Kept H u cp c s us
      → May u k p (outstanding s.calls)
      → s.query_at p ≡ some q
      → host_name err result buffer ≡ some host
      → between (entered H u k q err result host s) ≡ some s₁
      → Lookups H u cp (entered H u k q err result host s) s₁ ws
      → Acts H u cp
          (λ t. lookup_callback H between p err result buffer true (call (answered u k) t))
          s
  lookup_callback-Acts between k p q err result buffer host s s₁ us ws kept may at named others
        lookups =
      let (b, h, z, _, _, _, ends, _, _) =
        lookup_callback-linear H u cp c mine between k p q err result buffer host s s₁ us ws kept
          may at named others lookups in
      (
        with_calls h z,
        ws,
        ends,
        during nothing_yet between k p q err result buffer host may at named others lookups ends
            (sym (append-nil ws)),
      )
