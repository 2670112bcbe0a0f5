-- ===== src/Engine/Contexts.antt =====
-- A run leaves the table of contexts alone.
use unbound4j.Base.{ℕ, ◌≡◌, refl, ap, subst, ◌∙◌, inl, inr, Option, some, List, ◌++◌, Bytes}
use unbound4j.Uthash.{Ptr, Uthash}
use unbound4j.Engine.State.{Context, State}
use unbound4j.Engine.Query.{UbResult, LookupInputs, LookupError, track}
use unbound4j.Engine.Tracking.{outstanding}
use unbound4j.Engine.Submit.{Unused, track-Accepts}
use unbound4j.Engine.Answer.{answer, answer-Tracks, answer-named}
use unbound4j.Engine.Thread.{RoundInputs, IsQuiet, process_round}
use unbound4j.Engine.Thread.Round.{process_round-Drops}
use unbound4j.Engine.Runs.{May, May-Maps, Step, lookup, answers, turn, Reach, here, next, Kept}
use unbound4j.Engine.Lifecycle.{lookup-cases, Kept-Reach}

module _ (H : Uthash) (u : ℕ) (cp : Ptr) (c : Context) (mine : c.ub_ctx ≡ u) where
  open H use {Table, items, find, items-del}

  track-contexts :
      (inp : LookupInputs) (name : Bytes) (userdata callback : ℕ) (r : Option LookupError)
      (s s' : State Table) (vs : List ℕ)
      → Kept H u cp c s vs
      → Unused H u inp (items s.queries) s
      → track H inp name userdata callback cp s ≡ some (r, s')
      → s'.contexts ≡ s.contexts
  track-contexts inp name userdata callback r s s' vs kept new e =
      let (l, qs, t, counts) = kept.queue in
      let new' : Unused H u inp l s = subst (λ x. Unused H u inp x s) t.in_table new in
      let (r₁, s₁, e₁, _, same, _, _) =
        track-Accepts H u inp name userdata callback cp c l qs s t kept.context mine new' in
      cc

  answer-contexts :
      (k : ℕ) (p : Ptr) (err : ℕ) (result : Option UbResult) (buffer : Option Bytes)
      (s s' : State Table) (vs : List ℕ)
      → Kept H u cp c s vs
      → May u k p (outstanding s.calls)
      → answer H u k p err result buffer s ≡ some s'
      → s'.contexts ≡ s.contexts
  answer-contexts k p err result buffer s s' vs kept may e =
      let (l, qs, t, counts) = kept.queue in
      let (host, named) = answer-named H u k p err result buffer s s' e in
      let (_, _, s₁, e₁, _, _, _, _, same) =
        answer-Tracks H u k p err result buffer host l qs s t
          (May-Maps u k p l (subst (May u k p) t.at_unbound may)) named in
      cc

  round-contexts :
      (inp : RoundInputs Table) (s s' : State Table) (vs : List ℕ)
      → IsQuiet inp
      → Kept H u cp c s vs
      → process_round H u inp s ≡ some s'
      → s'.contexts ≡ s.contexts
  round-contexts inp s s' vs idle kept e =
      let (l, qs, t, counts) = kept.queue in
      let (s₁, _, _, _, e₁, _, _, _, same, _) = process_round-Drops H u inp l qs s idle t in cc

  Step-contexts :
      (s s' : State Table) (vs ws : List ℕ)
      → Step H u cp s s' ws
      → Kept H u cp c s vs
      → s'.contexts ≡ s.contexts
  Step-contexts s s' vs ws (lookup inp ctx_id addr userdata callback r found new e) kept =
      elim (lookup-cases H u cp c mine inp ctx_id addr userdata callback r s s' found e) [
        | inl (failed, same) ↦ ap (λ (x : State Table). x.contexts) same
        | inr (name, e') ↦ track-contexts inp name userdata callback r s s' vs kept new e'
      ]
  Step-contexts s s' vs ws (answers k p err result buffer may e) kept =
      answer-contexts k p err result buffer s s' vs kept may e
  Step-contexts s s' vs ws (turn select_ok process_ok rdlock wrlock now e) kept =
      round-contexts _ s s' vs ((λ x. refl), (λ x. refl)) kept e

  -- No run changes the table of contexts.
  pub Reach-contexts :
      (s s' : State Table) (ws us : List ℕ)
      → Reach H u cp s s' ws
      → Kept H u cp c s us
      → s'.contexts ≡ s.contexts
  Reach-contexts s s' ws us here kept = refl
  Reach-contexts s s' ws us (next {s₁ = s₁} {vs = vs} {ws = xs} r step e) kept =
      Step-contexts s₁ s' (vs ++ us) xs step (Kept-Reach H u cp c mine s s₁ vs us r kept)
      ∙ Reach-contexts s s₁ vs us r kept
