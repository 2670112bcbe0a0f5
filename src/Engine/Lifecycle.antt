-- ===== src/Engine/Lifecycle.antt =====
-- What the steps of a run keep.
use unbound4j.Base.{
  ℕ, ◌+◌, ◌≡◌, ◌≢◌, ◌⊎◌, refl, sym, ap, subst, ◌∙◌, inl, inr, false, Option, none, some, List, [],
  ◌∷◌, ◌++◌, append_assoc, append-nil, Bytes, length, ◌==◌, if◌then◌else◌, arith, Bool-cases,
  Option-cases,
}
use mathlib.Core.Path.{subst₂}
use unbound4j.Uthash.{Ptr, Uthash}
use unbound4j.Engine.State.{Query, Context, State, Call, answered, delegate, call}
use unbound4j.Engine.Query.{
  UbResult, LookupInputs, LookupError, read_lock, invalid_address, alloc_domain, error_text,
  free_result, reverse_lookup, reverse_lookup_domain, track,
}
use unbound4j.Engine.Tracking.{outstanding, told, waiting}
use unbound4j.Engine.Thread.{RoundInputs, IsQuiet, process_round}
use unbound4j.Engine.Thread.Round.{process_round-Drops}
use unbound4j.Engine.Answer.{answer, answer-Tracks, answer-named}
use unbound4j.Engine.Submit.{Unused, submitted, track-Accepts}
use unbound4j.Engine.Runs.{
  count, May, accepted, count-tells, count-waiting_append, May-Maps, Step, lookup, answers, turn,
  Reach, here, next, Kept,
}

accepted-nil : (r : Option LookupError) (v : ℕ) → r ≢ none → accepted r v ≡ []
accepted-nil none v h = absurd (h refl)
accepted-nil (some e) v h = refl

-- An answer tells one userdata.
pub told_once :
    {T : Type 0} (v : ℕ) (q : Query) (err : ℕ) (host : Option Bytes) (result : Option UbResult)
    (u k : ℕ) (s : State T)
    → count v (
        told (
          delegate q.callback q.userdata (error_text err false) host
          ∷ (free_result result (call (answered u k) s)).calls))
      ≡ (if q.userdata == v then 1 else 0) + count v (told s.calls)
unfolding told
told_once v q err host none u k s = refl
told_once v q err host (some r) u k s = refl

module _ (H : Uthash) (u : ℕ) (cp : Ptr) (c : Context) (mine : c.ub_ctx ≡ u) where
  open H use {Table, items, find}

  -- A lookup either fails before it reaches the table, or tracks a name.
  pub lookup-cases :
      (inp : LookupInputs) (ctx_id : ℕ) (addr : Bytes) (userdata callback : ℕ)
      (r : Option LookupError) (s s' : State Table)
      → find ctx_id s.contexts ≡ some cp
      → reverse_lookup H some inp ctx_id addr userdata callback s ≡ some (r, s')
      → ((r ≢ none) × (s' ≡ s))
        ⊎ ((name : Bytes) × (track H inp name userdata callback cp s ≡ some (r, s')))
  unfolding reverse_lookup
  lookup-cases inp ctx_id addr userdata callback r s s' found e = elim (Bool-cases inp.rdlock) [
    | inr busy ↦
        let end : reverse_lookup H some inp ctx_id addr userdata callback s
            ≡ some (some read_lock, s) =
          rw busy in
        inl ((λ h. cc), cc)
    | inl locked ↦ elim (Option-cases (reverse_lookup_domain addr inp.stack inp.domain_memory)) [
      | inl fault ↦
          let end : reverse_lookup H some inp ctx_id addr userdata callback s ≡ none =
            rw (locked, found, fault) in
          cc
      | inr (none, odd) ↦
          let end : reverse_lookup H some inp ctx_id addr userdata callback s
              ≡ some (some (invalid_address (length addr)), s) =
            rw (locked, found, odd) in
          inl ((λ h. cc), cc)
      | inr (some none, full) ↦
          let end : reverse_lookup H some inp ctx_id addr userdata callback s
              ≡ some (some alloc_domain, s) =
            rw (locked, found, full) in
          inl ((λ h. cc), cc)
      | inr (some (some name), named) ↦
          let goes_on : reverse_lookup H some inp ctx_id addr userdata callback s
              ≡ track H inp name userdata callback cp s =
            simp (locked, found, named) in
          inr (name, sym goes_on ∙ e)
    ]
  ]

  track-Kept :
      (inp : LookupInputs) (name : Bytes) (userdata callback : ℕ) (r : Option LookupError)
      (s s' : State Table) (vs : List ℕ)
      → Kept H u cp c s vs
      → Unused H u inp (items s.queries) s
      → track H inp name userdata callback cp s ≡ some (r, s')
      → Kept H u cp c s' (accepted r userdata ++ vs)
  track-Kept inp name userdata callback r s s' vs kept new e =
      let (l, qs, t, counts) = kept.queue in
      let new' : Unused H u inp l s = subst (λ x. Unused H u inp x s) t.in_table new in
      let (r₁, s₁, e₁, m₁, _, told₁, outcome) =
        track-Accepts H u inp name userdata callback cp c l qs s t kept.context mine new' in
      let same : s₁ ≡ s' = cc in
      let same_result : r₁ ≡ r = cc in
      let here_still : s₁.context_at cp ≡ some c =
        ap (λ (f : Ptr → Option Context). f cp) m₁ ∙ kept.context in
      let q = submitted H u inp userdata callback c in
      subst₂ (λ x y. Kept H u cp c x (accepted y userdata ++ vs)) same same_result
        (elim outcome [
          | inl (success, (l', t')) ↦ rw success (record {
            queue = (
              l',
              qs ++ q ∷ [],
              t',
              λ v. omega (arith, counts v, ap (count v) told₁, count-waiting_append v qs (q ∷ [])),
            );
            context = here_still;
          })
          | inr (failure, t') ↦ rw (accepted-nil r₁ userdata failure) (record {
            queue = (l, qs, t', λ v. omega (arith, counts v, ap (count v) told₁));
            context = here_still;
          })
        ])

  answer-Kept :
      (k : ℕ) (p : Ptr) (err : ℕ) (result : Option UbResult) (buffer : Option Bytes)
      (s s' : State Table) (vs : List ℕ)
      → Kept H u cp c s vs
      → May u k p (outstanding s.calls)
      → answer H u k p err result buffer s ≡ some s'
      → Kept H u cp c s' vs
  answer-Kept k p err result buffer s s' vs kept may e =
      let (l, qs, t, counts) = kept.queue in
      let (host, named) = answer-named H u k p err result buffer s s' e in
      let (q, qs', s₁, e₁, (xs, ys, split, split'), t₁, calls, m₁, _) =
        answer-Tracks H u k p err result buffer host l qs s t
          (May-Maps u k p l (subst (May u k p) t.at_unbound may)) named in
      let same : s₁ ≡ s' = cc in
      subst (λ x. Kept H u cp c x vs) same
        (record {
          queue = (
            _,
            qs',
            t₁,
            λ v. omega (
              arith,
              counts v,
              ap (λ (h : List Call). count v (told h)) calls,
              told_once v q err host result u k s,
              ap (λ (x : List Query). count v (waiting x)) split,
              ap (λ (x : List Query). count v (waiting x)) split',
              count-waiting_append v xs (q ∷ ys),
              count-waiting_append v xs ys,
            ),
          );
          context = ap (λ (f : Ptr → Option Context). f cp) m₁ ∙ kept.context;
        })

  round-Kept :
      (inp : RoundInputs Table) (s s' : State Table) (vs : List ℕ)
      → IsQuiet inp
      → Kept H u cp c s vs
      → process_round H u inp s ≡ some s'
      → Kept H u cp c s' vs
  round-Kept inp s s' vs idle kept e =
      let (l, qs, t, counts) = kept.queue in
      let (s₁, l₁, gone, rest, e₁, split, t₁, told₁, _, m₁) =
        process_round-Drops H u inp l qs s idle t in
      let same : s₁ ≡ s' = cc in
      subst (λ x. Kept H u cp c x vs) same
        (record {
          queue = (
            l₁,
            rest,
            t₁,
            λ v. omega (
              arith,
              counts v,
              ap (count v) told₁,
              count-tells v gone (told s.calls),
              ap (λ (x : List Query). count v (waiting x)) split,
              count-waiting_append v gone rest,
            ),
          );
          context = ap (λ (f : Ptr → Option Context). f cp) m₁ ∙ kept.context;
        })

  Step-Kept :
      (s s' : State Table) (vs ws : List ℕ)
      → Step H u cp s s' ws
      → Kept H u cp c s vs
      → Kept H u cp c s' (ws ++ vs)
  Step-Kept s s' vs ws (lookup inp ctx_id addr userdata callback r found new e) kept =
      elim (lookup-cases inp ctx_id addr userdata callback r s s' found e) [
        | inl (failed, same) ↦
            subst₂ (λ x y. Kept H u cp c x (y ++ vs)) (sym same)
              (sym (accepted-nil r userdata failed)) kept
        | inr (name, e') ↦ track-Kept inp name userdata callback r s s' vs kept new e'
      ]
  Step-Kept s s' vs ws (answers k p err result buffer may e) kept =
      answer-Kept k p err result buffer s s' vs kept may e
  Step-Kept s s' vs ws (turn select_ok process_ok rdlock wrlock now e) kept =
      round-Kept _ s s' vs ((λ x. refl), (λ x. refl)) kept e

  -- From a state with a queue.
  pub Kept-Reach :
      (s s' : State Table) (ws us : List ℕ)
      → Reach H u cp s s' ws
      → Kept H u cp c s us
      → Kept H u cp c s' (ws ++ us)
  Kept-Reach s s' ws us here kept = kept
  Kept-Reach s s' ws us (next {s₁ = s₁} {vs = vs} {ws = xs} r step e) kept =
      subst (Kept H u cp c s') (sym (append_assoc xs vs us) ∙ ap (λ (x : List ℕ). x ++ us) (sym e))
        (Step-Kept s₁ s' (vs ++ us) xs step (Kept-Reach s s₁ vs us r kept))

  -- From a state with no query.
  pub Reach-Kept :
      (s s' : State Table) (ws : List ℕ)
      → Reach H u cp s s' ws
      → Kept H u cp c s []
      → Kept H u cp c s' ws
  Reach-Kept s s' ws run kept =
      subst (Kept H u cp c s') (append-nil ws) (Kept-Reach s s' ws [] run kept)
