-- ===== src/Engine/Frames.antt =====
-- A lookup does not read the history of calls.
use unbound4j.Base.{
  ℕ, ◌≡◌, refl, sym, ap, ◌∙◌, inl, inr, Option, none, some, List, [], ◌∷◌, ◌++◌, Bytes, length,
  ◌==◌, ==_self, Bool-cases, Option-cases,
}
use unbound4j.Uthash.{Ptr, Uthash}
use unbound4j.Engine.State.{
  Query, Context, State, Call, resolved, put, put_other, set_query, add_query,
}
use unbound4j.Engine.Query.{
  LookupInputs, LookupError, read_lock, invalid_address, alloc_domain, alloc_query, write_lock,
  resolve, new_query, submit, track, reverse_lookup, reverse_lookup_domain,
}
use unbound4j.Engine.Submit.{submitted}

-- The same state with another history.
abbrev pub with_calls : {T : Type 0} → List Call → State T → State T
with_calls h s = record s { calls = h }

-- At most one query was submitted to the Unbound context.
pub data Submits (u : ℕ) : List Call → Type 0 where
  nothing : Submits u []
  one_query : (id : ℕ) (p : Ptr) (name : Bytes) → Submits u (resolved u id p name ∷ [])

module _ (H : Uthash) (u : ℕ) (cp : Ptr) (c : Context) (mine : c.ub_ctx ≡ u) where
  open H use {Table, items, find}

  -- The queries that are there stay as they are.
  abbrev pub Preserves : State Table → State Table → Type 0
  Preserves s s' = (x : Ptr) (q : Query) → s.query_at x ≡ some q → s'.query_at x ≡ some q

  -- What `f` does with any history: it adds `new` to it.
  abbrev pub Frames :
      (State Table → Option (Option LookupError × State Table)) → State Table → Type 0
  Frames f s =
      (r : Option LookupError) × (new : List Call) × (s' : State Table) × Submits u new
      × ((h : List Call) → f (with_calls h s) ≡ some (r, with_calls (new ++ h) s'))
      × Preserves s s'
      × (s'.context_at ≡ s.context_at)

  track-Frames :
      (inp : LookupInputs) (name : Bytes) (userdata callback : ℕ) (s : State Table)
      → s.context_at cp ≡ some c
      → ((p : Ptr) → inp.query_memory ≡ some p → s.query_at p ≡ none)
      → Frames (track H inp name userdata callback cp) s
  unfolding track submit
  track-Frames inp name userdata callback s at new_memory = elim (Option-cases inp.query_memory) [
    | inl null ↦ (some alloc_query, [], s, nothing, (λ h. rw null), (λ x q e. e), refl)
    | inr (p, e) ↦
        let free = new_memory p e in
        let blank = new_query H userdata callback in
        let s₁ = set_query p blank s in
        let other : (x : Ptr) (q : Query) → s.query_at x ≡ some q → ¬ (p ≡ x) =
          λ x q a same. let clash : none ≡ some q = sym free ∙ ap s.query_at same ∙ a in cc in
        let kept₁ : Preserves s s₁ =
          λ x q a. put_other s.query_at p x (some blank) (other x q a) ∙ a in
        elim (Bool-cases inp.wrlock) [
          | inr busy ↦ (some write_lock, [], s₁, nothing, (λ h. rw (e, busy)), kept₁, refl)
          | inl locked ↦
              let q₂ = submitted H u inp userdata callback c in
              let q₁ = record q₂ { id = 0 } in
              elim (Bool-cases (inp.nret == 0)) [
                | inl taken ↦ (
                  none,
                  resolved u inp.async_id p name ∷ [],
                  add_query H inp.async_id p (set_query p q₂ s₁),
                  one_query inp.async_id p name,
                  (λ h. rw (e, locked, at, taken, mine)),
                  (λ x q a. put_other s₁.query_at p x (some q₂) (other x q a) ∙ kept₁ x q a),
                  refl,
                )
                | inr refused ↦
                    let s₂ = set_query p q₁ s₁ in
                    (
                      some (resolve inp.nret),
                      [],
                      record s₂ { query_at = put s₂.query_at p none },
                      nothing,
                      (λ h. rw (e, locked, at, refused, ==_self p)),
                      (λ x q a.
                          put_other s₂.query_at p x none (other x q a)
                          ∙ put_other s₁.query_at p x (some q₁) (other x q a)
                          ∙ kept₁ x q a),
                      refl,
                    )
              ]
        ]
  ]

  -- What a lookup does that returns with one history.
  pub lookup-Frames :
      (inp : LookupInputs) (ctx_id : ℕ) (addr : Bytes) (userdata callback : ℕ)
      (result : Option LookupError × State Table) (h₀ : List Call) (s : State Table)
      → s.context_at cp ≡ some c
      → find ctx_id s.contexts ≡ some cp
      → ((p : Ptr) → inp.query_memory ≡ some p → s.query_at p ≡ none)
      → reverse_lookup H some inp ctx_id addr userdata callback (with_calls h₀ s) ≡ some result
      → Frames (reverse_lookup H some inp ctx_id addr userdata callback) s
  unfolding reverse_lookup
  lookup-Frames inp ctx_id addr userdata callback result h₀ s at found new_memory e =
      elim (Bool-cases inp.rdlock) [
        | inr busy ↦ (some read_lock, [], s, nothing, (λ h. rw busy), (λ x q a. a), refl)
        | inl locked ↦
            elim (Option-cases (reverse_lookup_domain addr inp.stack inp.domain_memory)) [
              | inl fault ↦
                  let end : reverse_lookup H some inp ctx_id addr userdata callback
                        (with_calls h₀ s)
                      ≡ none =
                    rw (locked, found, fault) in
                  cc
              | inr (none, odd) ↦ (
                some (invalid_address (length addr)),
                [],
                s,
                nothing,
                (λ h. rw (locked, found, odd)),
                (λ x q a. a),
                refl,
              )
              | inr (some none, full) ↦ (
                some alloc_domain,
                [],
                s,
                nothing,
                (λ h. rw (locked, found, full)),
                (λ x q a. a),
                refl,
              )
              | inr (some (some name), named) ↦
                  let (r, new, s', submits, runs, keeps, same) =
                    track-Frames inp name userdata callback s at new_memory in
                  let goes_on : (h : List Call)
                      → reverse_lookup H some inp ctx_id addr userdata callback (with_calls h s)
                        ≡ track H inp name userdata callback cp (with_calls h s) =
                    λ h. simp (locked, found, named) in
                  (r, new, s', submits, (λ h. goes_on h ∙ runs h), keeps, same)
            ]
      ]
