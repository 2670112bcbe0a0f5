-- ===== src/Engine/Submit.antt =====
-- The submission of a query: what the tracking part of a lookup does to the queue of one Unbound
-- context.
use unbound4j.Base.{
  ℕ, ◌+◌, ◌≡◌, ◌≢◌, ◌⊎◌, refl, ap, ◌∙◌, inl, inr, false, Option, none, some, List, [], ◌∷◌, ◌++◌,
  Bytes, ◌==◌, ==_self, Bool-cases, Option-cases,
}
use unbound4j.Uthash.{Ptr, Items, Uthash, Maps}
use unbound4j.Engine.State.{Query, Context, State, resolved, put, call, set_query, add_query}
use unbound4j.Engine.Query.{
  LookupInputs, new_query, submit, track, LookupError, alloc_query, write_lock, resolve,
}
use unbound4j.Engine.Tracking.{
  told, Asyncs, outstanding, tagged-append, Fresh, Distinct-append, Live-put, Live-append,
  Fresh-none, Tracks,
}

module _ (H : Uthash) (u : ℕ) where
  open H use {Table, items, add, del, items-add, items-del}

  -- What the engine stores for a submitted query.
  abbrev pub submitted : LookupInputs → ℕ → ℕ → Context → Query
  submitted inp userdata callback c = record {
    id = inp.async_id;
    userdata = userdata;
    callback = callback;
    expires_at_epoch_sec = inp.now + c.request_timeout_secs;
    expired = false;
  }

  -- `malloc` gives an address that holds no query, and libunbound an id that no tracked query has.
  pub record Unused (inp : LookupInputs) (l : Items) (s : State Table) : Type 0 where
    pub new_memory : (p : Ptr) → inp.query_memory ≡ some p → s.query_at p ≡ none
    pub new_id : (j : ℕ) (x : Ptr) → Maps j x l → ¬ (j ≡ inp.async_id)

  -- Either the query is accepted and joins the end of the queue, or the caller gets an error and the
  -- queue is as before.
  abbrev pub Accepts :
      LookupInputs
      → ℕ
      → ℕ
      → Context
      → Items
      → List Query
      → State Table
      → Option (Option LookupError × State Table)
      → Type 0
  Accepts inp userdata callback c l qs s result =
      (r : Option LookupError) × (s' : State Table) × (result ≡ some (r, s'))
      × (s'.context_at ≡ s.context_at)
      × (s'.contexts ≡ s.contexts)
      × (told s'.calls ≡ told s.calls)
      × (((r ≡ none)
            × ((l' : Items) × Tracks H u s' l' (qs ++ submitted inp userdata callback c ∷ [])))
          ⊎ ((r ≢ none) × Tracks H u s' l qs))

  -- A store to memory that holds no query leaves the queue alone.
  put-Tracks :
      (k : ℕ) (p : Ptr) (v : Option Query) (l : Items) (qs : List Query) (s : State Table)
      → Tracks H u s l qs
      → Fresh k p l
      → Tracks H u (record s { query_at = put s.query_at p v }) l qs
  put-Tracks k p v l qs s t f = record {
    in_table = t.in_table;
    at_unbound = t.at_unbound;
    live = Live-put s.query_at k p v l qs f t.live;
    distinct = t.distinct;
  }

  accepted_state : LookupInputs → Bytes → Ptr → Query → State Table → State Table
  accepted_state inp domain p q s =
      add_query H q.id p (call (resolved u q.id p domain) (set_query p q s))

  accepted-Tracks :
      (inp : LookupInputs) (domain : Bytes) (p : Ptr) (q : Query) (l : Items) (qs : List Query)
      (s : State Table)
      → Tracks H u s l qs
      → Fresh q.id p l
      → q.expired ≡ false
      → Tracks H u (accepted_state inp domain p q s) (l ++ (q.id, p) ∷ []) (qs ++ q ∷ [])
  unfolding accepted_state outstanding
  accepted-Tracks inp domain p q l qs s t f live = record {
    in_table = items-add q.id p s.queries ∙ ap (λ (x : Items). x ++ (q.id, p) ∷ []) t.in_table;
    at_unbound =
        ap (λ (x : Asyncs). x ++ (u, q.id, p) ∷ []) t.at_unbound ∙ tagged-append u q.id p l;
    live =
        Live-append (put s.query_at p (some q)) q.id p q l qs
          (Live-put s.query_at q.id p (some q) l qs f t.live) (rw (==_self p)) refl live;
    distinct = Distinct-append q.id p l t.distinct f;
  }

  -- If a queue is tracked for the Unbound context of the structure at cp, memory from malloc is
  -- unused and the id from libunbound is new, then the tracking part of a lookup returns on every
  -- branch, tells no delegate and changes no context; it returns 0 and the query joins the end of
  -- the queue, with its expiry, or it returns an error and the queue is tracked as before.
  pub track-Accepts :
      (inp : LookupInputs) (domain : Bytes) (userdata callback : ℕ) (cp : Ptr) (c : Context)
      (l : Items) (qs : List Query) (s : State Table)
      → Tracks H u s l qs
      → s.context_at cp ≡ some c
      → c.ub_ctx ≡ u
      → Unused inp l s
      → Accepts inp userdata callback c l qs s (track H inp domain userdata callback cp s)
  unfolding track submit accepted_state told
  track-Accepts inp domain userdata callback cp c l qs s t at mine new =
      elim (Option-cases inp.query_memory) [
        | inl null ↦ (some alloc_query, s, rw (null, track), refl, refl, refl, inr ((λ e. cc), t))
        | inr (p, e) ↦
            let fresh =
              Fresh-none s.query_at inp.async_id p l qs t.live (new.new_memory p e) new.new_id in
            let blank = new_query H userdata callback in
            let t₁ = put-Tracks inp.async_id p (some blank) l qs s t fresh in
            elim (Bool-cases inp.wrlock) [
              | inr busy ↦ (
                some write_lock,
                set_query p blank s,
                rw (e, track, busy),
                refl,
                refl,
                refl,
                inr ((λ e. cc), t₁),
              )
              | inl locked ↦ elim (Bool-cases (inp.nret == 0)) [
                | inl taken ↦ (
                  none,
                  accepted_state inp domain p (submitted inp userdata callback c)
                      (set_query p blank s),
                  rw (e, track, locked, at, taken, mine),
                  refl,
                  refl,
                  refl,
                  inl (
                    refl,
                    (
                      _,
                      accepted-Tracks inp domain p (submitted inp userdata callback c) l qs
                          (set_query p blank s) t₁ fresh refl,
                    ),
                  ),
                )
                | inr refused ↦
                    let timed = record blank {
                      expires_at_epoch_sec = inp.now + c.request_timeout_secs;
                    } in
                    let s₂ = set_query p timed (set_query p blank s) in
                    let t₂ =
                      put-Tracks inp.async_id p (some timed) l qs (set_query p blank s) t₁ fresh in
                    (
                      some (resolve inp.nret),
                      record s₂ { query_at = put s₂.query_at p none },
                      rw (e, track, locked, at, refused, ==_self p),
                      refl,
                      refl,
                      refl,
                      inr ((λ e. cc), put-Tracks inp.async_id p none l qs s₂ t₂ fresh),
                    )
              ]
            ]
      ]
