-- ===== src/Engine/Overlap.antt =====
-- A lookup that other threads overlap.
use unbound4j.Base.{
  ℕ, ◌≤◌, ◌≡◌, refl, ap, subst, ◌∙◌, Bool, true, Option, none, some, List, [], ◌∷◌, ◌++◌, Bytes,
  AreBytes, length, if◌then◌else◌,
}
use unbound4j.Uthash.{Ptr, Items, Uthash}
use unbound4j.Engine.State.{Query, Context, State}
use unbound4j.Engine.Query.{LookupInputs, LookupError, reverse_lookup, reverse_lookup_domain, track}
use unbound4j.Engine.Tracking.{Tracks}
use unbound4j.Engine.Submit.{Unused, Accepts, track-Accepts}
use unbound4j.Engine.Runs.{accepted, lookup, Kept}
use unbound4j.Engine.Concurrent.{Concurrent, whole, Concurrent-Kept, reverse_lookup-linear}
use unbound4j.Dnsutils.Addresses.{build_reverse_lookup_domain_v4-Builds}
use unbound4j.Dnsutils.Decode.{parse_v4}

module _ (H : Uthash) (u : ℕ) (cp : Ptr) (c : Context) (mine : c.ub_ctx ≡ u) where
  open H use {Table, items, find}

  -- With the name, the lookup goes on to the tracking part.
  lookup-track :
      (inp : LookupInputs) (ctx_id w x y z userdata callback : ℕ) (name : Bytes) (s : State Table)
      → inp.rdlock ≡ true
      → find ctx_id s.contexts ≡ some cp
      → reverse_lookup_domain (w ∷ x ∷ y ∷ z ∷ []) inp.stack inp.domain_memory
        ≡ some (some (some name))
      → reverse_lookup H some inp ctx_id (w ∷ x ∷ y ∷ z ∷ []) userdata callback s
        ≡ track H inp name userdata callback cp s
  unfolding reverse_lookup
  lookup-track inp ctx_id w x y z userdata callback name s locked found named =
      simp (locked, found, named)

  named-v4 :
      (inp : LookupInputs) (w x y z : ℕ)
      → AreBytes (w ∷ x ∷ y ∷ z ∷ [])
      → 32 ≤ length inp.stack
      → inp.domain_memory ≡ true
      → (name : Bytes) × (reverse_lookup_domain (w ∷ x ∷ y ∷ z ∷ []) inp.stack inp.domain_memory
          ≡ some (some (some name)))
        × (parse_v4 name ≡ w ∷ x ∷ y ∷ z ∷ [])
  unfolding reverse_lookup_domain
  named-v4 inp w x y z bytes room memory =
      let (name, built, _, reads) =
        build_reverse_lookup_domain_v4-Builds w x y z inp.stack inp.domain_memory bytes room in
      let named = built ∙ ap (λ (b : Bool). some (if b then some name else none)) memory in
      (name, rw named refl, reads)

  -- Take a state in which one queue of live queries is tracked and outstanding (Kept). Let a
  -- lookup of four bytes, which gets the read lock, a stack buffer of at least 32 bytes and memory
  -- for the name, find its context, and let other threads do any history of lookups, answers and
  -- rounds of this context while it is behind the release of the lock of the contexts; behind
  -- them, let malloc give unused memory and libunbound a new id. Then the lookup is defined and
  -- returns what tracking a name, which parse_v4 reads back as the address, returns on the state
  -- that they left: either 0, and the query joins the end of the queue there with its userdata and
  -- the expiry from the clock and the timeout, or an error, and that queue is tracked as before.
  -- It tells no delegate, and with what the others did it is again such a history, with the lookup
  -- among the accepted ones if it returned 0.
  pub reverse_lookup-Accepts :
      (between : State Table → Option (State Table)) (inp : LookupInputs)
      (ctx_id w x y z userdata callback : ℕ) (s s₁ : State Table) (us ws : List ℕ)
      → Kept H u cp c s us
      → between s ≡ some s₁
      → Concurrent H u cp s s₁ ws
      → AreBytes (w ∷ x ∷ y ∷ z ∷ [])
      → 32 ≤ length inp.stack
      → inp.rdlock ≡ true
      → inp.domain_memory ≡ true
      → find ctx_id s.contexts ≡ some cp
      → Unused H u inp (items s₁.queries) s₁
      → (name : Bytes) × (l : Items) × (qs : List Query) × (r : Option LookupError) × (t : State
          Table)
        × (parse_v4 name ≡ w ∷ x ∷ y ∷ z ∷ [])
        × Tracks H u s₁ l qs
        × (track H inp name userdata callback cp s₁ ≡ some (r, t))
        × (reverse_lookup H between inp ctx_id (w ∷ x ∷ y ∷ z ∷ []) userdata callback s
            ≡ some (r, t))
        × Accepts H u inp userdata callback c l qs s₁ (some (r, t))
        × Concurrent H u cp s t (accepted r userdata ++ ws)
  reverse_lookup-Accepts between inp ctx_id w x y z userdata callback s s₁ us ws kept others history
        bytes room locked memory found new =
      let (kept₁, same) = Concurrent-Kept H u cp c mine s s₁ ws us history kept in
      let (l, qs, tr, _) = kept₁.queue in
      let (name, named, reads) = named-v4 inp w x y z bytes room memory in
      let found₁ = ap (find ctx_id) same ∙ found in
      let goes_on = lookup-track inp ctx_id w x y z userdata callback name s₁ locked found₁ named in
      let (r, t, e, contexts, table, silent, outcome) =
        track-Accepts H u inp name userdata callback cp c l qs s₁ tr kept₁.context mine
          (subst (λ i. Unused H u inp i s₁) tr.in_table new) in
      (
        name,
        l,
        qs,
        r,
        t,
        reads,
        tr,
        e,
        reverse_lookup-linear H u cp c mine between inp ctx_id (w ∷ x ∷ y ∷ z ∷ []) userdata
              callback s s₁ ws us kept others history locked
            ∙ goes_on
            ∙ e,
        (r, t, refl, contexts, table, silent, outcome),
        whole history
            (lookup inp ctx_id (w ∷ x ∷ y ∷ z ∷ []) userdata callback r found₁ new (goes_on ∙ e))
            refl,
      )
