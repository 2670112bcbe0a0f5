-- ===== src/Engine/Context/Unregistering.antt =====
-- What `ub4j_delete_context` does to the registry of contexts, where no query waits.
use unbound4j.Base.{
  ℕ, ◌≡◌, refl, sym, ap, subst, ◌∙◌, inl, inr, Bool, true, false, Option, none, some, List, [], ◌∷◌,
  ◌==◌, if◌then◌else◌, arith, ==_self, Bool-cases, Option-cases,
}
use unbound4j.Uthash.{Ptr, Items, Uthash, remove, has_item, lookup_item}
use unbound4j.Engine.State.{Context, State, put, put_self, put_other}
use unbound4j.Engine.Tracking.{Fresh, Distinct}
use unbound4j.Engine.Thread.{RoundInputs}
use unbound4j.Engine.Context.{join_thread, delete_context}
use unbound4j.Engine.Context.Outcome.{is_deleted}
use unbound4j.Engine.Context.Registry.{Stand, Stand-put, Registered, find-Registered}
use unbound4j.Engine.Context.Destruction.{join, gone, ending, ended_calls-deleted}

-- The items and the contexts without those of an id.
abbrev pub without_key : ℕ → Items → Items
without_key k [] = []
without_key k ((j, p) ∷ l) = if j == k then l else (j, p) ∷ without_key k l

abbrev pub without_id : ℕ → List Context → List Context
without_id k [] = []
without_id k (c ∷ cs) = if c.id == k then cs else c ∷ without_id k cs

Fresh-without_key : (k j : ℕ) (p : Ptr) (l : Items) → Fresh j p l → Fresh j p (without_key k l)
Fresh-without_key k j p [] f = tt
Fresh-without_key k j p ((i, x) ∷ l) (a, b, f) = elim (Bool-cases (i == k)) [
  | inl e ↦ rw e f
  | inr e ↦ rw e (a, b, Fresh-without_key k j p l f)
]

Distinct-without_key : (k : ℕ) (l : Items) → Distinct l → Distinct (without_key k l)
Distinct-without_key k [] d = tt
Distinct-without_key k ((i, x) ∷ l) (f, d) = elim (Bool-cases (i == k)) [
  | inl e ↦ rw e d
  | inr e ↦ rw e (Fresh-without_key k i x l f, Distinct-without_key k l d)
]

-- A listed key leads to a structure, which is the one that leaves.
record Leaves (k : ℕ) (p : Ptr) (heap : Ptr → Option Context) (l : Items) (cs : List Context)
    : Type 0 where
  context : Context
  at : heap p ≡ some context
  listed : has_item p l ≡ true
  removed : remove p l ≡ without_key k l
  stand :
      (v v' : Option Context) → Stand (put (put heap p v) p v') (without_key k l) (without_id k cs)

Fresh-lookup_item :
    (k j : ℕ) (p x : Ptr) (l : Items) → Fresh j x l → lookup_item k l ≡ some p → ¬ (x ≡ p)
unfolding lookup_item
Fresh-lookup_item k j p x [] f e = absurd (ground (arith, e))
Fresh-lookup_item k j p x ((i, y) ∷ l) (_, ne, f) e = elim (Bool-cases (i == k)) [
  | inl here ↦ ground (arith, here, e, ne)
  | inr other ↦ Fresh-lookup_item k j p x l f (ground (arith, other, e))
]

Stand-Leaves :
    (k : ℕ) (p : Ptr) (heap : Ptr → Option Context) (l : Items) (cs : List Context)
    → Distinct l
    → Stand heap l cs
    → lookup_item k l ≡ some p
    → Leaves k p heap l cs
unfolding lookup_item remove has_item
Stand-Leaves k p heap [] cs d h e = absurd (ground (arith, e))
Stand-Leaves k p heap ((j, x) ∷ l) [] d h e = absurd h
Stand-Leaves k p heap ((j, x) ∷ l) (c ∷ cs) (f, d) (at, i, h) e = elim (Bool-cases (j == k)) [
  | inl here ↦
      let same : x ≡ p = ground (arith, here, e) in
      let mine : (c.id == k) ≡ true = rw i here in
      subst (λ (y : Ptr). Leaves k y heap ((j, x) ∷ l) (c ∷ cs)) same
        (record {
          context = c;
          at = at;
          listed = rw (==_self x);
          removed = rw (==_self x, here);
          stand = λ v v'.
              rw (here, mine)
                (Stand-put (put heap x v) j x v' l cs f (Stand-put heap j x v l cs f h));
        })
  | inr other ↦
      let tail : lookup_item k l ≡ some p = ground (arith, other, e) in
      let rest = Stand-Leaves k p heap l cs d h tail in
      let differ = Fresh-lookup_item k j p x l f tail in
      let apart : (x == p) ≡ false = ground (arith, differ) in
      let theirs : (c.id == k) ≡ false = rw i other in
      record {
        context = rest.context;
        at = rest.at;
        listed = rw (apart) rest.listed;
        removed = rw (apart, other, rest.removed);
        stand = λ v v'.
            rw (other, theirs)
              (
                (put_other (put heap p v) p x v' (λ z. differ (sym z))
                      ∙ put_other heap p x v (λ z. differ (sym z)))
                    ∙ at,
                i,
                rest.stand v v',
              );
      }
]

module _ (H : Uthash) (inp : RoundInputs H.Table) where
  open H use {Table, items, find, items-del}

  -- An id that is not listed changes nothing. One that is listed leaves the registry, with its structure
  -- and its Unbound context.
  abbrev pub Unregisters :
      Bool → Bool → ℕ → Items → List Context → State Table → Option Ptr → Type 0
  Unregisters wrlock joined k l cs s none =
      (thread : State Table → Option (State Table))
      → delete_context H thread true joined k s ≡ some (none, s)
  Unregisters wrlock joined k l cs s (some p) =
      (c : Context) × (z : State Table) × (delete_context H (join H inp wrlock p) true joined k s
        ≡ some (if joined then none else some join_thread, z))
      × Registered H z (without_key k l) (without_id k cs)
      × (s.context_at p ≡ some c)
      × (z.context_at p ≡ none)
      × (is_deleted c.ub_ctx z.calls ≡ true)

  delete_context-step :
      (wrlock joined : Bool) (k : ℕ) (p : Ptr) (c : Context) (s : State Table)
      → find k s.contexts ≡ some p
      → has_item p (items s.contexts) ≡ true
      → items s.queries ≡ []
      → s.context_at p ≡ some c
      → delete_context H (join H inp wrlock p) true joined k s
        ≡ some (if joined then none else some join_thread, gone H inp wrlock true p c s)
  unfolding delete_context
  delete_context-step true joined k p c s found has quiet at =
      simp (found, has)
        (ending H inp k p c [] s has quiet at true joined _ refl
          (put_self s.context_at p (some (record c { stopping = true }))))
  delete_context-step false joined k p c s found has quiet at =
      simp (found, has)
        (ending H inp k p c [] s has quiet at false joined _ refl
          (put_self s.context_at p (some (record c { stopping = true }))))

  -- If no query is tracked, the table of contexts has distinct keys and structures that are
  -- allocated, and each thread is at the test of its loop, then ub4j_delete_context with the lock
  -- refines the registry for any id: an id that is not listed changes nothing, whatever the
  -- threads do, and one that is listed leaves the registry, its structure is freed and its Unbound
  -- context deleted.
  pub delete_context-Unregisters :
      (wrlock joined : Bool) (k : ℕ) (l : Items) (cs : List Context) (s : State Table)
      → items s.queries ≡ []
      → Registered H s l cs
      → Unregisters wrlock joined k l cs s (lookup_item k l)
  unfolding delete_context
  delete_context-Unregisters wrlock joined k l cs s quiet r =
      let found = find-Registered H k l cs s r in
      elim (Option-cases (lookup_item k l)) [
        | inl missing ↦ rw missing (λ thread. rw (found ∙ missing))
        | inr (p, here) ↦
            let gone_from = Stand-Leaves k p s.context_at l cs r.distinct r.stand here in
            let has : has_item p (items s.contexts) ≡ true = rw (r.listed) gone_from.listed in
            let c = gone_from.context in
            let z = gone H inp wrlock true p c s in
            let old = put s.context_at p (some (record c { stopping = true })) in
            rw here (
              c,
              z,
              delete_context-step wrlock joined k p c s (found ∙ here) has quiet gone_from.at,
              record {
                listed = items-del p s.contexts has ∙ ap (remove p) r.listed ∙ gone_from.removed;
                stand = gone_from.stand (some (record c { stopping = true })) none;
                distinct = Distinct-without_key k l r.distinct;
              },
              gone_from.at,
              put_self old p none,
              ended_calls-deleted H inp wrlock true c s.calls,
            )
      ]
