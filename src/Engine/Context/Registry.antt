-- ===== src/Engine/Context/Registry.antt =====
-- The table of contexts as a map from ids to live structures.
use unbound4j.Base.{
  ℕ, ◌≡◌, refl, sym, ap, subst, ◌∙◌, inl, inr, Option, none, some, List, [], ◌∷◌, ◌++◌, arith,
  ==_self, Option-cases,
}
use unbound4j.Uthash.{Ptr, Items, Uthash, Maps, Lacks, lookup_item}
use unbound4j.Engine.State.{Context, State, put}
use unbound4j.Engine.Tracking.{Fresh, Distinct}

-- The listed contexts stand in the heap, with their keys for ids.
abbrev pub Stand : (Ptr → Option Context) → Items → List Context → Type 0
Stand heap [] [] = Unit {0}
Stand heap [] (c ∷ cs) = ⊥
Stand heap ((k, p) ∷ l) [] = ⊥
Stand heap ((k, p) ∷ l) (c ∷ cs) = (heap p ≡ some c) × (c.id ≡ k) × Stand heap l cs

pub Stand-put :
    (heap : Ptr → Option Context) (k : ℕ) (p : Ptr) (v : Option Context) (l : Items)
    (cs : List Context)
    → Fresh k p l
    → Stand heap l cs
    → Stand (put heap p v) l cs
Stand-put heap k p v [] [] f h = tt
Stand-put heap k p v [] (c ∷ cs) f h = h
Stand-put heap k p v ((j, r) ∷ l) [] f h = h
Stand-put heap k p v ((j, r) ∷ l) (c ∷ cs) (_, ne, f) (at, i, h) =
    (ground arith, i, Stand-put heap k p v l cs f h)

-- Two heaps that agree away from a pointer that is not listed.
pub Stand-others :
    (heap heap' : Ptr → Option Context) (k : ℕ) (p : Ptr) (l : Items) (cs : List Context)
    → ((x : Ptr) → ¬ (p ≡ x) → heap' x ≡ heap x)
    → Fresh k p l
    → Stand heap l cs
    → Stand heap' l cs
Stand-others heap heap' k p [] [] same f h = tt
Stand-others heap heap' k p [] (c ∷ cs) same f h = h
Stand-others heap heap' k p ((j, r) ∷ l) [] same f h = h
Stand-others heap heap' k p ((j, r) ∷ l) (c ∷ cs) same (_, ne, f) (at, i, h) =
    (same r (λ e. ne (sym e)) ∙ at, i, Stand-others heap heap' k p l cs same f h)

pub Stand-append :
    (heap : Ptr → Option Context) (k : ℕ) (p : Ptr) (c : Context) (l : Items) (cs : List Context)
    → Stand heap l cs
    → heap p ≡ some c
    → c.id ≡ k
    → Stand heap (l ++ (k, p) ∷ []) (cs ++ c ∷ [])
Stand-append heap k p c [] [] h at i = (at, i, tt)
Stand-append heap k p c [] (d ∷ cs) h at i = absurd h
Stand-append heap k p c ((j, x) ∷ l) [] h at i = absurd h
Stand-append heap k p c ((j, x) ∷ l) (d ∷ cs) (at', i', h) at i =
    (at', i', Stand-append heap k p c l cs h at i)

-- A pointer to no structure and a key that is not listed are fresh.
pub Fresh-Stand :
    (heap : Ptr → Option Context) (k : ℕ) (p : Ptr) (l : Items) (cs : List Context)
    → Stand heap l cs
    → heap p ≡ none
    → Lacks k l
    → Fresh k p l
Fresh-Stand heap k p [] cs h e lacks = tt
Fresh-Stand heap k p ((j, x) ∷ l) [] h e lacks = absurd h
Fresh-Stand heap k p ((j, x) ∷ l) (c ∷ cs) (at, _, h) e (ne, lacks) = (
  ne,
  (λ same. let clash : some c ≡ none = sym at ∙ ap heap same ∙ e in cc),
  Fresh-Stand heap k p l cs h e lacks,
)

module _ (H : Uthash) where
  open H use {Table, items, find, find-some, find-none}

  -- The table of contexts has the items `l`, which lead to the contexts `cs`.
  pub record Registered (s : State Table) (l : Items) (cs : List Context) : Type 0 where
    pub listed : items s.contexts ≡ l
    pub stand : Stand s.context_at l cs
    pub distinct : Distinct l

  Fresh-lookup : (k j : ℕ) (p x : Ptr) (l : Items) → Fresh j x l → Maps k p l → ¬ (j ≡ k)
  Fresh-lookup k j p x [] f m = absurd m
  Fresh-lookup k j p x ((i, y) ∷ l) (ne, _, f) (inl (e, _)) = λ h. ne (e ∙ sym h)
  Fresh-lookup k j p x ((i, y) ∷ l) (_, _, f) (inr m) = Fresh-lookup k j p x l f m

  lookup_item-Maps :
      (k : ℕ) (p : Ptr) (l : Items) → Distinct l → Maps k p l → lookup_item k l ≡ some p
  unfolding lookup_item
  lookup_item-Maps k p [] d m = absurd m
  lookup_item-Maps k p ((j, x) ∷ l) (f, d) (inl (ek, ep)) = rw (ek, ep, ==_self k)
  lookup_item-Maps k p ((j, x) ∷ l) (f, d) (inr m) =
      let other = Fresh-lookup k j p x l f m in ground (arith, lookup_item-Maps k p l d m)

  lookup_item-Lacks : (k : ℕ) (l : Items) → Lacks k l → lookup_item k l ≡ none
  unfolding lookup_item
  lookup_item-Lacks k [] lacks = refl
  lookup_item-Lacks k ((j, x) ∷ l) (ne, lacks) = ground (arith, lookup_item-Lacks k l lacks)

  -- The lookup of an id is the lookup in the list of the items.
  pub find-Registered :
      (k : ℕ) (l : Items) (cs : List Context) (s : State Table)
      → Registered s l cs
      → find k s.contexts ≡ lookup_item k l
  find-Registered k l cs s r = elim (Option-cases (find k s.contexts)) [
    | inl missing ↦
        missing
        ∙ sym (lookup_item-Lacks k l (subst (Lacks k) r.listed (find-none k s.contexts missing)))
    | inr (p, found) ↦
        found
        ∙ sym (
            lookup_item-Maps k p l r.distinct
              (subst (Maps k p) r.listed (find-some k p s.contexts found)))
  ]
