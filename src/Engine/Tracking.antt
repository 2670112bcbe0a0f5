-- ===== src/Engine/Tracking.antt =====
-- The queries of one Unbound context, seen three ways: the table that tracks them, what libunbound
-- may still answer, and the queries in the order of their submission.
use unbound4j.Base.{
  ℕ, ◌≡◌, refl, sym, ap, ◌∙◌, inl, inr, false, ◌&&◌, Option, none, some, List, [], ◌∷◌, ◌++◌, ◌==◌,
  if◌then◌else◌, arith,
}
use unbound4j.Uthash.{Ptr, Items, Uthash, Maps}
use unbound4j.Engine.State.{
  Query, State, Call, ctx_deleted, thread_created, thread_joined, resolved, cancelled, answered,
  result_freed, delegate, fatal, logged, put,
}

-- An asynchronous query of libunbound: its context, its id, and `mydata`.
abbrev pub Async : Type 0
Async = ℕ × ℕ × Ptr

abbrev pub Asyncs : Type 0
Asyncs = List Async

unfoldable pub drop_async : ℕ → ℕ → Asyncs → Asyncs
drop_async u id [] = []
drop_async u id ((v, j, p) ∷ l) = if (v == u) && (j == id) then l else (v, j, p) ∷ drop_async u id l

unfoldable pub drop_ctx : ℕ → Asyncs → Asyncs
drop_ctx u [] = []
drop_ctx u ((v, j, p) ∷ l) = if v == u then drop_ctx u l else (v, j, p) ∷ drop_ctx u l

-- What libunbound may still answer after a history of calls, by its documentation: what was
-- submitted, and neither answered nor cancelled, in a context that was not deleted.
unfoldable pub outstanding : List Call → Asyncs
outstanding [] = []
outstanding (resolved u id p name ∷ h) = outstanding h ++ (u, id, p) ∷ []
outstanding (cancelled u id ∷ h) = drop_async u id (outstanding h)
outstanding (answered u id ∷ h) = drop_async u id (outstanding h)
outstanding (ctx_deleted u ∷ h) = drop_ctx u (outstanding h)
outstanding (thread_created p ∷ h) = outstanding h
outstanding (thread_joined th ∷ h) = outstanding h
outstanding (result_freed ∷ h) = outstanding h
outstanding (delegate f v e r ∷ h) = outstanding h
outstanding (fatal ∷ h) = outstanding h
outstanding (logged ∷ h) = outstanding h

-- The userdata of the delegate calls: who was told.
unfoldable pub told : List Call → List ℕ
told [] = []
told (delegate f v e r ∷ h) = v ∷ told h
told (ctx_deleted u ∷ h) = told h
told (thread_created p ∷ h) = told h
told (thread_joined th ∷ h) = told h
told (resolved u id p name ∷ h) = told h
told (cancelled u id ∷ h) = told h
told (answered u id ∷ h) = told h
told (result_freed ∷ h) = told h
told (fatal ∷ h) = told h
told (logged ∷ h) = told h

-- The userdata of the tracked queries: who waits.
abbrev pub waiting : List Query → List ℕ
waiting [] = []
waiting (q ∷ qs) = q.userdata ∷ waiting qs

-- The items of the table as asynchronous queries of the context `u`.
abbrev pub tagged : ℕ → Items → Asyncs
tagged u [] = []
tagged u ((k, p) ∷ l) = (u, k, p) ∷ tagged u l

-- Neither the key nor the pointer stands in the list.
abbrev pub Fresh : ℕ → Ptr → Items → Type 0
Fresh k p [] = Unit {0}
Fresh k p ((j, q) ∷ l) = ¬ (j ≡ k) × ¬ (q ≡ p) × Fresh k p l

abbrev pub Distinct : Items → Type 0
Distinct [] = Unit {0}
Distinct ((k, p) ∷ l) = Fresh k p l × Distinct l

-- The tracked queries stand in the heap, with their keys for ids, and none is marked expired.
abbrev pub Live : (Ptr → Option Query) → Items → List Query → Type 0
Live heap [] [] = Unit {0}
Live heap [] (q ∷ qs) = ⊥
Live heap ((k, p) ∷ l) [] = ⊥
Live heap ((k, p) ∷ l) (q ∷ qs) =
    (heap p ≡ some q) × (q.id ≡ k) × (q.expired ≡ false) × Live heap l qs

pub tagged-append :
    (u k : ℕ) (p : Ptr) (l : Items) → tagged u l ++ (u, k, p) ∷ [] ≡ tagged u (l ++ (k, p) ∷ [])
tagged-append u k p [] = refl
tagged-append u k p ((j, q) ∷ l) = ap (◌∷◌ (u, j, q)) (tagged-append u k p l)

-- A store to another address keeps the queries alive.
pub Live-put :
    (heap : Ptr → Option Query) (k : ℕ) (p : Ptr) (v : Option Query) (l : Items) (qs : List Query)
    → Fresh k p l
    → Live heap l qs
    → Live (put heap p v) l qs
Live-put heap k p v [] [] f h = tt
Live-put heap k p v [] (q ∷ qs) f h = h
Live-put heap k p v ((j, r) ∷ l) [] f h = h
Live-put heap k p v ((j, r) ∷ l) (q ∷ qs) (_, ne, f) (at, i, e, h) =
    (ground arith, i, e, Live-put heap k p v l qs f h)

pub Live-append :
    (heap : Ptr → Option Query) (k : ℕ) (p : Ptr) (q : Query) (l : Items) (qs : List Query)
    → Live heap l qs
    → heap p ≡ some q
    → q.id ≡ k
    → q.expired ≡ false
    → Live heap (l ++ (k, p) ∷ []) (qs ++ q ∷ [])
Live-append heap k p q [] [] h at i e = (at, i, e, tt)
Live-append heap k p q [] (r ∷ qs) h at i e = absurd h
Live-append heap k p q ((j, x) ∷ l) [] h at i e = absurd h
Live-append heap k p q ((j, x) ∷ l) (r ∷ qs) (at', i', e', h) at i e =
    (at', i', e', Live-append heap k p q l qs h at i e)

-- A pointer to no structure is fresh to the table.
pub Fresh-none :
    (heap : Ptr → Option Query) (k : ℕ) (p : Ptr) (l : Items) (qs : List Query)
    → Live heap l qs
    → heap p ≡ none
    → ((j : ℕ) (x : Ptr) → Maps j x l → ¬ (j ≡ k))
    → Fresh k p l
Fresh-none heap k p [] qs h e ids = tt
Fresh-none heap k p ((j, x) ∷ l) [] h e ids = absurd h
Fresh-none heap k p ((j, x) ∷ l) (q ∷ qs) (at, _, _, h) e ids = (
  ids j x (inl (refl, refl)),
  (λ same. let clash : some q ≡ none = sym at ∙ ap heap same ∙ e in cc),
  Fresh-none heap k p l qs h e (λ j' x' m. ids j' x' (inr m)),
)

Fresh-append :
    (k j : ℕ) (p x : Ptr) (l : Items)
    → Fresh k p l
    → ¬ (j ≡ k)
    → ¬ (x ≡ p)
    → Fresh k p (l ++ (j, x) ∷ [])
Fresh-append k j p x [] f ne ne' = (ne, ne', tt)
Fresh-append k j p x ((i, y) ∷ l) (a, b, f) ne ne' = (a, b, Fresh-append k j p x l f ne ne')

pub Distinct-append :
    (k : ℕ) (p : Ptr) (l : Items) → Distinct l → Fresh k p l → Distinct (l ++ (k, p) ∷ [])
Distinct-append k p [] d f = (tt, tt)
Distinct-append k p ((j, x) ∷ l) (g, d) (ne, ne', f) =
    (Fresh-append j k x p l g (λ e. ne (sym e)) (λ e. ne' (sym e)), Distinct-append k p l d f)

module _ (H : Uthash) where
  open H use {Table, items}

  -- The engine keeps the queries `qs`, all of the Unbound context `u`, in the items `l`.
  pub record Tracks (u : ℕ) (s : State Table) (l : Items) (qs : List Query) : Type 0 where
    pub in_table : items s.queries ≡ l
    pub at_unbound : outstanding s.calls ≡ tagged u l
    pub live : Live s.query_at l qs
    pub distinct : Distinct l
