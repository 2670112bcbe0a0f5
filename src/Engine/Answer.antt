-- ===== src/Engine/Answer.antt =====
-- The answer to a query: what the callback does to the queue of one Unbound context.
use unbound4j.Base.{
  ℕ, ◌≡◌, refl, sym, ap, ◌∙◌, inl, inr, true, false, Option, none, some, List, [], ◌∷◌, ◌++◌, Bytes,
  ◌==◌, arith, ==_self, Bool-cases, Option-cases,
}
use unbound4j.Uthash.{Ptr, Items, Uthash, Maps, remove, has_item}
use unbound4j.Engine.State.{Query, State, answered, delegate, put, call}
use unbound4j.Engine.Query.{UbResult, host_name, lookup_callback, error_text, free_result}
use unbound4j.Engine.Tracking.{
  drop_async, outstanding, tagged, Fresh, Distinct, Live, Live-put, Tracks,
}

-- `q` is taken out of its place in the queue.
abbrev pub Takes : Query → List Query → List Query → Type 0
Takes q qs qs' = (xs : List Query) × (ys : List Query) × (qs ≡ xs ++ q ∷ ys) × (qs' ≡ xs ++ ys)

Fresh-Maps : (k j : ℕ) (p x : Ptr) (l : Items) → Fresh k p l → Maps j x l → ¬ (j ≡ k) × ¬ (x ≡ p)
Fresh-Maps k j p x [] f m = absurd m
Fresh-Maps k j p x ((i, y) ∷ l) (ne, ne', f) (inl (e, e')) = (λ h. ne (e ∙ h), λ h. ne' (e' ∙ h))
Fresh-Maps k j p x ((i, y) ∷ l) (ne, ne', f) (inr m) = Fresh-Maps k j p x l f m

Fresh-remove : (k : ℕ) (p x : Ptr) (l : Items) → Fresh k p l → Fresh k p (remove x l)
unfolding remove
Fresh-remove k p x [] f = tt
Fresh-remove k p x ((j, y) ∷ l) (ne, ne', f) = elim (Bool-cases (y == x)) [
  | inl same ↦ rw same f
  | inr other ↦ rw other (ne, ne', Fresh-remove k p x l f)
]

-- What taking out an item of the table leaves.
abbrev Taken : ℕ → (Ptr → Option Query) → ℕ → Ptr → Items → List Query → Type 0
Taken u heap k p l qs =
    (q : Query) × (qs' : List Query) × (heap p ≡ some q)
    × (q.expired ≡ false)
    × Takes q qs qs'
    × (has_item p l ≡ true)
    × (drop_async u k (tagged u l) ≡ tagged u (remove p l))
    × Live heap (remove p l) qs'
    × Distinct (remove p l)
    × Fresh k p (remove p l)

take-Live :
    (u : ℕ) (heap : Ptr → Option Query) (k : ℕ) (p : Ptr) (l : Items) (qs : List Query)
    → Maps k p l
    → Live heap l qs
    → Distinct l
    → Taken u heap k p l qs
unfolding remove has_item drop_async
take-Live u heap k p [] qs m h d = absurd m
take-Live u heap k p ((j, x) ∷ l) [] m h d = absurd h
take-Live u heap k p ((j, x) ∷ l) (q ∷ qs) (inl (ek, ep)) (at, id, live, h) (f, d) =
    let same : (x == p) ≡ true = rw ep (==_self p) in
    let same_key : (j == k) ≡ true = rw ek (==_self k) in
    let f' : Fresh k p l = rw (← ek, ← ep) f in
    (
      q,
      qs,
      rw (← ep) at,
      live,
      ([], qs, refl, refl),
      rw same,
      rw (same, same_key, ==_self u),
      rw same h,
      rw same d,
      rw same f',
    )
take-Live u heap k p ((j, x) ∷ l) (q ∷ qs) (inr m) (at, id, live, h) (f, d) =
    let (r, qs', at', live', (xs, ys, e, e'), has, dropped, h', d', f') =
      take-Live u heap k p l qs m h d in
    let (ne, ne') = Fresh-Maps j k x p l f m in
    let other : (x == p) ≡ false = ground arith in
    let other_key : (j == k) ≡ false = ground arith in
    (
      r,
      q ∷ qs',
      at',
      live',
      (q ∷ xs, ys, ap (◌∷◌ q) e, ap (◌∷◌ q) e'),
      rw (other, has),
      rw (other, other_key, ==_self u) (ap (◌∷◌ (u, j, x)) dropped),
      rw other (at, id, live, h'),
      rw other (Fresh-remove j x p l f, d'),
      rw other ((λ e. ne (sym e)), (λ e. ne' (sym e)), f'),
    )

pub Maps-has_item : (k : ℕ) (p : Ptr) (l : Items) → Maps k p l → has_item p l ≡ true
unfolding has_item
Maps-has_item k p [] m = absurd m
Maps-has_item k p ((j, q) ∷ l) (inl (_, e)) = rw (e, ==_self p)
Maps-has_item k p ((j, q) ∷ l) (inr m) = ground (arith, Maps-has_item k p l m)

-- A tracked query stands in the heap, and it is not marked.
pub Live-at :
    (heap : Ptr → Option Query) (k : ℕ) (p : Ptr) (l : Items) (qs : List Query)
    → Maps k p l
    → Live heap l qs
    → (q : Query) × (heap p ≡ some q) × (q.expired ≡ false)
Live-at heap k p [] qs m h = absurd m
Live-at heap k p ((j, x) ∷ l) [] m h = absurd h
Live-at heap k p ((j, x) ∷ l) (q ∷ qs) (inl (_, e)) (at, _, live, _) =
    (q, ap heap (sym e) ∙ at, live)
Live-at heap k p ((j, x) ∷ l) (q ∷ qs) (inr m) (_, _, _, h) = Live-at heap k p l qs m h

module _ (H : Uthash) (u : ℕ) where
  open H use {Table, items, add, del, items-add, items-del}

  -- libunbound enters the callback of an asynchronous query.
  unfoldable pub answer :
      ℕ → Ptr → ℕ → Option UbResult → Option Bytes → State Table → Option (State Table)
  answer k p err result buffer s =
      lookup_callback H some p err result buffer true (call (answered u k) s)

  abbrev pub answered_state :
      ℕ → Ptr → Query → ℕ → Option UbResult → Option Bytes → State Table → State Table
  answered_state k p q err result host s = record s {
    queries = del p s.queries;
    query_at = put s.query_at p none;
    calls =
        delegate q.callback q.userdata (error_text err false) host
        ∷ (free_result result (call (answered u k) s)).calls;
  }

  pub answer-runs :
      (k : ℕ) (p : Ptr) (q : Query) (err : ℕ) (result : Option UbResult)
      (buffer host : Option Bytes) (s : State Table)
      → s.query_at p ≡ some q
      → q.expired ≡ false
      → has_item p (items s.queries) ≡ true
      → host_name err result buffer ≡ some host
      → answer k p err result buffer s ≡ some (answered_state k p q err result host s)
  unfolding answer lookup_callback
  answer-runs k p q err none buffer host s at live has named = rw (at, named, live, has, at)
  answer-runs k p q err (some r) buffer host s at live has named = rw (at, named, live, has, at)

  answered_state-Tracks :
      (k : ℕ) (p : Ptr) (q : Query) (err : ℕ) (result : Option UbResult) (host : Option Bytes)
      (l : Items) (qs qs' : List Query) (s : State Table)
      → Tracks H u s l qs
      → has_item p l ≡ true
      → drop_async u k (tagged u l) ≡ tagged u (remove p l)
      → Live s.query_at (remove p l) qs'
      → Distinct (remove p l)
      → Fresh k p (remove p l)
      → Tracks H u (answered_state k p q err result host s) (remove p l) qs'
  unfolding outstanding
  answered_state-Tracks k p q err none host l qs qs' s t has dropped live distinct fresh = record {
    in_table = items-del p s.queries (rw t.in_table has) ∙ ap (remove p) t.in_table;
    at_unbound = ap (drop_async u k) t.at_unbound ∙ dropped;
    live = Live-put s.query_at k p none (remove p l) qs' fresh live;
    distinct = distinct;
  }
  answered_state-Tracks k p q err (some r) host l qs qs' s t has dropped live distinct fresh =
      record {
        in_table = items-del p s.queries (rw t.in_table has) ∙ ap (remove p) t.in_table;
        at_unbound = ap (drop_async u k) t.at_unbound ∙ dropped;
        live = Live-put s.query_at k p none (remove p l) qs' fresh live;
        distinct = distinct;
      }

  -- If a queue is tracked, an answer to one of its queries, whose host name is defined and whose
  -- callback gets the write lock, is defined, takes that query alone out of the queue, leaves the
  -- others tracked in their order, calls the delegate of the query once, with the error or the
  -- host name, and does not change the contexts.
  pub answer-Tracks :
      (k : ℕ) (p : Ptr) (err : ℕ) (result : Option UbResult) (buffer host : Option Bytes)
      (l : Items) (qs : List Query) (s : State Table)
      → Tracks H u s l qs
      → Maps k p l
      → host_name err result buffer ≡ some host
      → (q : Query) × (qs' : List Query) × (s' : State Table) × (answer k p err result buffer s
          ≡ some s')
        × Takes q qs qs'
        × Tracks H u s' (remove p l) qs'
        × (s'.calls
            ≡ delegate q.callback q.userdata (error_text err false) host
              ∷ (free_result result (call (answered u k) s)).calls)
        × (s'.context_at ≡ s.context_at)
        × (s'.contexts ≡ s.contexts)
  answer-Tracks k p err result buffer host l qs s t m named =
      let (q, qs', at, live, taken, has, dropped, h, d, f) =
        take-Live u s.query_at k p l qs m t.live t.distinct in
      (
        q,
        qs',
        answered_state k p q err result host s,
        answer-runs k p q err result buffer host s at live (rw t.in_table has) named,
        taken,
        answered_state-Tracks k p q err result host l qs qs' s t has dropped h d f,
        refl,
        refl,
        refl,
      )

  -- Where the callback is defined, so is the host name.
  pub answer-named :
      (k : ℕ) (p : Ptr) (err : ℕ) (result : Option UbResult) (buffer : Option Bytes)
      (s s' : State Table)
      → answer k p err result buffer s ≡ some s'
      → (host : Option Bytes) × (host_name err result buffer ≡ some host)
  unfolding answer lookup_callback
  answer-named k p err result buffer s s' e = elim (Option-cases (host_name err result buffer)) [
    | inr named ↦ named
    | inl fault ↦ elim (Option-cases (s.query_at p)) [
      | inl gone ↦ let broken : answer k p err result buffer s ≡ none = rw gone in cc
      | inr (q, at) ↦ let broken : answer k p err result buffer s ≡ none = rw (at, fault) in cc
    ]
  ]
