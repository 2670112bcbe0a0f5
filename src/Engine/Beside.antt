-- ===== src/Engine/Beside.antt =====
-- The history of a state in which a query is in its callback.
use unbound4j.Base.{
  ℕ, ◌+◌, ◌≡◌, refl, ap, ◌∙◌, inl, inr, true, false, ◌&&◌, Option, none, some, List, [], ◌∷◌, ◌++◌,
  Bytes, ◌==◌, if◌then◌else◌, ==_self, Bool-cases,
}
use unbound4j.Uthash.{Ptr, Uthash}
use unbound4j.Engine.State.{Query, State, Call, answered, delegate, call}
use unbound4j.Engine.Query.{UbResult, error_text, free_result}
use unbound4j.Engine.Tracking.{Asyncs, drop_async, outstanding, told}
use unbound4j.Engine.Runs.{count, May}
use unbound4j.Engine.Frames.{with_calls, Submits, nothing, one_query}

-- What is submitted behind an outstanding query does not change which one is dropped.
drop_async-append :
    (u k : ℕ) (p : Ptr) (xs ys : Asyncs)
    → May u k p xs
    → drop_async u k xs ++ ys ≡ drop_async u k (xs ++ ys)
unfolding drop_async
drop_async-append u k p [] ys m = absurd m
drop_async-append u k p ((v, j, x) ∷ xs) ys (inl (ev, ej, _)) =
    let same : (v == u) ≡ true = rw ev (==_self u) in
    let same_id : (j == k) ≡ true = rw ej (==_self k) in rw (same, same_id) refl
drop_async-append u k p ((v, j, x) ∷ xs) ys (inr m) = elim (Bool-cases ((v == u) && (j == k))) [
  | inl dropped ↦ rw dropped refl
  | inr other ↦ rw other (ap (◌∷◌ (v, j, x)) (drop_async-append u k p xs ys m))
]

May-append : (u k : ℕ) (p : Ptr) (xs ys : Asyncs) → May u k p xs → May u k p (xs ++ ys)
May-append u k p [] ys m = absurd m
May-append u k p (x ∷ xs) ys (inl m) = inl m
May-append u k p (x ∷ xs) ys (inr m) = inr (May-append u k p xs ys m)

-- The history `h` of a state in which the query `q` is in its callback, beside the history `h'` of
-- one in which it still waits for its answer.
pub record Beside (u k : ℕ) (p : Ptr) (q : Query) (h h' : List Call) : Type 0 where
  pub may : May u k p (outstanding h')
  pub left : outstanding h ≡ drop_async u k (outstanding h')
  pub once : (v : ℕ) → count v (told h) ≡ (if q.userdata == v then 1 else 0) + count v (told h')

pub Beside-Submits :
    (u k : ℕ) (p : Ptr) (q : Query) (new h h' : List Call)
    → Submits u new
    → Beside u k p q h h'
    → Beside u k p q (new ++ h) (new ++ h')
unfolding outstanding told
Beside-Submits u k p q _ h h' nothing b = b
Beside-Submits u k p q _ h h' (one_query id x name) b = record {
  may = May-append u k p (outstanding h') ((u, id, x) ∷ []) b.may;
  left =
      ap (λ (l : Asyncs). l ++ (u, id, x) ∷ []) b.left
      ∙ drop_async-append u k p (outstanding h') ((u, id, x) ∷ []) b.may;
  once = b.once;
}

module _ (H : Uthash) (u : ℕ) where
  open H use {Table}

  -- The delegate has been called, with the query still tracked.
  abbrev pub entered : ℕ → Query → ℕ → Option UbResult → Option Bytes → State Table → State Table
  entered k q err result host s =
      call (delegate q.callback q.userdata (error_text err false) host)
        (free_result result (call (answered u k) s))

  pub entered_calls :
      (k : ℕ) (q : Query) (err : ℕ) (result : Option UbResult) (host : Option Bytes)
      (s : State Table)
      → entered k q err result host s ≡ with_calls (entered k q err result host s).calls s
  entered_calls k q err none host s = refl
  entered_calls k q err (some r) host s = refl

  pub outstanding-entered :
      (k : ℕ) (q : Query) (err : ℕ) (result : Option UbResult) (host : Option Bytes)
      (s : State Table)
      → outstanding (entered k q err result host s).calls ≡ drop_async u k (outstanding s.calls)
  unfolding outstanding
  outstanding-entered k q err none host s = refl
  outstanding-entered k q err (some r) host s = refl
