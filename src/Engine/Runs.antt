-- ===== src/Engine/Runs.antt =====
-- The life of every query of one Unbound context, as a step relation: lookups, answers of libunbound
-- and rounds of the processing thread, in any order.
use unbound4j.Base.{
  ℕ, ◌+◌, ◌≡◌, ◌⊎◌, inl, inr, Bool, Option, none, some, List, [], ◌∷◌, ◌++◌, Bytes, ◌==◌,
  if◌then◌else◌, arith,
}
use unbound4j.Uthash.{Ptr, Items, Uthash, Maps}
use unbound4j.Engine.State.{Query, Context, State}
use unbound4j.Engine.Query.{UbResult, LookupInputs, LookupError, reverse_lookup}
use unbound4j.Engine.Tracking.{Asyncs, outstanding, tagged, told, waiting, Tracks}
use unbound4j.Engine.Thread.{process_round}
use unbound4j.Engine.Thread.Round.{tells}
use unbound4j.Engine.Answer.{answer}
use unbound4j.Engine.Submit.{Unused}

-- How often a number stands in a list.
abbrev pub count : ℕ → List ℕ → ℕ
count v [] = 0
count v (w ∷ ws) = (if w == v then 1 else 0) + count v ws

-- libunbound may answer this query.
abbrev pub May : ℕ → ℕ → Ptr → Asyncs → Type 0
May u k p [] = ⊥
May u k p ((v, j, x) ∷ l) = ((v ≡ u) × (j ≡ k) × (x ≡ p)) ⊎ May u k p l

-- The userdata of a lookup that returned 0.
abbrev pub accepted : Option LookupError → ℕ → List ℕ
accepted none v = v ∷ []
accepted (some e) v = []

-- How often a number stands in two lists together.
pub count-tells :
    (v : ℕ) (qs : List Query) (ws : List ℕ)
    → count v (tells qs ws) ≡ count v (waiting qs) + count v ws
count-tells v [] ws = omega arith
count-tells v (q ∷ qs) ws = omega (arith, count-tells v qs (q.userdata ∷ ws))

pub count-waiting_append :
    (v : ℕ) (xs ys : List Query)
    → count v (waiting (xs ++ ys)) ≡ count v (waiting xs) + count v (waiting ys)
count-waiting_append v [] ys = omega arith
count-waiting_append v (x ∷ xs) ys = omega (arith, count-waiting_append v xs ys)

pub May-Maps : (u k : ℕ) (p : Ptr) (l : Items) → May u k p (tagged u l) → Maps k p l
May-Maps u k p [] m = absurd m
May-Maps u k p ((j, x) ∷ l) (inl (_, ek, ep)) = inl (ek, ep)
May-Maps u k p ((j, x) ∷ l) (inr m) = inr (May-Maps u k p l m)

module _ (H : Uthash) (u : ℕ) (cp : Ptr) where
  open H use {Table, items, find}

  pub data Step (s s' : State Table) : List ℕ → Type 0 where
    lookup :
        (inp : LookupInputs) (ctx_id : ℕ) (addr : Bytes) (userdata callback : ℕ)
        (r : Option LookupError)
        → find ctx_id s.contexts ≡ some cp
        → Unused H u inp (items s.queries) s
        → reverse_lookup H some inp ctx_id addr userdata callback s ≡ some (r, s')
        → Step s s' (accepted r userdata)
    answers :
        (k : ℕ) (p : Ptr) (err : ℕ) (result : Option UbResult) (buffer : Option Bytes)
        → May u k p (outstanding s.calls)
        → answer H u k p err result buffer s ≡ some s'
        → Step s s' []
    turn :
        (select_ok process_ok rdlock wrlock : Bool) (now : ℕ)
        → process_round H u
            (record {
              select_ok = select_ok;
              answers = some;
              process_ok = process_ok;
              now = now;
              rdlock = rdlock;
              between = some;
              wrlock = wrlock;
            })
            s
          ≡ some s'
        → Step s s' []

  -- The runs of these steps, with the userdata of the accepted lookups.
  pub data Reach (s : State Table) : State Table → List ℕ → Type 0 where
    here : Reach s s []
    next :
        {s₁ s₂ : State Table} {vs ws xs : List ℕ}
        → Reach s s₁ vs
        → Step s₁ s₂ ws
        → xs ≡ ws ++ vs
        → Reach s s₂ xs

  -- The queue is tracked, and each accepted lookup has been told once or waits in it once.
  pub record Kept (c : Context) (s : State Table) (vs : List ℕ) : Type 0 where
    pub queue :
        (l : Items) × (qs : List Query) × Tracks H u s l qs
        × ((v : ℕ) → count v vs ≡ count v (told s.calls) + count v (waiting qs))
    pub context : s.context_at cp ≡ some c
