-- ===== src/Engine/Thread/Deadline.antt =====
-- The pass of the processing thread stops at the first query that has not expired. Where the queue is
-- ordered by expiry that is exact.
use unbound4j.Base.{
  ℕ, ◌+◌, ◌≤◌, ◌≡◌, inl, inr, some, List, [], ◌∷◌, ◌++◌, leb, All, arith, Bool-cases, leb→le,
  leb_false→lt,
}
use unbound4j.Uthash.{Items, Uthash}
use unbound4j.Engine.State.{Query, State}
use unbound4j.Engine.Tracking.{Tracks}
use unbound4j.Engine.Thread.{expire_loop}
use unbound4j.Engine.Thread.Expiry.{
  take-drop_expired, take_expired, drop_expired, tell_timeouts, expire_loop-Tracks,
}

abbrev pub ExpiresAfter : ℕ → List Query → Type 0
ExpiresAfter t = All (λ q. t ≤ q.expires_at_epoch_sec)

-- Each query expires no later than those behind it.
abbrev pub IsOrdered : List Query → Type 0
IsOrdered [] = Unit {0}
IsOrdered (q ∷ qs) = ExpiresAfter q.expires_at_epoch_sec qs × IsOrdered qs

pub ExpiresAfter-mono :
    (t t' : ℕ) (qs : List Query) → t ≤ t' → ExpiresAfter t' qs → ExpiresAfter t qs
ExpiresAfter-mono t t' [] h e = tt
ExpiresAfter-mono t t' (q ∷ qs) h (e, es) = (omega arith, ExpiresAfter-mono t t' qs h es)

drop_expired-later :
    (now : ℕ) (qs : List Query) → IsOrdered qs → ExpiresAfter (now + 1) (drop_expired now qs)
drop_expired-later now [] o = tt
drop_expired-later now (q ∷ qs) (after, o) = elim (Bool-cases (leb q.expires_at_epoch_sec now)) [
  | inl over ↦ rw over (drop_expired-later now qs o)
  | inr later ↦
      let late = leb_false→lt q.expires_at_epoch_sec now later in
      rw later
        (omega arith, ExpiresAfter-mono (now + 1) q.expires_at_epoch_sec qs (omega arith) after)
]

drop_expired-IsOrdered :
    (now : ℕ) (qs : List Query) → IsOrdered qs → IsOrdered (drop_expired now qs)
drop_expired-IsOrdered now [] o = tt
drop_expired-IsOrdered now (q ∷ qs) (after, o) =
    elim (Bool-cases (leb q.expires_at_epoch_sec now)) [
      | inl over ↦ rw over (drop_expired-IsOrdered now qs o)
      | inr later ↦ rw later (after, o)
    ]

take_expired-due :
    (now : ℕ) (qs : List Query) → All (λ q. q.expires_at_epoch_sec ≤ now) (take_expired now qs)
take_expired-due now [] = tt
take_expired-due now (q ∷ qs) = elim (Bool-cases (leb q.expires_at_epoch_sec now)) [
  | inl over ↦ rw over (leb→le _ _ over, take_expired-due now qs)
  | inr later ↦ rw later tt
]

module _ (H : Uthash) (u : ℕ) where
  open H use {Table}

  -- If the table tracks a queue that is in the order of expiry, the pass of the processing thread
  -- is defined, gives up exactly a front of the queue in which every query is due, tells their
  -- delegates in order, and what it leaves tracked is not due and again in order.
  pub expire_loop-exact :
      (now : ℕ) (l : Items) (qs : List Query) (s : State Table)
      → Tracks H u s l qs
      → IsOrdered qs
      → (s' : State Table) × (l' : Items) × (gone : List Query) × (rest : List Query) × (expire_loop
            H u now l s
          ≡ some s')
        × Tracks H u s' l' rest
        × (s'.calls ≡ tell_timeouts H u gone s.calls)
        × (qs ≡ gone ++ rest)
        × All (λ q. q.expires_at_epoch_sec ≤ now) gone
        × ExpiresAfter (now + 1) rest
        × IsOrdered rest
  expire_loop-exact now l qs s t o =
      let (s', l', e, t', calls, _, _) = expire_loop-Tracks H u now l qs s t in
      (
        s',
        l',
        take_expired now qs,
        drop_expired now qs,
        e,
        t',
        calls,
        take-drop_expired now qs,
        take_expired-due now qs,
        drop_expired-later now qs o,
        drop_expired-IsOrdered now qs o,
      )
