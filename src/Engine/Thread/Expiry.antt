-- ===== src/Engine/Thread/Expiry.antt =====
-- What the processing thread does to the tracked queries: it gives up those that have expired.
use unbound4j.Base.{
  ℕ, ◌≡◌, refl, inl, inr, true, none, some, List, [], ◌∷◌, ◌++◌, ap, leb, if◌then◌else◌, ==_self,
  Bool-cases,
}
use unbound4j.Uthash.{Ptr, Items, Uthash, remove, has_item}
use unbound4j.Engine.State.{Query, State, Call, cancelled, delegate, timed_out, put}
use unbound4j.Engine.Query.{host_name, lookup_callback}
use unbound4j.Engine.Tracking.{drop_async, outstanding, tagged, Live-put, Tracks}
use unbound4j.Engine.Thread.{give_up, expire_loop, give_up_all}

module _ (H : Uthash) (u : ℕ) where
  open H use {Table, items, del, items-del}

  abbrev pub given_up : Ptr → Query → State Table → State Table
  given_up p q s = record s {
    queries = del p s.queries;
    query_at = put (put s.query_at p (some (record q { expired = true }))) p none;
    calls = delegate q.callback q.userdata (some timed_out) none ∷ cancelled u q.id ∷ s.calls;
  }

  head-has_item :
      (k : ℕ) (p : Ptr) (l : Items) (t : Table) → items t ≡ (k, p) ∷ l → has_item p (items t) ≡ true
  unfolding has_item
  head-has_item k p l t e = rw (e, ==_self)

  head-remove : (k : ℕ) (p : Ptr) (l : Items) → remove p ((k, p) ∷ l) ≡ l
  unfolding remove
  head-remove k p l = rw ==_self

  head-drop_async :
      (k : ℕ) (p : Ptr) (l : Items) → drop_async u k (tagged u ((k, p) ∷ l)) ≡ tagged u l
  unfolding drop_async
  head-drop_async k p l = rw (==_self u, ==_self k)

  pub give_up-runs :
      (k : ℕ) (p : Ptr) (q : Query) (l : Items) (s : State Table)
      → items s.queries ≡ (k, p) ∷ l
      → give_up H u p q s ≡ some (given_up p q s)
  unfolding give_up lookup_callback host_name
  give_up-runs k p q l s e = rw (head-has_item k p l s.queries e, ==_self p, ==_self p)

  -- Giving up the first query is defined, and the others are tracked as before.
  given_up-Tracks :
      (k : ℕ) (p : Ptr) (q : Query) (l : Items) (qs : List Query) (s : State Table)
      → Tracks H u s ((k, p) ∷ l) (q ∷ qs)
      → Tracks H u (given_up p q s) l qs
  unfolding outstanding
  given_up-Tracks k p q l qs s t =
      let (_, id, _, rest) = t.live in
      let (fresh, others) = t.distinct in
      let gone = items-del p s.queries (head-has_item k p l s.queries t.in_table) in
      record {
        in_table = rw (gone, t.in_table) (head-remove k p l);
        at_unbound = rw (id, t.at_unbound) (head-drop_async k p l);
        live = Live-put _ k p none l qs fresh (Live-put _ k p _ l qs fresh rest);
        distinct = others;
      }

  -- The delegates are told in the order of submission, each right behind the cancellation.
  abbrev pub tell_timeouts : List Query → List Call → List Call
  tell_timeouts [] h = h
  tell_timeouts (q ∷ qs) h =
      tell_timeouts qs (delegate q.callback q.userdata (some timed_out) none ∷ cancelled u q.id ∷ h)

  pub give_up_all-Tracks :
      (l : Items) (qs : List Query) (s : State Table)
      → Tracks H u s l qs
      → (s' : State Table) × (give_up_all H u l s ≡ some s')
        × Tracks H u s' [] []
        × (s'.calls ≡ tell_timeouts qs s.calls)
        × (s'.contexts ≡ s.contexts)
        × (s'.context_at ≡ s.context_at)
  unfolding give_up_all
  give_up_all-Tracks [] [] s t = (s, refl, t, refl, refl, refl)
  give_up_all-Tracks [] (q ∷ qs) s t = absurd t.live
  give_up_all-Tracks ((k, p) ∷ l) [] s t = absurd t.live
  give_up_all-Tracks ((k, p) ∷ l) (q ∷ qs) s t =
      let (s', e, t', h, c, m) =
        give_up_all-Tracks l qs (given_up p q s) (given_up-Tracks k p q l qs s t) in
      (s', rw (t.live.0, give_up-runs k p q l s t.in_table) e, t', h, c, m)

abbrev pub take_expired : ℕ → List Query → List Query
take_expired now [] = []
take_expired now (q ∷ qs) = if leb q.expires_at_epoch_sec now then q ∷ take_expired now qs else []

abbrev pub drop_expired : ℕ → List Query → List Query
drop_expired now [] = []
drop_expired now (q ∷ qs) = if leb q.expires_at_epoch_sec now then drop_expired now qs else q ∷ qs

pub take-drop_expired :
    (now : ℕ) (qs : List Query) → qs ≡ take_expired now qs ++ drop_expired now qs
take-drop_expired now [] = refl
take-drop_expired now (q ∷ qs) = elim (Bool-cases (leb q.expires_at_epoch_sec now)) [
  | inl over ↦ rw over (ap (◌∷◌ q) (take-drop_expired now qs))
  | inr later ↦ rw later
]

module _ (H : Uthash) (u : ℕ) where
  open H use {Table, items}

  -- One pass over the table gives up the queries before the first one that has not expired.
  pub expire_loop-Tracks :
      (now : ℕ) (l : Items) (qs : List Query) (s : State Table)
      → Tracks H u s l qs
      → (s' : State Table) × (l' : Items) × (expire_loop H u now l s ≡ some s')
        × Tracks H u s' l' (drop_expired now qs)
        × (s'.calls ≡ tell_timeouts H u (take_expired now qs) s.calls)
        × (s'.contexts ≡ s.contexts)
        × (s'.context_at ≡ s.context_at)
  unfolding expire_loop
  expire_loop-Tracks now [] [] s t = (s, [], refl, t, refl, refl, refl)
  expire_loop-Tracks now [] (q ∷ qs) s t = absurd t.live
  expire_loop-Tracks now ((k, p) ∷ l) [] s t = absurd t.live
  expire_loop-Tracks now ((k, p) ∷ l) (q ∷ qs) s t =
      elim (Bool-cases (leb q.expires_at_epoch_sec now)) [
        | inl over ↦
            let (s', l', e, t', h, c, m) =
              expire_loop-Tracks now l qs (given_up H u p q s)
                (given_up-Tracks H u k p q l qs s t) in
            (
              s',
              l',
              rw (t.live.0, over, give_up-runs H u k p q l s t.in_table) e,
              rw over t',
              rw over h,
              c,
              m,
            )
        | inr later ↦ (s, (k, p) ∷ l, rw (t.live.0, later), rw later t, rw later refl, refl, refl)
      ]
