-- ===== src/Engine/Thread/Round.antt =====
-- One round of the processing thread, seen as a step of the queue.
use unbound4j.Base.{
  ℕ, ◌≡◌, refl, ap, ◌∙◌, inl, inr, Bool, true, false, Option, none, some, List, [], ◌∷◌, ◌++◌, leb,
  Bool-cases,
}
use unbound4j.Uthash.{Ptr, Items, Uthash}
use unbound4j.Engine.State.{Query, State, Call, cancelled, delegate, timed_out, fatal, call}
use unbound4j.Engine.Tracking.{outstanding, told, Tracks}
use unbound4j.Engine.Thread.{
  RoundInputs, IsQuiet, need_to_cancel, check_queries, process_answers, process_round, stop_cleanup,
}
use unbound4j.Engine.Thread.Expiry.{
  take-drop_expired, take_expired, drop_expired, tell_timeouts, expire_loop-Tracks,
  give_up_all-Tracks,
}

-- The userdata of the queries, told one after the other.
abbrev pub tells : List Query → List ℕ → List ℕ
tells [] ws = ws
tells (q ∷ qs) ws = tells qs (q.userdata ∷ ws)

told-tell_timeouts :
    (H : Uthash) (u : ℕ) (qs : List Query) (h : List Call)
    → told (tell_timeouts H u qs h) ≡ tells qs (told h)
unfolding told
told-tell_timeouts H u [] h = refl
told-tell_timeouts H u (q ∷ qs) h =
    told-tell_timeouts H u qs
      (delegate q.callback q.userdata (some timed_out) none ∷ cancelled u q.id ∷ h)

module _ (H : Uthash) (u : ℕ) where
  open H use {Table, items}

  -- Some queries at the front are given up, each told once, and the others are tracked as before.
  abbrev pub Drops : List Query → State Table → Option (State Table) → Type 0
  Drops qs s result =
      (s' : State Table) × (l : Items) × (gone : List Query) × (rest : List Query) × (result
        ≡ some s')
      × (qs ≡ gone ++ rest)
      × Tracks H u s' l rest
      × (told s'.calls ≡ tells gone (told s.calls))
      × (s'.contexts ≡ s.contexts)
      × (s'.context_at ≡ s.context_at)

  pub fatal-Tracks :
      (l : Items) (qs : List Query) (s : State Table)
      → Tracks H u s l qs
      → Tracks H u (call fatal s) l qs
  unfolding outstanding
  fatal-Tracks l qs s t = record {
    in_table = t.in_table;
    at_unbound = t.at_unbound;
    live = t.live;
    distinct = t.distinct;
  }

  pub need_to_cancel-defined :
      (now : ℕ) (l : Items) (qs : List Query) (s : State Table)
      → Tracks H u s l qs
      → (b : Bool) × (need_to_cancel H now l s ≡ some b)
  unfolding need_to_cancel
  need_to_cancel-defined now [] qs s t = (false, refl)
  need_to_cancel-defined now ((k, p) ∷ l) [] s t = absurd t.live
  need_to_cancel-defined now ((k, p) ∷ l) (q ∷ qs) s t =
      (leb q.expires_at_epoch_sec now, rw (t.live.0))

  check_queries-Drops :
      (now : ℕ) (between : State Table → Option (State Table)) (rdlock wrlock : Bool) (l : Items)
      (qs : List Query) (s : State Table)
      → ((s : State Table) → between s ≡ some s)
      → Tracks H u s l qs
      → Drops qs s (check_queries H u now between rdlock wrlock s)
  unfolding check_queries told
  check_queries-Drops now between false wrlock l qs s idle t =
      (call fatal s, l, [], qs, refl, refl, fatal-Tracks l qs s t, refl, refl, refl)
  check_queries-Drops now between true wrlock l qs s idle t =
      let (need, e) = need_to_cancel-defined now l qs s t in
      elim (Bool-cases need) [
        | inr quiet ↦ (s, l, [], qs, rw (t.in_table, e, quiet), refl, t, refl, refl, refl)
        | inl due ↦ elim (Bool-cases wrlock) [
          | inr busy ↦ (
            call fatal s,
            l,
            [],
            qs,
            rw (t.in_table, e, due, idle s, busy),
            refl,
            fatal-Tracks l qs s t,
            refl,
            refl,
            refl,
          )
          | inl locked ↦
              let (s', l', e', t', calls, c, m) = expire_loop-Tracks H u now l qs s t in
              (
                s',
                l',
                take_expired now qs,
                drop_expired now qs,
                rw (t.in_table, e, due, idle s, locked, t.in_table) e',
                take-drop_expired now qs,
                t',
                ap told calls ∙ told-tell_timeouts H u (take_expired now qs) s.calls,
                c,
                m,
              )
        ]
      ]

  pub process_answers-defined :
      (inp : RoundInputs Table) (l : Items) (qs : List Query) (s : State Table)
      → IsQuiet inp
      → Tracks H u s l qs
      → (s' : State Table) × (process_answers H inp s ≡ some s')
        × Tracks H u s' l qs
        × (told s'.calls ≡ told s.calls)
        × (s'.contexts ≡ s.contexts)
        × (s'.context_at ≡ s.context_at)
  unfolding process_answers told
  process_answers-defined inp l qs s idle t = elim (Bool-cases inp.select_ok) [
    | inr failed ↦ (s, rw failed, t, refl, refl, refl)
    | inl ok ↦ elim (Bool-cases inp.process_ok) [
      | inl fine ↦ (s, rw (ok, idle.0 s, fine), t, refl, refl, refl)
      | inr error ↦
          (call fatal s, rw (ok, idle.0 s, error), fatal-Tracks l qs s t, refl, refl, refl)
    ]
  ]

  -- A round with no answers, and nobody else.
  pub process_round-Drops :
      (inp : RoundInputs Table) (l : Items) (qs : List Query) (s : State Table)
      → IsQuiet inp
      → Tracks H u s l qs
      → Drops qs s (process_round H u inp s)
  unfolding process_round
  process_round-Drops inp l qs s idle t =
      let (s₁, e₁, t₁, told₁, c₁, m₁) = process_answers-defined inp l qs s idle t in
      let (s₂, l₂, gone, rest, e₂, split, t₂, told₂, c₂, m₂) =
        check_queries-Drops inp.now inp.between inp.rdlock inp.wrlock l qs s₁ idle.1 t₁ in
      (s₂, l₂, gone, rest, rw e₁ e₂, split, t₂, told₂ ∙ ap (tells gone) told₁, c₂ ∙ c₁, m₂ ∙ m₁)

  -- At the end of the thread every tracked query is given up, whether or not the lock is acquired.
  pub stop_cleanup-Drops :
      (wrlock : Bool) (l : Items) (qs : List Query) (s : State Table)
      → Tracks H u s l qs
      → (s' : State Table) × (stop_cleanup H u wrlock s ≡ some s')
        × Tracks H u s' [] []
        × (told s'.calls ≡ tells qs (told s.calls))
        × (s'.contexts ≡ s.contexts)
        × (s'.context_at ≡ s.context_at)
  unfolding stop_cleanup told
  stop_cleanup-Drops true l qs s t =
      let (s', e, t', calls, c, m) = give_up_all-Tracks H u l qs s t in
      (s', rw (t.in_table) e, t', ap told calls ∙ told-tell_timeouts H u qs s.calls, c, m)
  stop_cleanup-Drops false l qs s t =
      let (s', e, t', calls, c, m) =
        give_up_all-Tracks H u l qs (call fatal s) (fatal-Tracks l qs s t) in
      (s', rw (t.in_table) e, t', ap told calls ∙ told-tell_timeouts H u qs (fatal ∷ s.calls), c, m)

module _ (H : Uthash) (u : ℕ) where
  open H use {Table, items}

  -- The peek reads the query at the head of the table.
  pub check_queries-freed :
      (now : ℕ) (between : State Table → Option (State Table)) (wrlock : Bool) (k : ℕ) (p : Ptr)
      (l : Items) (s : State Table)
      → items s.queries ≡ (k, p) ∷ l
      → s.query_at p ≡ none
      → check_queries H u now between true wrlock s ≡ none
  unfolding check_queries need_to_cancel
  check_queries-freed now between wrlock k p l s listed gone = rw (listed, gone)
