-- ===== src/Driver/Turns.antt =====
-- A turn of a lookup thread.
use unbound4j.Base.{
  ℕ, zero, suc, ◌+◌, ◌*◌, ◌/◌, ◌%◌, ◌≤◌, ◌≡◌, refl, ap, subst, ◌∙◌, inl, inr, Bool, true, false,
  Option, none, some, List, [], ◌∷◌, ◌++◌, Bytes, AreBytes, length, length-append, if◌then◌else◌,
  arith, Bool-cases,
}
use unbound4j.Uthash.{Ptr, Uthash}
use unbound4j.Engine.State.{Context, State}
use unbound4j.Engine.Query.{
  LookupError, read_lock, alloc_domain, LookupInputs, reverse_lookup, reverse_lookup_domain,
}
use unbound4j.Engine.Submit.{Unused, track-Accepts}
use unbound4j.Engine.Runs.{accepted, Step, lookup, Reach, next, Kept}
use unbound4j.Engine.Lifecycle.{Reach-Kept}
use unbound4j.Engine.Contexts.{Reach-contexts}
use unbound4j.Dnsutils.Addresses.{build_reverse_lookup_domain_v4-Builds}
use unbound4j.Driver.{Action, print_failure, int_bytes, generate, lookups, thread_routine}
use unbound4j.Driver.Addresses.{generated}

abbrev four : ℕ → ℕ → ℕ → ℕ → Bytes
four a b c d = a ∷ b ∷ c ∷ d ∷ []

-- The lookups that were accepted, by their userdata, NULL.
abbrev pub nulls : ℕ → List ℕ
nulls zero = []
nulls (suc n) = 0 ∷ nulls n

module _ (H : Uthash) (u : ℕ) (cp : Ptr) (c : Context) (mine : c.ub_ctx ≡ u) where
  open H use {Table, items, find}

  -- A lookup of four bytes returns on every branch.
  reverse_lookup-defined :
      (inp : LookupInputs) (ctx_id w x y z userdata callback : ℕ) (s : State Table) (vs : List ℕ)
      → AreBytes (four w x y z)
      → 32 ≤ length inp.stack
      → find ctx_id s.contexts ≡ some cp
      → Kept H u cp c s vs
      → Unused H u inp (items s.queries) s
      → (r : Option LookupError) × (s' : State Table) × (reverse_lookup H some inp ctx_id
            (four w x y z)
            userdata
            callback
            s
          ≡ some (r, s'))
  unfolding reverse_lookup reverse_lookup_domain
  reverse_lookup-defined inp ctx_id w x y z userdata callback s vs bytes room found kept new =
      let (l, qs, t, counts) = kept.queue in
      let new' : Unused H u inp l s = subst (λ x. Unused H u inp x s) t.in_table new in
      elim (Bool-cases inp.rdlock) [
        | inr busy ↦ (some read_lock, s, rw busy)
        | inl locked ↦
            let (name, built, _, _) =
              build_reverse_lookup_domain_v4-Builds w x y z inp.stack inp.domain_memory bytes
                room in
            let (r, s', e, _, _, _, _) =
              track-Accepts H u inp name userdata callback cp c l qs s t kept.context mine new' in
            elim (Bool-cases inp.domain_memory) [
              | inr full ↦ (
                some alloc_domain,
                s,
                rw (
                  locked,
                  found,
                  built ∙ ap (λ (b : Bool). some (if b then some name else none)) full,
                ),
              )
              | inl memory ↦ (
                r,
                s',
                rw (
                  locked,
                  found,
                  built ∙ ap (λ (b : Bool). some (if b then some name else none)) memory,
                  e,
                ),
              )
            ]
      ]

  -- The inputs of the lookups fit the states that they meet.
  abbrev pub Supplied : Bool → ℕ → List LookupInputs → List ℕ → State Table → Type 0
  Supplied little callback [] ips s = Unit {0}
  Supplied little callback (inp ∷ inps) [] s = Unit {0}
  Supplied little callback (inp ∷ inps) (ip ∷ ips) s =
      (32 ≤ length inp.stack)
      × Unused H u inp (items s.queries) s
      × ((r : Option LookupError) (s' : State Table)
          → reverse_lookup H some inp c.id (int_bytes little ip) 0 callback s ≡ some (r, s')
          → Supplied little callback inps ips s')

  int_bytes-lookup :
      (little : Bool) (ip : ℕ) (inp : LookupInputs) (callback : ℕ) (s : State Table) (vs : List ℕ)
      → 32 ≤ length inp.stack
      → find c.id s.contexts ≡ some cp
      → Kept H u cp c s vs
      → Unused H u inp (items s.queries) s
      → (r : Option LookupError) × (s' : State Table) × (reverse_lookup H some inp c.id
            (int_bytes little ip)
            0
            callback
            s
          ≡ some (r, s'))
  unfolding int_bytes
  int_bytes-lookup true ip inp callback s vs room found kept new =
      reverse_lookup-defined inp c.id (ip % 256) (ip / 256 % 256) (ip / 65536 % 256)
        (ip / 16777216 % 256) 0 callback s vs
        (omega arith, (omega arith, (omega arith, (omega arith, tt)))) room found kept new
  int_bytes-lookup false ip inp callback s vs room found kept new =
      reverse_lookup-defined inp c.id (ip / 16777216 % 256) (ip / 65536 % 256) (ip / 256 % 256)
        (ip % 256) 0 callback s vs (omega arith, (omega arith, (omega arith, (omega arith, tt))))
        room found kept new

  -- The lookups are steps of a run, and each of them was accepted or printed a failure.
  abbrev pub Runs : State Table → ℕ → Option (List Action × State Table) → Type 0
  Runs s₀ n result =
      (out : List Action) × (s' : State Table) × (k : ℕ) × (result ≡ some (out, s'))
      × Reach H u cp s₀ s' (nulls k)
      × (k + length out ≡ n)

  lookups-next :
      (little : Bool) (callback : ℕ) (inp : LookupInputs) (inps : List LookupInputs) (ip : ℕ)
      (ips : List ℕ) (s₀ s s₁ : State Table) (n : ℕ) (r : Option LookupError)
      → s.context_at cp ≡ some c
      → reverse_lookup H some inp c.id (int_bytes little ip) 0 callback s ≡ some (r, s₁)
      → Step H u cp s s₁ (accepted r 0)
      → Reach H u cp s₀ s (nulls n)
      → ((k : ℕ)
          → Reach H u cp s₀ s₁ (nulls k)
          → Runs s₀ (k + length ips) (lookups H little cp callback inps ips s₁))
      → Runs s₀ (n + suc (length ips)) (lookups H little cp callback (inp ∷ inps) (ip ∷ ips) s)
  unfolding lookups
  lookups-next little callback inp inps ip ips s₀ s s₁ n none at e step run rest =
      let (out, s', k, e', run', sum) = rest (suc n) (next run step refl) in
      (out, s', k, rw (at, e, e'), run', omega arith)
  lookups-next little callback inp inps ip ips s₀ s s₁ n (some error) at e step run rest =
      let (out, s', k, e', run', sum) = rest n (next run step refl) in
      (print_failure error ∷ out, s', k, rw (at, e, e'), run', omega arith)

  lookups-Runs :
      (little : Bool) (callback : ℕ) (inps : List LookupInputs) (ips : List ℕ) (s₀ s : State Table)
      (n : ℕ)
      → length inps ≡ length ips
      → Kept H u cp c s₀ []
      → Reach H u cp s₀ s (nulls n)
      → find c.id s₀.contexts ≡ some cp
      → Supplied little callback inps ips s
      → Runs s₀ (n + length ips) (lookups H little cp callback inps ips s)
  unfolding lookups
  lookups-Runs little callback [] [] s₀ s n size start run found fits =
      ([], s, n, refl, run, omega arith)
  lookups-Runs little callback [] (ip ∷ ips) s₀ s n size start run found fits = absurd (omega arith)
  lookups-Runs little callback (inp ∷ inps) [] s₀ s n size start run found fits =
      absurd (omega arith)
  lookups-Runs little callback (inp ∷ inps) (ip ∷ ips) s₀ s n size start run found
        (room, new, later) =
      let kept = Reach-Kept H u cp c mine s₀ s (nulls n) run start in
      let found' : find c.id s.contexts ≡ some cp =
        ap (find c.id) (Reach-contexts H u cp c mine s₀ s (nulls n) [] run start) ∙ found in
      let (r, s₁, e) = int_bytes-lookup little ip inp callback s (nulls n) room found' kept new in
      lookups-next little callback inp inps ip ips s₀ s s₁ n r kept.context e
        (lookup inp c.id (int_bytes little ip) 0 callback r found' new e) run
        (λ k run'.
          lookups-Runs little callback inps ips s₀ s₁ k (omega arith) start run' found
            (later r s₁ e))

  -- The inputs of the turns, three lookups each.
  abbrev pub AllSupplied : Bool → ℕ → List (List LookupInputs) → ℕ → State Table → Type 0
  AllSupplied little callback [] g s = Unit {0}
  AllSupplied little callback (inps ∷ turns) g s =
      (length inps ≡ 3)
      × Supplied little callback inps (generate g).0 s
      × ((out : List Action) (s' : State Table)
          → lookups H little cp callback inps (generate g).0 s ≡ some (out, s')
          → AllSupplied little callback turns (generate g).1 s')

  -- If malloc and libunbound supply the lookups of n turns of a lookup thread that runs alone, on
  -- a state of a run that knows its context, then thread_routine_r is defined: each of its 3n
  -- lookups was accepted or printed a failure, they are steps of a run, and the generator is that
  -- of n turns.
  pub thread_routine-Runs :
      (little : Bool) (callback : ℕ) (turns : List (List LookupInputs)) (g : ℕ) (s₀ s : State Table)
      (n : ℕ)
      → Kept H u cp c s₀ []
      → Reach H u cp s₀ s (nulls n)
      → find c.id s₀.contexts ≡ some cp
      → AllSupplied little callback turns g s
      → (out : List Action) × (s' : State Table) × (k : ℕ) × (thread_routine H little cp callback
            turns g s
          ≡ some (out, (generated (length turns) g).1, s'))
        × Reach H u cp s₀ s' (nulls k)
        × (k + length out ≡ n + 3 * length turns)
  unfolding thread_routine generate
  thread_routine-Runs little callback [] g s₀ s n start run found fits =
      ([], s, n, refl, run, omega arith)
  thread_routine-Runs little callback (inps ∷ turns) g s₀ s n start run found (size, now, later) =
      let (out, s₁, k, e, run₁, sum) =
        lookups-Runs little callback inps (generate g).0 s₀ s n size start run found now in
      let (out', s', k', e', run', sum') =
        thread_routine-Runs little callback turns (generate g).1 s₀ s₁ k start run₁ found
          (later out s₁ e) in
      (out ++ out', s', k', rw (e, e'), run', omega (arith, length-append out out'))
