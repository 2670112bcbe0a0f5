-- ===== src/Engine/Context/Start.antt =====
-- `ub4j_init` at the start of the program.
use unbound4j.Base.{◌≡◌, refl, Bool, true, false, []}
use unbound4j.Uthash.{Uthash}
use unbound4j.Engine.State.{initial}
use unbound4j.Engine.Tracking.{outstanding, told}
use unbound4j.Engine.Context.{init}

module _ (H : Uthash) where
  -- The locks log at most: what the program starts with stays.
  pub init-initial :
      (ctx_lock query_lock cfg_lock : Bool)
      → let s = init ctx_lock query_lock cfg_lock (initial H) in
        (s.contexts ≡ H.empty)
        × (s.queries ≡ H.empty)
        × (s.ctx_id_generator ≡ 1)
        × (outstanding s.calls ≡ [])
        × (told s.calls ≡ [])
  unfolding init outstanding told
  init-initial true true true = (refl, refl, refl, refl, refl)
  init-initial true true false = (refl, refl, refl, refl, refl)
  init-initial true false true = (refl, refl, refl, refl, refl)
  init-initial true false false = (refl, refl, refl, refl, refl)
  init-initial false true true = (refl, refl, refl, refl, refl)
  init-initial false true false = (refl, refl, refl, refl, refl)
  init-initial false false true = (refl, refl, refl, refl, refl)
  init-initial false false false = (refl, refl, refl, refl, refl)
