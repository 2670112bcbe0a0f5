-- ===== src/Tests/Names.antt =====
-- Host names out of answers of libunbound.
use unbound4j.Base.{◌≡◌, refl, inl, some, [], ◌∷◌, ◌++◌, Bytes, codes, drop, arith}
use unbound4j.Memory.{c_string}
use unbound4j.Uthash.{Items, list_table}
use unbound4j.Sldns.Dname.Wire.{wire}
use unbound4j.Engine.State.{State}
use unbound4j.Engine.Query.{host_name}
use unbound4j.Engine.Query.HostName.{found, host_name-Reads, host_name-unterminated}
use unbound4j.Engine.Answer.{answer}
use unbound4j.Engine.Runs.{May, Reach, Kept}
use unbound4j.Engine.Tracking.{outstanding}
use unbound4j.Engine.Lifecycle.{Reach-Kept}
use unbound4j.Engine.Shutdown.{Reach-answered}
use unbound4j.Tests.States.{context, idle, idle-Kept, looked_up, run}
use unbound4j.Tests.Sldns.{labels}

abbrev thirty_two : Bytes
thirty_two = codes "0123456789abcdef0123456789abcdef"

abbrev sixty_four : Bytes
sixty_four = thirty_two ++ thirty_two

-- What `malloc(256)` gives.
abbrev pub buffer : Bytes
buffer = (sixty_four ++ sixty_four) ++ (sixty_four ++ sixty_four)

host_name-Reads_example :
    (text : Bytes) × (host_name 0 (found (wire labels ++ []) 7 12) (some buffer) ≡ some (some text))
    × (c_string text ≡ some (codes "a.b\\.c."))
host_name-Reads_example =
    host_name-Reads labels [] buffer 7 12 (omega arith) (omega arith) (omega arith) (omega arith)
      refl

host_name-unterminated_example :
    host_name 0 (found (3 ∷ codes "abc") 4 12) (some buffer)
    ≡ some (some (codes "abc" ++ drop 3 buffer))
host_name-unterminated_example =
    host_name-unterminated (codes "abc") buffer 12 (omega arith) (ground arith) refl

pub May-answer : May 50 3 300 (outstanding looked_up.calls)
unfolding outstanding
May-answer = inl (refl, refl, refl)

Reach-answered_example :
    (z : State Items) × (answer list_table 50 3 300 0
        (found (wire labels ++ []) 7 12)
        (some buffer)
        looked_up
      ≡ some z)
    × Reach list_table 50 100 idle z (11 ∷ [])
    × Kept list_table 50 100 context z (11 ∷ [])
Reach-answered_example =
    Reach-answered list_table 50 100 context refl idle looked_up (11 ∷ []) 3 300 0
      (found (wire labels ++ []) 7 12) buffer idle-Kept run May-answer
      ((omega arith), (omega arith), (omega arith)) refl

pub looked_up-Kept : Kept list_table 50 100 context looked_up (11 ∷ [])
looked_up-Kept = Reach-Kept list_table 50 100 context refl idle looked_up (11 ∷ []) run idle-Kept
