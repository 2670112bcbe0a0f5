-- ===== src/Engine/Thread/Order.antt =====
-- Queues in the order of expiry.
use unbound4j.Base.{ℕ, ◌≤◌, List, [], ◌∷◌, ◌++◌, All, arith}
use unbound4j.Engine.State.{Query}
use unbound4j.Engine.Thread.Deadline.{ExpiresAfter, IsOrdered}

abbrev pub ExpiresBy : ℕ → List Query → Type 0
ExpiresBy t = All (λ q. q.expires_at_epoch_sec ≤ t)

pub ExpiresBy-mono : (t t' : ℕ) (qs : List Query) → t ≤ t' → ExpiresBy t qs → ExpiresBy t' qs
ExpiresBy-mono t t' [] h e = tt
ExpiresBy-mono t t' (q ∷ qs) h (e, es) = (omega arith, ExpiresBy-mono t t' qs h es)

pub ExpiresBy-append :
    (t : ℕ) (xs ys : List Query) → ExpiresBy t xs → ExpiresBy t ys → ExpiresBy t (xs ++ ys)
ExpiresBy-append t [] ys a b = b
ExpiresBy-append t (x ∷ xs) ys (a, as') b = (a, ExpiresBy-append t xs ys as' b)

pub ExpiresBy-left : (t : ℕ) (xs ys : List Query) → ExpiresBy t (xs ++ ys) → ExpiresBy t xs
ExpiresBy-left t [] ys a = tt
ExpiresBy-left t (x ∷ xs) ys (a, b) = (a, ExpiresBy-left t xs ys b)

pub ExpiresBy-right : (t : ℕ) (xs ys : List Query) → ExpiresBy t (xs ++ ys) → ExpiresBy t ys
ExpiresBy-right t [] ys a = a
ExpiresBy-right t (x ∷ xs) ys (_, b) = ExpiresBy-right t xs ys b

ExpiresAfter-append :
    (t : ℕ) (xs : List Query) (q : Query)
    → ExpiresAfter t xs
    → t ≤ q.expires_at_epoch_sec
    → ExpiresAfter t (xs ++ q ∷ [])
ExpiresAfter-append t [] q a b = (b, tt)
ExpiresAfter-append t (x ∷ xs) q (a, as') b = (a, ExpiresAfter-append t xs q as' b)

ExpiresAfter-without :
    (t : ℕ) (xs ys : List Query) (q : Query)
    → ExpiresAfter t (xs ++ q ∷ ys)
    → ExpiresAfter t (xs ++ ys)
ExpiresAfter-without t [] ys q (_, a) = a
ExpiresAfter-without t (x ∷ xs) ys q (a, as') = (a, ExpiresAfter-without t xs ys q as')

-- A query that expires last joins the end.
pub IsOrdered-append :
    (qs : List Query) (q : Query)
    → IsOrdered qs
    → ExpiresBy q.expires_at_epoch_sec qs
    → IsOrdered (qs ++ q ∷ [])
IsOrdered-append [] q o b = (tt, tt)
IsOrdered-append (x ∷ qs) q (a, o) (b, bs) =
    (ExpiresAfter-append x.expires_at_epoch_sec qs q a b, IsOrdered-append qs q o bs)

-- A query leaves from the middle.
pub IsOrdered-without :
    (xs ys : List Query) (q : Query) → IsOrdered (xs ++ q ∷ ys) → IsOrdered (xs ++ ys)
IsOrdered-without [] ys q (_, o) = o
IsOrdered-without (x ∷ xs) ys q (a, o) =
    (ExpiresAfter-without x.expires_at_epoch_sec xs ys q a, IsOrdered-without xs ys q o)

-- The front leaves.
pub IsOrdered-right : (xs ys : List Query) → IsOrdered (xs ++ ys) → IsOrdered ys
IsOrdered-right [] ys o = o
IsOrdered-right (x ∷ xs) ys (_, o) = IsOrdered-right xs ys o
