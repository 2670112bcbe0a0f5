-- ===== src/Uthash.antt =====
-- The hash tables of jni/src/uthash.h as its callers use them: `HASH_ADD_INT`, `HASH_FIND_INT`,
-- `HASH_DEL` and `HASH_ITER`. The library is a parameter: a table, its operations, and what the
-- user guide of uthash says of them. A key is the bit pattern of an `int`; an item is a pointer.
use unbound4j.Base.{
  ℕ, ◌≡◌, refl, ◌⊎◌, Bool, true, false, ◌||◌, Option, none, some, List, [], ◌∷◌, ◌++◌, arith, ◌==◌,
  if◌then◌else◌,
}

abbrev pub Ptr : Type 0
Ptr = ℕ

abbrev pub Items : Type 0
Items = List (ℕ × Ptr)

-- The item with the pointer `p` is taken out.
unfoldable pub remove : Ptr → Items → Items
remove p [] = []
remove p ((k, q) ∷ l) = if q == p then l else (k, q) ∷ remove p l

unfoldable pub has_item : Ptr → Items → Bool
has_item p [] = false
has_item p ((k, q) ∷ l) = q == p || has_item p l

-- The key `k` leads to the pointer `p`.
abbrev pub Maps : ℕ → Ptr → Items → Type 0
Maps k p [] = ⊥
Maps k p ((j, q) ∷ l) = ((j ≡ k) × (q ≡ p)) ⊎ Maps k p l

abbrev pub Lacks : ℕ → Items → Type 0
Lacks k [] = Unit {0}
Lacks k ((j, q) ∷ l) = ¬ (j ≡ k) × Lacks k l

pub record Uthash : Type 1 where
  pub Table : Type 0
  pub empty : Table
  -- the items in the order of `HASH_ITER`
  pub items : Table → Items
  pub find : ℕ → Table → Option Ptr
  pub add : ℕ → Ptr → Table → Table
  pub del : Ptr → Table → Table
  pub items-empty : items empty ≡ []
  -- a new item comes last
  pub items-add : (k : ℕ) (p : Ptr) (t : Table) → items (add k p t) ≡ items t ++ (k, p) ∷ []
  -- an item of the table can be deleted; nothing is said of any other pointer
  pub items-del :
      (p : Ptr) (t : Table) → has_item p (items t) ≡ true → items (del p t) ≡ remove p (items t)
  pub find-some : (k : ℕ) (p : Ptr) (t : Table) → find k t ≡ some p → Maps k p (items t)
  pub find-none : (k : ℕ) (t : Table) → find k t ≡ none → Lacks k (items t)

-- A table that meets them: the list of its items.
unfoldable pub lookup_item : ℕ → Items → Option Ptr
lookup_item k [] = none
lookup_item k ((j, p) ∷ l) = if j == k then some p else lookup_item k l

pub lookup_item-some : (k : ℕ) (p : Ptr) (l : Items) → lookup_item k l ≡ some p → Maps k p l
unfolding lookup_item
lookup_item-some k p [] h = cc
lookup_item-some k p ((j, q) ∷ l) h = ground (arith, lookup_item-some k p l)

pub lookup_item-none : (k : ℕ) (l : Items) → lookup_item k l ≡ none → Lacks k l
unfolding lookup_item
lookup_item-none k [] h = tt
lookup_item-none k ((j, q) ∷ l) h = ground (arith, lookup_item-none k l)

abbrev pub list_table : Uthash
list_table = record {
  Table = Items;
  empty = [];
  items = λ t. t;
  find = lookup_item;
  add = λ k p t. t ++ (k, p) ∷ [];
  del = remove;
  items-empty = refl;
  items-add = λ k p t. refl;
  items-del = λ p t h. refl;
  find-some = lookup_item-some;
  find-none = lookup_item-none;
}
