-- ===== src/SymbolTable/Concurrency.antt =====
-- Threads that call `get_symbol` of symbol_table/symbol_table.cc at once. A call reads the
-- published snapshot, and later, with other calls in between, answers from what it read or takes
-- the lock; what happens under the lock is one step.
use Prim.Native.String.{String}
use stocas.Common.{ℕ, zero, suc, ◌≡◌, List, [], ◌∷◌, some, get_elem?}
use stocas.SymbolTable.Attributes.{SymbolAttribute}
use stocas.SymbolTable.{Location, Snapshot, empty, get_symbol_from}
use stocas.SymbolTable.Registry.{
  IsConsistent, Extends, Extends-refl, Extends-trans, empty-IsConsistent,
  insert_or_validate-Extends,
}
use stocas.SymbolTable.Interning.{get_symbol_from_stale, get_symbol_from-eq-insert}

-- The published snapshot, and those that calls under way have read.
pub record Machine : Type 0 where
  pub published : Snapshot
  pub seen : List Snapshot

pub data Step : Machine → Machine → Type 0 where
  read : (m : Machine) → Step m (record m { seen = m.published ∷ m.seen })
  finish :
      (m : Machine) (i : ℕ) (s : Snapshot) (q : String) (attrs : List SymbolAttribute)
      (loc : Location)
      → get_elem? m.seen i ≡ some s
      → Step m (record m { published = (get_symbol_from s m.published q attrs loc).0 })

pub data Reach : Machine → Type 0 where
  start : Reach (record { published = empty; seen = [] })
  next : {m n : Machine} → Reach m → Step m n → Reach n

pub record IsSafe (m : Machine) : Type 0 where
  pub consistent : IsConsistent m.published
  pub older :
      (i : ℕ) (s : Snapshot) → get_elem? m.seen i ≡ some s → IsConsistent s × Extends s m.published

published_next :
    (s current : Snapshot) (q : String) (attrs : List SymbolAttribute) (loc : Location)
    → IsConsistent s
    → IsConsistent current
    → Extends s current
    → IsConsistent (get_symbol_from s current q attrs loc).0
      × Extends current (get_symbol_from s current q attrs loc).0
published_next s current q attrs loc c c' x =
    rw (get_symbol_from-eq-insert s current q attrs loc c x)
      (insert_or_validate-Extends current q attrs loc c')

read-older :
    (m : Machine)
    → IsSafe m
    → (i : ℕ) (s : Snapshot) → get_elem? (m.published ∷ m.seen) i ≡ some s
    → IsConsistent s × Extends s m.published
read-older m safe zero s h =
    let e : m.published ≡ s = cc in rw (← e) (safe.consistent, Extends-refl m.published)
read-older m safe (suc i) s h = safe.older i s h

Step-IsSafe : {m n : Machine} → Step m n → IsSafe m → IsSafe n
Step-IsSafe (read m) safe = record { consistent = safe.consistent; older = read-older m safe }
Step-IsSafe (finish m i s q attrs loc at) safe =
    let (c, x) = safe.older i s at in
    let (c', grown) = published_next s m.published q attrs loc c safe.consistent x in
    record {
      consistent = c';
      older = λ j t h. ((safe.older j t h).0, Extends-trans (safe.older j t h).1 grown);
    }

Reach-IsSafe : {m : Machine} → Reach m → IsSafe m
Reach-IsSafe start = record { consistent = empty-IsConsistent; older = λ i s h. cc }
Reach-IsSafe (next r st) = Step-IsSafe st (Reach-IsSafe r)

-- In every reachable interleaving of calls the published table is consistent, and a call that
-- read any snapshot seen so far has the outcome and leaves the table of a call run without
-- interruption on the published one.
pub Reach-linearizable :
    (m : Machine) (i : ℕ) (s : Snapshot) (q : String) (attrs : List SymbolAttribute)
    (loc : Location)
    → Reach m
    → get_elem? m.seen i ≡ some s
    → IsConsistent m.published
      × (get_symbol_from s m.published q attrs loc
          ≡ get_symbol_from m.published m.published q attrs loc)
Reach-linearizable m i s q attrs loc r h =
    let safe = Reach-IsSafe r in
    let (c, x) = safe.older i s h in
    (safe.consistent, get_symbol_from_stale s m.published q attrs loc c safe.consistent x)

-- A step from a reachable state keeps every entry under its id, and every name at its id.
pub Step-Extends : (m n : Machine) → Reach m → Step m n → Extends m.published n.published
Step-Extends m n r (read _) = Extends-refl m.published
Step-Extends m n r (finish _ i s q attrs loc at) =
    let safe = Reach-IsSafe r in
    let (c, x) = safe.older i s at in
    (published_next s m.published q attrs loc c safe.consistent x).1
