-- ===== src/SymbolTable/Examples.antt =====
-- Runs of symbol_table/symbol_table.cc.
use stocas.Common.{◌≡◌, ◌⊎◌, refl, List, [], ◌∷◌, some, get_elem?}
use stocas.SymbolTable.Attributes.{SymbolAttribute, symmetric, linear, SameSets}
use stocas.SymbolTable.{
  Location, Entry, Snapshot, empty, symbol, conflict, get_symbol, get_symbol_from,
}
use stocas.SymbolTable.Registry.{IsConsistent, empty-IsConsistent}
use stocas.SymbolTable.Interning.{get_symbol_again}
use stocas.SymbolTable.Concurrency.{Machine, Step, Reach, Reach-linearizable}

abbrev here : Location
here = ("matcher.cc", 7)

abbrev both_ways : List SymbolAttribute
both_ways = linear ∷ symmetric ∷ []

abbrev with_dot : Snapshot
with_dot = record {
  entries =
      record { qualified_name = "pattern::dot"; attributes = both_ways; location = here } ∷ [];
  index_by_qualified_name = ("pattern::dot", 0) ∷ [];
}

first_run : get_symbol empty "pattern" "dot" both_ways here ≡ (with_dot, symbol 0)
unfolding get_symbol
first_run = refl

get_symbol_again_example :
    (SameSets [] both_ways × (get_symbol with_dot "pattern" "dot" [] here ≡ (with_dot, symbol 0)))
    ⊎ ((¬ SameSets [] both_ways)
        × ((e : Entry) × (get_elem? with_dot.entries 0 ≡ some e)
            × (get_symbol with_dot "pattern" "dot" [] here ≡ (with_dot, conflict e))))
get_symbol_again_example =
    get_symbol_again empty with_dot "pattern" "dot" both_ways [] here here 0 empty-IsConsistent
      first_run

-- Two calls have read the empty table; one has registered.
abbrev two_readers : Machine
two_readers = record { published = empty; seen = empty ∷ empty ∷ [] }

abbrev one_registered : Machine
one_registered = record {
  published = (get_symbol_from empty empty "a::x" [] here).0;
  seen = empty ∷ empty ∷ [];
}

two_readers-Reach : Reach two_readers
two_readers-Reach = Reach.next (Reach.next Reach.start (Step.read _)) (Step.read _)

one_registered-Step : Step two_readers one_registered
one_registered-Step = Step.finish two_readers 0 empty "a::x" [] here refl

Reach-linearizable_example :
    IsConsistent one_registered.published
    × (get_symbol_from empty one_registered.published "a::x" [] here
        ≡ get_symbol_from one_registered.published one_registered.published "a::x" [] here)
Reach-linearizable_example =
    Reach-linearizable one_registered 1 empty "a::x" [] here
      (Reach.next two_readers-Reach one_registered-Step) refl
