-- ===== src/SymbolTable.antt =====
-- symbol_table/symbol_table.cc and its header: the append-only table of interned symbols.
-- A Snapshot is immutable; the atomic pointer to the published one is the state.
pub mod Attributes
pub mod Registry
pub mod Interning
pub mod Concurrency
mod Examples
use Prim.Native.String.{String, ◌++◌ as str_append}
use text.Mathlib.Text.{◌==◌ as str_eq}
use stocas.Common.{
  ℕ, Bool, true, false, ◌≡◌, List, [], ◌∷◌, ◌++◌, Option, none, some, if◌then◌else◌, length,
  get_elem?,
}
use stocas.SymbolTable.Attributes.{SymbolAttribute, same_attributes}

-- `file_name()` and `line()` of a std::source_location.
abbrev pub Location : Type 0
Location = String × ℕ

pub record Entry : Type 0 where
  pub qualified_name : String
  pub attributes : List SymbolAttribute
  pub location : Location

-- `index_by_qualified_name` as an association list; `emplace` keeps the first value of a key.
pub record Snapshot : Type 0 where
  pub entries : List Entry
  pub index_by_qualified_name : List (String × ℕ)

unfoldable pub find : String → List (String × ℕ) → Option ℕ
find k [] = none
find k ((j, i) ∷ m) = if str_eq j k then some i else find k m

unfoldable pub emplace : String → ℕ → List (String × ℕ) → List (String × ℕ)
emplace k i [] = (k, i) ∷ []
emplace k i ((j, v) ∷ m) = if str_eq j k then (j, v) ∷ m else (j, v) ∷ emplace k i m

-- `new Snapshot{}`.
abbrev pub empty : Snapshot
empty = record { entries = []; index_by_qualified_name = [] }

-- A handle's `id()`, or the entry that std::logic_error names; `out_of_range` is thrown by `at`.
pub data Registration : Type 0 where
  symbol : ℕ → Registration
  conflict : Entry → Registration
  out_of_range : Registration

-- Both places that find a name check it so.
unfoldable pub validate : Snapshot → List SymbolAttribute → ℕ → Registration
unfolding same_attributes
validate s attributes id = elim (get_elem? s.entries id) [
  | none ↦ out_of_range
  | some e ↦ if same_attributes attributes e.attributes then symbol id else conflict e
]

abbrev pub push : Snapshot → Entry → Snapshot
push s e = record {
  entries = s.entries ++ e ∷ [];
  index_by_qualified_name = emplace e.qualified_name (length s.entries) s.index_by_qualified_name;
}

-- `GlobalTable::insert_or_validate`, which holds the writer's lock: the published snapshot
-- afterwards, and the outcome.
unfoldable pub insert_or_validate :
    Snapshot → String → List SymbolAttribute → Location → Snapshot × Registration
unfolding find validate emplace
insert_or_validate current qualified attributes location =
    elim (find qualified current.index_by_qualified_name) [
      | some id ↦ (current, validate current attributes id)
      | none ↦ (
        push current
            (record { qualified_name = qualified; attributes = attributes; location = location }),
        symbol (length current.entries),
      )
    ]

unfoldable pub qualify : String → String → String
qualify namespace_name name = str_append (str_append namespace_name "::") name

-- `get_symbol`. Its first read sees the snapshot `seen`; by the time that it holds the lock the
-- published one may be a later one, `current`.
unfoldable pub get_symbol_from :
    Snapshot → Snapshot → String → List SymbolAttribute → Location → Snapshot × Registration
unfolding find validate insert_or_validate
get_symbol_from seen current qualified attributes location =
    elim (find qualified seen.index_by_qualified_name) [
      | some id ↦ (current, validate seen attributes id)
      | none ↦ insert_or_validate current qualified attributes location
    ]

-- With no other thread between the read and the lock.
unfoldable pub get_symbol :
    Snapshot → String → String → List SymbolAttribute → Location → Snapshot × Registration
unfolding get_symbol_from qualify
get_symbol s namespace_name name attributes location =
    get_symbol_from s s (qualify namespace_name name) attributes location

unfoldable pub symbol_name : Snapshot → ℕ → Option String
symbol_name s id = elim (get_elem? s.entries id) [ none ↦ none | some e ↦ some e.qualified_name ]

unfoldable pub symbol_attributes : Snapshot → ℕ → Option (List SymbolAttribute)
symbol_attributes s id = elim (get_elem? s.entries id) [ none ↦ none | some e ↦ some e.attributes ]
