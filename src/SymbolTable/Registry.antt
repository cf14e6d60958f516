-- ===== src/SymbolTable/Registry.antt =====
-- Registration and lookup of symbol_table/symbol_table.cc.
use Prim.Native.String.{String}
use text.Mathlib.Text.{◌==◌ as str_eq}
use text.Mathlib.TextEquality.{eq_iff}
use text.Mathlib.TextPositions.{eq_refl}
use stocas.Common.{
  ℕ, zero, suc, ◌≡◌, ◌⊎◌, refl, sym, ap, ◌∙◌, inl, inr, List, [], ◌∷◌, ◌++◌, none, some, length,
  get_elem?, arith, if◌then◌else◌, Bool-cases, Option-cases, get_elem?-append_left,
  get_elem?-append_length, lt-length_of_get_elem?,
}
use stocas.SymbolTable.Attributes.{SymbolAttribute}
use stocas.SymbolTable.{Location, Entry, Snapshot, find, emplace, empty, push, insert_or_validate}

abbrev Index : Type 0
Index = List (String × ℕ)

find-emplace :
    (k j : String) (i : ℕ) (m : Index)
    → find k m ≡ none
    → find j (emplace k i m) ≡ (if str_eq k j then some i else find j m)
unfolding find emplace
find-emplace k j i [] h = refl
find-emplace k j i ((x, v) ∷ m) h =
    ground (arith, eq_iff x k, eq_iff k j, eq_iff x j, find-emplace k j i m)

-- The index and the entries name one another.
pub record IsConsistent (s : Snapshot) : Type 0 where
  pub named :
      (k : String) (i : ℕ)
      → find k s.index_by_qualified_name ≡ some i
      → (e : Entry) × (get_elem? s.entries i ≡ some e) × (e.qualified_name ≡ k)
  pub indexed :
      (i : ℕ) (e : Entry)
      → get_elem? s.entries i ≡ some e
      → find e.qualified_name s.index_by_qualified_name ≡ some i

-- What was registered stays, under its id.
pub record Extends (old new : Snapshot) : Type 0 where
  pub entry_kept :
      (i : ℕ) (e : Entry) → get_elem? old.entries i ≡ some e → get_elem? new.entries i ≡ some e
  pub id_kept :
      (k : String) (i : ℕ)
      → find k old.index_by_qualified_name ≡ some i
      → find k new.index_by_qualified_name ≡ some i

pub Extends-refl : (s : Snapshot) → Extends s s
Extends-refl s = record { entry_kept = λ i e h. h; id_kept = λ k i h. h }

pub Extends-trans : {r s t : Snapshot} → Extends r s → Extends s t → Extends r t
Extends-trans a b = record {
  entry_kept = λ i e h. b.entry_kept i e (a.entry_kept i e h);
  id_kept = λ k i h. b.id_kept k i (a.id_kept k i h);
}

pub empty-IsConsistent : IsConsistent empty
unfolding find
empty-IsConsistent = record { named = λ k i h. cc; indexed = λ i e h. cc }

get_elem?-append_cases :
    (es : List Entry) (d : Entry) (i : ℕ) (e : Entry)
    → get_elem? (es ++ d ∷ []) i ≡ some e
    → (get_elem? es i ≡ some e) ⊎ ((i ≡ length es) × (e ≡ d))
get_elem?-append_cases [] d zero e h = inr (refl, cc)
get_elem?-append_cases [] d (suc i) e h = cc
get_elem?-append_cases (x ∷ es) d zero e h = inl h
get_elem?-append_cases (x ∷ es) d (suc i) e h = elim (get_elem?-append_cases es d i e h) [
  | inl old ↦ inl old
  | inr (p, q) ↦ inr (ap suc p, q)
]

module _ (s : Snapshot) (d : Entry)
    (fresh : find d.qualified_name s.index_by_qualified_name ≡ none) where
  push-Extends : Extends s (push s d)
  push-Extends = record {
    entry_kept = λ i e h.
        get_elem?-append_left s.entries (d ∷ []) i (lt-length_of_get_elem? s.entries i h) ∙ h;
    id_kept = λ k i h.
        find-emplace d.qualified_name k (length s.entries) s.index_by_qualified_name fresh
        ∙ ground (arith, eq_iff d.qualified_name k);
  }

  push-IsConsistent : IsConsistent s → IsConsistent (push s d)
  push-IsConsistent c = record {
    named = λ k i h. elim (Bool-cases (str_eq d.qualified_name k)) [
      | inl same ↦
          let at : some (length s.entries) ≡ some i =
            (rw same at (
              sym (
                find-emplace d.qualified_name k (length s.entries) s.index_by_qualified_name
                  fresh)))
            ∙ h in
          let e : length s.entries ≡ i = ground arith in
          (d, rw (← e) (get_elem?-append_length s.entries d), (eq_iff _ _).0 same)
      | inr other ↦
          let old : find k s.index_by_qualified_name ≡ some i =
            (rw other at (
              sym (
                find-emplace d.qualified_name k (length s.entries) s.index_by_qualified_name
                  fresh)))
            ∙ h in
          let (e, at, name) = c.named k i old in (e, push-Extends.entry_kept i e at, name)
    ];
    indexed = λ i e h. elim (get_elem?-append_cases s.entries d i e h) [
      | inl old ↦ push-Extends.id_kept e.qualified_name i (c.indexed i e old)
      | inr (p, q) ↦
          rw (p, q)
            (find-emplace d.qualified_name d.qualified_name (length s.entries)
                s.index_by_qualified_name fresh
              ∙ (rw (eq_refl d.qualified_name)))
    ];
  }

-- Registration keeps the table consistent and what is in it, whatever its outcome.
pub insert_or_validate-Extends :
    (s : Snapshot) (q : String) (attrs : List SymbolAttribute) (loc : Location)
    → IsConsistent s
    → IsConsistent (insert_or_validate s q attrs loc).0
      × Extends s (insert_or_validate s q attrs loc).0
unfolding insert_or_validate
insert_or_validate-Extends s q attrs loc c =
    elim (Option-cases (find q s.index_by_qualified_name)) [
      | inl fresh ↦
          let d : Entry = record { qualified_name = q; attributes = attrs; location = loc } in
          rw (fresh, insert_or_validate) (push-IsConsistent s d fresh c, push-Extends s d fresh)
      | inr (i, known) ↦ rw (known, insert_or_validate) (c, Extends-refl s)
    ]
