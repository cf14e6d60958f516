-- ===== src/SymbolTable/Interning.antt =====
-- What `get_symbol` of symbol_table/symbol_table.cc promises: one handle for a name, the first
-- definition wins, and a stale first read changes nothing.
use Prim.Native.String.{String}
use stocas.Common.{
  ℕ, ◌≡◌, ◌⊎◌, refl, sym, ap, ◌∙◌, inl, inr, List, none, some, length, get_elem?, arith,
  if◌then◌else◌, Bool-cases, Option-cases, get_elem?-append_length, subst,
}
use stocas.SymbolTable.Attributes.{SymbolAttribute, same_attributes, same_attributes_iff, SameSets}
use stocas.SymbolTable.{
  Location, Entry, Snapshot, find, Registration, symbol, conflict, validate, push,
  insert_or_validate, qualify, get_symbol_from, get_symbol, symbol_name, symbol_attributes,
}
use stocas.SymbolTable.Registry.{IsConsistent, Extends, insert_or_validate-Extends}

-- The verdict on a request that finds the entry `e`.
abbrev pub verdict : ℕ → Entry → List SymbolAttribute → Registration
verdict id e attrs = if same_attributes attrs e.attributes then symbol id else conflict e

validate_at :
    (s : Snapshot) (attrs : List SymbolAttribute) (id : ℕ) (e : Entry)
    → get_elem? s.entries id ≡ some e
    → validate s attrs id ≡ verdict id e attrs
unfolding validate
validate_at s attrs id e at = rw (at, validate)

insert_known :
    (s : Snapshot) (q : String) (attrs : List SymbolAttribute) (loc : Location) (id : ℕ)
    → find q s.index_by_qualified_name ≡ some id
    → insert_or_validate s q attrs loc ≡ (s, validate s attrs id)
unfolding insert_or_validate
insert_known s q attrs loc id known = rw (known, insert_or_validate)

insert_fresh :
    (s : Snapshot) (q : String) (attrs : List SymbolAttribute) (loc : Location)
    → find q s.index_by_qualified_name ≡ none
    → insert_or_validate s q attrs loc ≡ (
      push s (record { qualified_name = q; attributes = attrs; location = loc }),
      symbol (length s.entries),
    )
unfolding insert_or_validate
insert_fresh s q attrs loc fresh = rw (fresh, insert_or_validate)

from_known :
    (seen s : Snapshot) (q : String) (attrs : List SymbolAttribute) (loc : Location) (id : ℕ)
    → find q seen.index_by_qualified_name ≡ some id
    → get_symbol_from seen s q attrs loc ≡ (s, validate seen attrs id)
unfolding get_symbol_from
from_known seen s q attrs loc id known = rw (known, get_symbol_from)

from_fresh :
    (seen s : Snapshot) (q : String) (attrs : List SymbolAttribute) (loc : Location)
    → find q seen.index_by_qualified_name ≡ none
    → get_symbol_from seen s q attrs loc ≡ insert_or_validate s q attrs loc
unfolding get_symbol_from
from_fresh seen s q attrs loc fresh = rw (fresh, get_symbol_from)

-- The lock-free path answers as the locked one would.
pub get_symbol_from-eq-insert :
    (seen s : Snapshot) (q : String) (attrs : List SymbolAttribute) (loc : Location)
    → IsConsistent seen
    → Extends seen s
    → get_symbol_from seen s q attrs loc ≡ insert_or_validate s q attrs loc
get_symbol_from-eq-insert seen s q attrs loc c x =
    elim (Option-cases (find q seen.index_by_qualified_name)) [
      | inl fresh ↦ from_fresh seen s q attrs loc fresh
      | inr (id, known) ↦
          let (e, at, _) = c.named q id known in
          from_known seen s q attrs loc id known
          ∙ ap (λ v. (s, v))
              (validate_at seen attrs id e at
                ∙ sym (validate_at s attrs id e (x.entry_kept id e at)))
          ∙ sym (insert_known s q attrs loc id (x.id_kept q id known))
    ]

get_symbol_lem :
    (s : Snapshot) (ns name : String) (attrs : List SymbolAttribute) (loc : Location)
    → IsConsistent s
    → get_symbol s ns name attrs loc ≡ insert_or_validate s (qualify ns name) attrs loc
unfolding get_symbol
get_symbol_lem s ns name attrs loc c =
    get_symbol_from-eq-insert s s (qualify ns name) attrs loc c
      (record { entry_kept = λ i e h. h; id_kept = λ k i h. h })

-- A thread whose first read saw an older snapshot than the one published when it holds the lock
-- gets the outcome, and leaves the table, of a call that ran at once on the published one.
pub get_symbol_from_stale :
    (seen current : Snapshot) (q : String) (attrs : List SymbolAttribute) (loc : Location)
    → IsConsistent seen
    → IsConsistent current
    → Extends seen current
    → get_symbol_from seen current q attrs loc ≡ get_symbol_from current current q attrs loc
get_symbol_from_stale seen current q attrs loc cs cc' x =
    get_symbol_from-eq-insert seen current q attrs loc cs x
    ∙ sym (
        get_symbol_from-eq-insert current current q attrs loc cc'
          (record { entry_kept = λ i e h. h; id_kept = λ k i h. h }))

verdict-symbol :
    (i id : ℕ) (e : Entry) (attrs : List SymbolAttribute)
    → verdict i e attrs ≡ symbol id
    → (i ≡ id) × SameSets attrs e.attributes
verdict-symbol i id e attrs h = elim (Bool-cases (same_attributes attrs e.attributes)) [
  | inl same ↦ (ground arith, (same_attributes_iff attrs e.attributes).0 same)
  | inr differ ↦ cc (rw differ at h)
]

-- What a successful registration leaves under the id that it returns.
registered :
    (s s' : Snapshot) (q : String) (attrs : List SymbolAttribute) (loc : Location) (id : ℕ)
    → IsConsistent s
    → insert_or_validate s q attrs loc ≡ (s', symbol id)
    → (e : Entry) × (get_elem? s'.entries id ≡ some e)
      × (e.qualified_name ≡ q)
      × SameSets attrs e.attributes
registered s s' q attrs loc id c h = elim (Option-cases (find q s.index_by_qualified_name)) [
  | inl fresh ↦
      let d : Entry = record { qualified_name = q; attributes = attrs; location = loc } in
      let both = sym (insert_fresh s q attrs loc fresh) ∙ h in
      let at : get_elem? (push s d).entries (length s.entries) ≡ some d =
        get_elem?-append_length s.entries d in
      let place : length s.entries ≡ id = cc (ap (λ p. p.1) both) in
      (d, rw (← ap (λ p. p.0) both, ← place) at, refl, λ a. refl)
  | inr (i, known) ↦
      let (e, at, name) = c.named q i known in
      let both = sym (insert_known s q attrs loc i known) ∙ h in
      let (place, same) =
        verdict-symbol i id e attrs (sym (validate_at s attrs i e at) ∙ ap (λ p. p.1) both) in
      (e, rw (← ap (λ p. p.0) both, ← place) at, name, same)
]

-- After that, every request for the name is decided by the entry, and changes nothing.
decided :
    (s : Snapshot) (q : String) (attrs : List SymbolAttribute) (loc : Location) (id : ℕ) (e : Entry)
    → IsConsistent s
    → get_elem? s.entries id ≡ some e
    → e.qualified_name ≡ q
    → insert_or_validate s q attrs loc ≡ (s, verdict id e attrs)
decided s q attrs loc id e c at name =
    let known = rw name at (c.indexed id e at) in
    insert_known s q attrs loc id known ∙ ap (λ v. (s, v)) (validate_at s attrs id e at)

-- A handle that get_symbol returned on a consistent table is named by symbol_name as the
-- namespace and name requested, and symbol_attributes gives the attributes requested, up to
-- order.
pub symbol_name-get_symbol :
    (s s' : Snapshot) (ns name : String) (attrs : List SymbolAttribute) (loc : Location) (id : ℕ)
    → IsConsistent s
    → get_symbol s ns name attrs loc ≡ (s', symbol id)
    → (symbol_name s' id ≡ some (qualify ns name))
      × ((found : List SymbolAttribute) × (symbol_attributes s' id ≡ some found)
          × SameSets attrs found)
unfolding symbol_name symbol_attributes
symbol_name-get_symbol s s' ns name attrs loc id c h =
    let (e, at, named, same) =
      registered s s' (qualify ns name) attrs loc id c
        (sym (get_symbol_lem s ns name attrs loc c) ∙ h) in
    (rw (at, symbol_name) (ap some named), (e.attributes, rw (at, symbol_attributes), same))

-- After a call of get_symbol on a consistent table that returned a handle, a call for the same
-- name leaves the table as it is; it returns that handle if the attributes are those requested
-- first, up to order, and otherwise the conflict with the entry under that handle.
pub get_symbol_again :
    (s s' : Snapshot) (ns name : String) (attrs again : List SymbolAttribute) (loc loc' : Location)
    (id : ℕ)
    → IsConsistent s
    → get_symbol s ns name attrs loc ≡ (s', symbol id)
    → (SameSets again attrs × (get_symbol s' ns name again loc' ≡ (s', symbol id)))
      ⊎ ((¬ SameSets again attrs)
          × ((e : Entry) × (get_elem? s'.entries id ≡ some e)
              × (get_symbol s' ns name again loc' ≡ (s', conflict e))))
get_symbol_again s s' ns name attrs again loc loc' id c h =
    let first = sym (get_symbol_lem s ns name attrs loc c) ∙ h in
    let (e, at, named, same) = registered s s' (qualify ns name) attrs loc id c first in
    let kept = insert_or_validate-Extends s (qualify ns name) attrs loc c in
    let c' : IsConsistent s' = subst IsConsistent (ap (λ p. p.0) first) kept.0 in
    let outcome =
      get_symbol_lem s' ns name again loc' c'
      ∙ decided s' (qualify ns name) again loc' id e c' at named in
    elim (Bool-cases (same_attributes again e.attributes)) [
      | inl equal ↦ inl (
        λ a. (same_attributes_iff again e.attributes).0 equal a ∙ sym (same a),
        outcome ∙ (rw equal),
      )
      | inr differ ↦ inr (
        λ all. cc (differ, (same_attributes_iff again e.attributes).1 (λ a. all a ∙ same a)),
        (e, at, outcome ∙ (rw differ)),
      )
    ]
