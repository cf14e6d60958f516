-- ===== src/Atom/Store/Denotation.antt =====
-- The expressions that the slots of the arena of atom_core/atom.cc stand for.
use stocas.Common.{
  ℕ, zero, suc, ◌+◌, ◌<◌, ◌≡◌, ◌↔◌, refl, subst, ap, ap₂, ◌∙◌, List, [], ◌∷◌, length, get_elem?,
  some, arith, lt-length_of_get_elem?,
}
use stocas.Atom.{Numbers, Kind, Atom, node, Atoms, nil, cons}
use stocas.Atom.Store.{Store, index_mod, build_leaf, build_node}
use stocas.Atom.Store.Rows.{Row, rows, length-rows_of}
use stocas.Atom.Store.Interning.{AllLt, ChildrenBefore, IsValid}
use stocas.Atom.Store.Building.{build_leaf-IsValid, build_node-IsValid}

module _ {N : Type 0} (rs : List (Row N)) where
  -- A slot stands for an expression: its row has the kind of the expression's root, and its
  -- children stand for the expression's children.
  abbrev mutual
    pub Denotes : ℕ → Atom N → Type 0
    Denotes i (node k ts) = (cs : List ℕ) × (get_elem? rs i ≡ some (k, cs)) × DenoteAll cs ts

    pub DenoteAll : List ℕ → Atoms N → Type 0
    DenoteAll [] nil = Unit
    DenoteAll [] (cons t ts) = ⊥
    DenoteAll (c ∷ cs) nil = ⊥
    DenoteAll (c ∷ cs) (cons t ts) = Denotes c t × DenoteAll cs ts

module _ {N : Type 0} (rs : List (Row N)) where
  row_eq : (i : ℕ) (r s : Row N) → get_elem? rs i ≡ some r → get_elem? rs i ≡ some s → r ≡ s
  row_eq i r s h g = cc

  mutual
    Denotes-unique : (i : ℕ) (a b : Atom N) → Denotes rs i a → Denotes rs i b → a ≡ b
    Denotes-unique i (node k ts) (node l us) (cs, h, hs) (ds, g, gs) =
        let e = row_eq i (k, cs) (l, ds) h g in
        let same : cs ≡ ds = ap (λ r. r.1) e in
        ap₂ node (ap (λ r. r.0) e) (DenoteAll-unique ds ts us (rw same at hs) gs)

    DenoteAll-unique :
        (cs : List ℕ) (ts us : Atoms N) → DenoteAll rs cs ts → DenoteAll rs cs us → ts ≡ us
    DenoteAll-unique [] nil nil h g = refl
    DenoteAll-unique [] nil (cons u us) h g = absurd g
    DenoteAll-unique [] (cons t ts) us h g = absurd h
    DenoteAll-unique (c ∷ cs) nil us h g = absurd h
    DenoteAll-unique (c ∷ cs) (cons t ts) nil h g = absurd g
    DenoteAll-unique (c ∷ cs) (cons t ts) (cons u us) (h, hs) (g, gs) =
        ap₂ cons (Denotes-unique c t u h g) (DenoteAll-unique cs ts us hs gs)

  module _
      (distinct : (i j : ℕ) (r : Row N)
        → get_elem? rs i ≡ some r
        → get_elem? rs j ≡ some r
        → i ≡ j) where
    mutual
      Denotes-injective : (i j : ℕ) (a : Atom N) → Denotes rs i a → Denotes rs j a → i ≡ j
      Denotes-injective i j (node k ts) (cs, h, hs) (ds, g, gs) =
          let same = DenoteAll-injective cs ds ts hs gs in
          distinct i j (k, ds) (h ∙ ap (λ es. some (k, es)) same) g

      DenoteAll-injective :
          (cs ds : List ℕ) (ts : Atoms N) → DenoteAll rs cs ts → DenoteAll rs ds ts → cs ≡ ds
      DenoteAll-injective [] [] nil h g = refl
      DenoteAll-injective [] (d ∷ ds) nil h g = absurd g
      DenoteAll-injective (c ∷ cs) ds nil h g = absurd h
      DenoteAll-injective [] ds (cons t ts) h g = absurd h
      DenoteAll-injective (c ∷ cs) [] (cons t ts) h g = absurd g
      DenoteAll-injective (c ∷ cs) (d ∷ ds) (cons t ts) (h, hs) (g, gs) =
          ap₂ (λ x xs. x ∷ xs) (Denotes-injective c d t h g) (DenoteAll-injective cs ds ts hs gs)

  DenoteAll-AllLt : (cs : List ℕ) (ts : Atoms N) → DenoteAll rs cs ts → AllLt (length rs) cs
  DenoteAll-AllLt [] ts h = tt
  DenoteAll-AllLt (c ∷ cs) nil h = absurd h
  DenoteAll-AllLt (c ∷ cs) (cons (node k us) ts) ((ds, h, _), hs) =
      (lt-length_of_get_elem? {0} rs c h, DenoteAll-AllLt cs ts hs)

  module _ (more : List (Row N))
      (extends : (i : ℕ) (r : Row N) → get_elem? rs i ≡ some r → get_elem? more i ≡ some r) where
    mutual
      Denotes-extend : (i : ℕ) (a : Atom N) → Denotes rs i a → Denotes more i a
      Denotes-extend i (node k ts) (cs, h, hs) =
          (cs, extends i (k, cs) h, DenoteAll-extend cs ts hs)

      DenoteAll-extend : (cs : List ℕ) (ts : Atoms N) → DenoteAll rs cs ts → DenoteAll more cs ts
      DenoteAll-extend [] nil h = tt
      DenoteAll-extend [] (cons t ts) h = absurd h
      DenoteAll-extend (c ∷ cs) nil h = absurd h
      DenoteAll-extend (c ∷ cs) (cons t ts) (h, hs) =
          (Denotes-extend c t h, DenoteAll-extend cs ts hs)

  -- Each slot stands for an expression, since children stand before their parents.
  AllLt-row :
      (n i : ℕ) (us : List (Row N)) (k : Kind N) (cs : List ℕ)
      → ChildrenBefore n us
      → get_elem? us i ≡ some (k, cs)
      → AllLt (n + i) cs
  AllLt-row n i [] k cs h g = cc
  AllLt-row n zero ((l, ds) ∷ us) k cs (h, hs) g =
      let e : n ≡ n + 0 = omega arith in
      let same : ds ≡ cs = cc in subst (λ xs. AllLt (n + 0) xs) same (subst (λ m. AllLt m ds) e h)
  AllLt-row n (suc i) ((l, ds) ∷ us) k cs (h, hs) g =
      let e : suc n + i ≡ n + suc i = omega arith in
      subst (λ m. AllLt m cs) e (AllLt-row (suc n) i us k cs hs g)

  pub children_before :
      (i : ℕ) (k : Kind N) (cs : List ℕ)
      → ChildrenBefore 0 rs
      → get_elem? rs i ≡ some (k, cs)
      → AllLt i cs
  children_before i k cs before found =
      let e : 0 + i ≡ i = omega arith in
      subst (λ m. AllLt m cs) e (AllLt-row 0 i rs k cs before found)

  all_denote :
      (n : ℕ) (each : (c : ℕ) → c < n → (a : Atom N) × Denotes rs c a) (cs : List ℕ)
      → AllLt n cs
      → (ts : Atoms N) × DenoteAll rs cs ts
  all_denote n each [] h = (nil, tt)
  all_denote n each (c ∷ cs) (h, hs) =
      let (a, ha) = each c h in let (ts, hts) = all_denote n each cs hs in (cons a ts, (ha, hts))

  get_elem?_of_lt :
      (us : List (Row N)) (i : ℕ)
      → i < length us
      → (k : Kind N) × (cs : List ℕ) × (get_elem? us i ≡ some (k, cs))
  get_elem?_of_lt [] i h = absurd (omega arith)
  get_elem?_of_lt ((k, cs) ∷ us) zero h = (k, cs, refl)
  get_elem?_of_lt (u ∷ us) (suc i) h = get_elem?_of_lt us i (omega arith)

  below-Denotes :
      (bound i : ℕ)
      → i < bound
      → i < length rs
      → ChildrenBefore 0 rs
      → (a : Atom N) × Denotes rs i a
  below-Denotes zero i h g before = absurd (omega arith)
  below-Denotes (suc bound) i h g before =
      let (k, cs, found) = get_elem?_of_lt rs i g in
      let lower = children_before i k cs before found in
      let (ts, children) =
        all_denote i (λ c hc. below-Denotes bound c (omega arith) (omega arith) before) cs lower in
      (node k ts, (cs, found, children))

module _ {N : Type 0} (numbers : Numbers N) (store : Store N) (valid : IsValid numbers store) where
  -- In a valid store (children before their parents and inside the pool, no two nodes alike,
  -- every node in the bucket of its hash), two slots that stand for expressions are the same
  -- slot exactly when the expressions are equal.
  pub same_slot_iff :
      (i j : ℕ) (a b : Atom N)
      → Denotes (rows store) i a
      → Denotes (rows store) j b
      → (i ≡ j) ↔ (a ≡ b)
  same_slot_iff i j a b ha hb = (
    λ e. Denotes-unique (rows store) i a b ha (rw (← e) at hb),
    λ e. Denotes-injective (rows store) valid.distinct i j a ha (rw (← e) at hb),
  )

  pub slot-Denotes : (i : ℕ) → i < length store.nodes → (a : Atom N) × Denotes (rows store) i a
  slot-Denotes i h =
      below-Denotes (rows store) (suc i) i (omega arith)
        (omega (arith, length-rows_of store.child_pool store.nodes)) valid.before

  -- A valid store whose new slot stands for an expression, and where every slot that stood for one
  -- still does.
  abbrev pub BuildsAtom : Atom N → Store N × ℕ → Type 0
  BuildsAtom a (new, i) =
      IsValid numbers new
      × Denotes (rows new) i a
      × ((j : ℕ) (b : Atom N) → Denotes (rows store) j b → Denotes (rows new) j b)

  pub build_leaf-BuildsAtom :
      (k : Kind N)
      → length store.nodes < index_mod
      → BuildsAtom (node k nil) (build_leaf numbers store k)
  build_leaf-BuildsAtom k room =
      let (valid', found, extends) = build_leaf-IsValid numbers store valid k room in
      (valid', ([], found, tt), λ j b h. Denotes-extend (rows store) _ extends j b h)

  pub build_node-BuildsAtom :
      (k : Kind N) (operands : List ℕ) (ts : Atoms N)
      → length store.nodes < index_mod
      → length store.child_pool + length operands < index_mod
      → DenoteAll (rows store) operands ts
      → BuildsAtom (node k ts) (build_node numbers store k operands)
  build_node-BuildsAtom k operands ts room pool_room h =
      let e = length-rows_of store.child_pool store.nodes in
      let lower = DenoteAll-AllLt (rows store) operands ts h in
      let (valid', found, extends) =
        build_node-IsValid numbers store valid operands k room pool_room
          (subst (λ m. AllLt m operands) e lower) in
      (
        valid',
        (operands, found, DenoteAll-extend (rows store) _ extends operands ts h),
        λ j b hb. Denotes-extend (rows store) _ extends j b hb,
      )
