-- ===== src/Atom/Builders/Folds.antt =====
-- What canonical form, flattening and sorting, keeps of a list of expressions: the fold of an operation
-- that forgets order and grouping, and what holds of each of them.
use stocas.Common.{◌≡◌, sym, ap, ap₂, ◌∙◌, true, List, [], ◌∷◌, ◌==◌, inl, inr, Bool-cases}
use stocas.Atom.{Numbers, Kind, tag, position, Atom, node, Atoms, nil, cons, compare_atoms}
use stocas.Atom.Builders.{append_atoms, flatten_atoms, sort_atoms, insert_atom, is_less}

abbrev pub fold {ℓ} : {V : Type ℓ} → (V → V → V) → V → List V → V
fold op unit [] = unit
fold op unit (v ∷ vs) = op v (fold op unit vs)

-- `fs` is `f` on each expression of a list.
module _ {N V : Type 0} (numbers : Numbers N) (f : Atom N → V) (fs : Atoms N → List V)
    (at_nil : fs nil ≡ []) (at_cons : (t : Atom N) (ts : Atoms N) → fs (cons t ts) ≡ f t ∷ fs ts)
    (op : V → V → V) (unit : V) (k : Kind N) (comm : (a b : V) → op a b ≡ op b a)
    (assoc : (a b c : V) → op (op a b) c ≡ op a (op b c)) (unit_law : (a : V) → op unit a ≡ a)
    (same_position : (l : Kind N) (us : Atoms N)
      → (position (tag l) == position (tag k)) ≡ true
      → f (node l us) ≡ fold op unit (fs us)) where
  abbrev folded : Atoms N → V
  folded ts = fold op unit (fs ts)

  folded_cons : (t : Atom N) (ts : Atoms N) → folded (cons t ts) ≡ op (f t) (folded ts)
  folded_cons t ts = ap (fold op unit) (at_cons t ts)

  left_comm : (a b c : V) → op a (op b c) ≡ op b (op a c)
  left_comm a b c = sym (assoc a b c) ∙ ap (λ t. op t c) (comm a b) ∙ assoc b a c

  pub fold-append :
      (ts us : Atoms N)
      → fold op unit (fs (append_atoms ts us)) ≡ op (fold op unit (fs ts)) (fold op unit (fs us))
  fold-append nil us = sym (ap (λ t. op (fold op unit t) (folded us)) at_nil ∙ unit_law (folded us))
  fold-append (cons t ts) us =
      folded_cons t (append_atoms ts us)
      ∙ ap (op (f t)) (fold-append ts us)
      ∙ sym (assoc (f t) (folded ts) (folded us))
      ∙ ap (λ v. op v (folded us)) (sym (folded_cons t ts))

  fold-insert :
      (t : Atom N) (us : Atoms N) → folded (insert_atom numbers t us) ≡ op (f t) (folded us)
  unfolding insert_atom
  fold-insert t nil = folded_cons t nil
  fold-insert t (cons u us) = elim (Bool-cases (is_less (compare_atoms numbers u t))) [
    | inl below ↦ rw below (
        folded_cons u (insert_atom numbers t us)
        ∙ ap (op (f u)) (fold-insert t us)
        ∙ left_comm (f u) (f t) (folded us)
        ∙ ap (op (f t)) (sym (folded_cons u us)))
    | inr above ↦ rw above (folded_cons t (cons u us))
  ]

  fold-sort : (ts : Atoms N) → folded (sort_atoms numbers ts) ≡ folded ts
  unfolding sort_atoms
  fold-sort nil = ap (fold op unit) (at_nil ∙ sym at_nil)
  fold-sort (cons t ts) =
      fold-insert t (sort_atoms numbers ts) ∙ ap (op (f t)) (fold-sort ts) ∙ sym (folded_cons t ts)

  fold-flatten : (ts : Atoms N) → folded (flatten_atoms (tag k) ts) ≡ folded ts
  unfolding flatten_atoms
  fold-flatten nil = ap (fold op unit) (at_nil ∙ sym at_nil)
  fold-flatten (cons (node l us) ts) = elim (Bool-cases (position (tag l) == position (tag k))) [
    | inl nested ↦ rw nested (
        fold-append us (flatten_atoms (tag k) ts)
        ∙ ap₂ op (sym (same_position l us nested)) (fold-flatten ts)
        ∙ sym (folded_cons (node l us) ts))
    | inr other ↦ rw other (
        folded_cons (node l us) (flatten_atoms (tag k) ts)
        ∙ ap (op (f (node l us))) (fold-flatten ts)
        ∙ sym (folded_cons (node l us) ts))
  ]

  pub fold-canonical :
      (ts : Atoms N)
      → fold op unit (fs (sort_atoms numbers (flatten_atoms (tag k) ts))) ≡ fold op unit (fs ts)
  fold-canonical ts = fold-sort (flatten_atoms (tag k) ts) ∙ fold-flatten ts

-- `Each` is `P` of each expression of a list.
module _ {N : Type 0} (numbers : Numbers N) (P : Atom N → Type 0) (Each : Atoms N → Type 0)
    (none_left : Each nil) (join : (t : Atom N) (ts : Atoms N) → P t → Each ts → Each (cons t ts))
    (split : (t : Atom N) (ts : Atoms N) → Each (cons t ts) → P t × Each ts) where
  append-Each : (ts us : Atoms N) → Each ts → Each us → Each (append_atoms ts us)
  append-Each nil us h g = g
  append-Each (cons t ts) us h g =
      let (p, hs) = split t ts h in join t (append_atoms ts us) p (append-Each ts us hs g)

  insert-Each : (t : Atom N) (us : Atoms N) → P t → Each us → Each (insert_atom numbers t us)
  unfolding insert_atom
  insert-Each t nil p h = join t nil p h
  insert-Each t (cons u us) p h = elim (Bool-cases (is_less (compare_atoms numbers u t))) [
    | inl below ↦
        let (q, hs) = split u us h in
        rw below (join u (insert_atom numbers t us) q (insert-Each t us p hs))
    | inr above ↦ rw above (join t (cons u us) p h)
  ]

  sort-Each : (ts : Atoms N) → Each ts → Each (sort_atoms numbers ts)
  unfolding sort_atoms
  sort-Each nil h = h
  sort-Each (cons t ts) h =
      let (p, hs) = split t ts h in insert-Each t (sort_atoms numbers ts) p (sort-Each ts hs)

  module _ (k : Kind N)
      (inner : (l : Kind N) (us : Atoms N)
        → (position (tag l) == position (tag k)) ≡ true
        → P (node l us)
        → Each us) where
    flatten-Each : (ts : Atoms N) → Each ts → Each (flatten_atoms (tag k) ts)
    unfolding flatten_atoms
    flatten-Each nil h = h
    flatten-Each (cons (node l us) ts) h =
        let (p, hs) = split (node l us) ts h in
        elim (Bool-cases (position (tag l) == position (tag k))) [
          | inl nested ↦
              rw nested (
                append-Each us (flatten_atoms (tag k) ts) (inner l us nested p)
                  (flatten-Each ts hs))
          | inr other ↦
              rw other (join (node l us) (flatten_atoms (tag k) ts) p (flatten-Each ts hs))
        ]

    pub canonical-Each :
        (ts : Atoms N) → Each ts → Each (sort_atoms numbers (flatten_atoms (tag k) ts))
    canonical-Each ts h = sort-Each (flatten_atoms (tag k) ts) (flatten-Each ts h)
