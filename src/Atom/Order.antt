-- ===== src/Atom/Order.antt =====
-- The order of atom_core/atom.cc is a strict total order on expressions.
use Prim.Native.Nat.{Ordering, compare}
use stocas.Common.{ℕ, ◌≡◌, ◌≢◌, ◌↔◌, ◌⊎◌, inl, inr, refl, sym, ap, ap₂, ◌∙◌, arith}
use stocas.Monomial.{then_by}
use stocas.Monomial.Order.{swap, then_by-swap, compare-swap, compare_self}
use stocas.Atom.{
  Numbers, Kind, num, var, add, mul, pow, fun, Atom, node, Atoms, nil, cons, compare_payload,
  compare_kinds, compare_atoms, compare_children, position, tag,
}

then_by_eq : (o p : Ordering) → (then_by o p ≡ Ordering.eq) → (o ≡ Ordering.eq) × (p ≡ Ordering.eq)
then_by_eq Ordering.lt p h = cc
then_by_eq Ordering.eq p h = (refl, h)
then_by_eq Ordering.gt p h = cc

then_by_lt :
    (o p : Ordering)
    → (then_by o p ≡ Ordering.lt)
    → (o ≡ Ordering.lt) ⊎ ((o ≡ Ordering.eq) × (p ≡ Ordering.lt))
then_by_lt Ordering.lt p h = inl refl
then_by_lt Ordering.eq p h = inr (refl, h)
then_by_lt Ordering.gt p h = cc

compare_eq : (a b : ℕ) → compare a b ≡ Ordering.eq → a ≡ b
compare_eq a b h = ground arith

compare_trans_ℕ :
    (a b c : ℕ) → compare a b ≡ Ordering.lt → compare b c ≡ Ordering.lt → compare a c ≡ Ordering.lt
compare_trans_ℕ a b c h g = ground arith

lt-cases : (o : Ordering) → (o ≡ Ordering.lt) ⊎ (o ≢ Ordering.lt)
lt-cases Ordering.lt = inl refl
lt-cases Ordering.eq = inr (λ h. cc)
lt-cases Ordering.gt = inr (λ h. cc)

module _ {N : Type 0} (numbers : Numbers N) where
  open numbers use {compare_numbers, compare_iff, compare_swap, compare_trans}

  payload-swap : (k l : Kind N) → compare_payload numbers l k ≡ swap (compare_payload numbers k l)
  unfolding compare_payload
  payload-swap (num x) (num y) = compare_swap x y
  payload-swap (num x) l = refl
  payload-swap (var s) (var t) = compare-swap s t
  payload-swap (var s) l = refl
  payload-swap (fun s) (fun t) = compare-swap s t
  payload-swap (fun s) l = refl
  payload-swap add (num y) = refl
  payload-swap add l = refl
  payload-swap mul (num y) = refl
  payload-swap mul l = refl
  payload-swap pow (num y) = refl
  payload-swap pow l = refl

  payload_eq :
      (k l : Kind N)
      → position (tag k) ≡ position (tag l)
      → compare_payload numbers k l ≡ Ordering.eq
      → k ≡ l
  unfolding compare_payload
  payload_eq (num x) (num y) p h = ap num ((compare_iff x y).0 h)
  payload_eq (num x) l p h = absurd (omega arith)
  payload_eq (var s) (var t) p h = ap var (compare_eq s t h)
  payload_eq (var s) l p h = absurd (omega arith)
  payload_eq (fun s) (fun t) p h = ap fun (compare_eq s t h)
  payload_eq (fun s) l p h = absurd (omega arith)
  payload_eq add add p h = refl
  payload_eq add l p h = absurd (omega arith)
  payload_eq mul mul p h = refl
  payload_eq mul l p h = absurd (omega arith)
  payload_eq pow pow p h = refl
  payload_eq pow l p h = absurd (omega arith)

  payload_trans :
      (k l m : Kind N)
      → compare_payload numbers k l ≡ Ordering.lt
      → compare_payload numbers l m ≡ Ordering.lt
      → compare_payload numbers k m ≡ Ordering.lt
  unfolding compare_payload
  payload_trans (num x) (num y) (num z) h g = compare_trans x y z h g
  payload_trans (num x) (num y) m h g = cc
  payload_trans (num x) l m h g = cc
  payload_trans (var s) (var t) (var u) h g = compare_trans_ℕ s t u h g
  payload_trans (var s) (var t) m h g = cc
  payload_trans (var s) l m h g = cc
  payload_trans (fun s) (fun t) (fun u) h g = compare_trans_ℕ s t u h g
  payload_trans (fun s) (fun t) m h g = cc
  payload_trans (fun s) l m h g = cc
  payload_trans add l m h g = cc
  payload_trans mul l m h g = cc
  payload_trans pow l m h g = cc

  kinds-swap : (k l : Kind N) → compare_kinds numbers l k ≡ swap (compare_kinds numbers k l)
  unfolding compare_kinds
  kinds-swap k l =
      ap₂ then_by (compare-swap (position (tag k)) (position (tag l))) (payload-swap k l)
      ∙ sym (then_by-swap (compare (position (tag k)) (position (tag l))) _)

  kinds_eq : (k l : Kind N) → compare_kinds numbers k l ≡ Ordering.eq → k ≡ l
  unfolding compare_kinds
  kinds_eq k l h =
      let (p, g) = then_by_eq (compare (position (tag k)) (position (tag l))) _ h in
      payload_eq k l (compare_eq (position (tag k)) (position (tag l)) p) g

  payload_self : (k : Kind N) → compare_payload numbers k k ≡ Ordering.eq
  unfolding compare_payload
  payload_self (num x) = (compare_iff x x).1 refl
  payload_self (var s) = compare_self s
  payload_self (fun s) = compare_self s
  payload_self k = refl

  kinds_self : (k : Kind N) → compare_kinds numbers k k ≡ Ordering.eq
  unfolding compare_kinds
  kinds_self k = rw (compare_self (position (tag k))) (payload_self k)

  kinds_trans :
      (k l m : Kind N)
      → compare_kinds numbers k l ≡ Ordering.lt
      → compare_kinds numbers l m ≡ Ordering.lt
      → compare_kinds numbers k m ≡ Ordering.lt
  unfolding compare_kinds
  kinds_trans k l m h g =
      let a = position (tag k) in
      let b = position (tag l) in
      let c = position (tag m) in
      elim (then_by_lt (compare a b) _ h) [
        | inl first ↦ elim (then_by_lt (compare b c) _ g) [
          | inl second ↦ rw (compare_trans_ℕ a b c first second)
          | inr (same, _) ↦ let e = compare_eq b c same in rw (← e, first)
        ]
        | inr (same, lower) ↦ elim (then_by_lt (compare b c) _ g) [
          | inl second ↦ let e = compare_eq a b same in rw (e, second)
          | inr (same', lower') ↦
              let e = compare_eq a b same in rw (e, same') (payload_trans k l m lower lower')
        ]
      ]

  mutual
    unfolding compare_atoms compare_children

    atoms-swap : (a b : Atom N) → compare_atoms numbers b a ≡ swap (compare_atoms numbers a b)
    atoms-swap (node k xs) (node l ys) =
        ap₂ then_by (kinds-swap k l) (children-swap xs ys)
        ∙ sym (then_by-swap (compare_kinds numbers k l) (compare_children numbers xs ys))

    children-swap :
        (xs ys : Atoms N) → compare_children numbers ys xs ≡ swap (compare_children numbers xs ys)
    children-swap nil nil = refl
    children-swap nil (cons y ys) = refl
    children-swap (cons x xs) nil = refl
    children-swap (cons x xs) (cons y ys) =
        ap₂ then_by (atoms-swap x y) (children-swap xs ys)
        ∙ sym (then_by-swap (compare_atoms numbers x y) (compare_children numbers xs ys))

  mutual
    unfolding compare_atoms compare_children

    atoms_eq : (a b : Atom N) → compare_atoms numbers a b ≡ Ordering.eq → a ≡ b
    atoms_eq (node k xs) (node l ys) h =
        let (p, g) = then_by_eq (compare_kinds numbers k l) (compare_children numbers xs ys) h in
        ap₂ node (kinds_eq k l p) (children_eq xs ys g)

    children_eq : (xs ys : Atoms N) → compare_children numbers xs ys ≡ Ordering.eq → xs ≡ ys
    children_eq nil nil h = refl
    children_eq nil (cons y ys) h = cc
    children_eq (cons x xs) nil h = cc
    children_eq (cons x xs) (cons y ys) h =
        let (p, g) = then_by_eq (compare_atoms numbers x y) (compare_children numbers xs ys) h in
        ap₂ cons (atoms_eq x y p) (children_eq xs ys g)

  mutual
    unfolding compare_atoms compare_children

    atoms_self : (a : Atom N) → compare_atoms numbers a a ≡ Ordering.eq
    atoms_self (node k xs) = rw (kinds_self k) (children_self xs)

    children_self : (xs : Atoms N) → compare_children numbers xs xs ≡ Ordering.eq
    children_self nil = refl
    children_self (cons x xs) = rw (atoms_self x) (children_self xs)

  mutual
    unfolding compare_atoms compare_children

    atoms_trans :
        (a b c : Atom N)
        → compare_atoms numbers a b ≡ Ordering.lt
        → compare_atoms numbers b c ≡ Ordering.lt
        → compare_atoms numbers a c ≡ Ordering.lt
    atoms_trans (node k xs) (node l ys) (node m zs) h g =
        elim (then_by_lt (compare_kinds numbers k l) _ h) [
          | inl first ↦ elim (then_by_lt (compare_kinds numbers l m) _ g) [
            | inl second ↦ rw (kinds_trans k l m first second)
            | inr (same, _) ↦ rw (← (kinds_eq l m same), first)
          ]
          | inr (same, lower) ↦ elim (then_by_lt (compare_kinds numbers l m) _ g) [
            | inl second ↦ rw (kinds_eq k l same, second)
            | inr (same', lower') ↦
                rw (kinds_eq k l same, same') (children_trans xs ys zs lower lower')
          ]
        ]

    children_trans :
        (xs ys zs : Atoms N)
        → compare_children numbers xs ys ≡ Ordering.lt
        → compare_children numbers ys zs ≡ Ordering.lt
        → compare_children numbers xs zs ≡ Ordering.lt
    children_trans nil ys nil h g = absurd_order ys h g
      where
        absurd_order :
            (ys : Atoms N)
            → compare_children numbers nil ys ≡ Ordering.lt
            → compare_children numbers ys nil ≡ Ordering.lt
            → Ordering.eq ≡ Ordering.lt
        absurd_order nil p q = p
        absurd_order (cons y ys) p q = cc
    children_trans nil ys (cons z zs) h g = refl
    children_trans (cons x xs) nil zs h g = cc
    children_trans (cons x xs) (cons y ys) nil h g = cc
    children_trans (cons x xs) (cons y ys) (cons z zs) h g =
        elim (then_by_lt (compare_atoms numbers x y) _ h) [
          | inl first ↦ elim (then_by_lt (compare_atoms numbers y z) _ g) [
            | inl second ↦ rw (atoms_trans x y z first second)
            | inr (same, _) ↦ rw (← (atoms_eq y z same), first)
          ]
          | inr (same, lower) ↦ elim (then_by_lt (compare_atoms numbers y z) _ g) [
            | inl second ↦ rw (atoms_eq x y same, second)
            | inr (same', lower') ↦
                rw (atoms_eq x y same, same') (children_trans xs ys zs lower lower')
          ]
        ]

  -- The order of expressions says equal exactly of equal expressions, gives the opposite outcome
  -- the other way round, and is transitive: where a is below b and b below c, a is below c.
  pub compare_atoms_total :
      (a b c : Atom N)
      → ((compare_atoms numbers a b ≡ Ordering.eq) ↔ (a ≡ b))
        × (compare_atoms numbers b a ≡ swap (compare_atoms numbers a b))
        × ((compare_atoms numbers a b ≢ Ordering.lt)
            ⊎ ((compare_atoms numbers b c ≢ Ordering.lt)
                ⊎ (compare_atoms numbers a c ≡ Ordering.lt)))
  compare_atoms_total a b c = (
    (atoms_eq a b, λ e. rw (← e) (atoms_self a)),
    atoms-swap a b,
    elim (lt-cases (compare_atoms numbers a b)) [
      | inr apart ↦ inl apart
      | inl first ↦ elim (lt-cases (compare_atoms numbers b c)) [
        | inr apart ↦ inr (inl apart)
        | inl second ↦ inr (inr (atoms_trans a b c first second))
      ]
    ],
  )
