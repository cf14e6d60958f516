-- ===== src/Matcher/Permuted.antt =====
-- Lists in another order, as pattern_core/matcher.cc matches the children of commutative nodes.
use stocas.Common.{◌≡◌, sym, subst, List, [], ◌∷◌, ◌++◌, append-nil}

pub data Permuted {V : Type 0} : List V → List V → Type 0 where
  same : {xs : List V} → Permuted xs xs
  skip : {xs ys : List V} (x : V) → Permuted xs ys → Permuted (x ∷ xs) (x ∷ ys)
  swap : {xs : List V} (x y : V) → Permuted (x ∷ y ∷ xs) (y ∷ x ∷ xs)
  trans : {xs ys zs : List V} → Permuted xs ys → Permuted ys zs → Permuted xs zs

pub Permuted_of_eq : {V : Type 0} {xs ys : List V} → xs ≡ ys → Permuted xs ys
Permuted_of_eq {V} {xs} e = subst (Permuted xs) e same

pub Permuted_sym : {V : Type 0} {xs ys : List V} → Permuted xs ys → Permuted ys xs
Permuted_sym same = same
Permuted_sym (skip x p) = skip x (Permuted_sym p)
Permuted_sym (swap x y) = swap y x
Permuted_sym (trans p q) = trans (Permuted_sym q) (Permuted_sym p)

pub Permuted-append :
    {V : Type 0} {xs ys : List V} (zs : List V) → Permuted xs ys → Permuted (xs ++ zs) (ys ++ zs)
Permuted-append zs same = same
Permuted-append zs (skip x p) = skip x (Permuted-append zs p)
Permuted-append zs (swap x y) = swap x y
Permuted-append zs (trans p q) = trans (Permuted-append zs p) (Permuted-append zs q)

pub Permuted_middle : {V : Type 0} (x : V) (xs ys : List V) → Permuted (x ∷ xs ++ ys) (xs ++ x ∷ ys)
Permuted_middle x [] ys = same
Permuted_middle x (y ∷ xs) ys = trans (swap x y) (skip y (Permuted_middle x xs ys))

pub Permuted_comm : {V : Type 0} (xs ys : List V) → Permuted (xs ++ ys) (ys ++ xs)
Permuted_comm [] ys = Permuted_of_eq (sym (append-nil ys))
Permuted_comm (x ∷ xs) ys = trans (skip x (Permuted_comm xs ys)) (Permuted_middle x ys xs)
