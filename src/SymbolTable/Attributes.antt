-- ===== src/SymbolTable/Attributes.antt =====
-- Attribute sets of symbol_table/symbol_table.cc, compared by sorting.
use stocas.Common.{
  ℕ, zero, suc, ◌+◌, ◌≡◌, ◌↔◌, refl, sym, ap, ◌∙◌, Bool, true, false, ◌&&◌, List, [], ◌∷◌, length,
  arith, ltb, ◌==◌, if◌then◌else◌, ==_iff,
}

pub data SymbolAttribute : Type 0 where
  symmetric antisymmetric linear : SymbolAttribute

-- `static_cast<int>`.
abbrev pub to_int : SymbolAttribute → ℕ
to_int symmetric = 0
to_int antisymmetric = 1
to_int linear = 2

-- `std::sort` by that value.
unfoldable pub insert : SymbolAttribute → List SymbolAttribute → List SymbolAttribute
insert a [] = a ∷ []
insert a (x ∷ xs) = if ltb (to_int x) (to_int a) then x ∷ insert a xs else a ∷ x ∷ xs

unfoldable pub sort : List SymbolAttribute → List SymbolAttribute
unfolding insert
sort [] = []
sort (x ∷ xs) = insert x (sort xs)

unfoldable pub equal_lists : List SymbolAttribute → List SymbolAttribute → Bool
equal_lists [] [] = true
equal_lists [] (y ∷ ys) = false
equal_lists (x ∷ xs) [] = false
equal_lists (x ∷ xs) (y ∷ ys) = (to_int x == to_int y) && equal_lists xs ys

unfoldable pub same_attributes : List SymbolAttribute → List SymbolAttribute → Bool
unfolding sort equal_lists
same_attributes requested existing =
    if length requested == length existing
    then equal_lists (sort requested) (sort existing)
    else false

-- How often an attribute was given.
abbrev pub count : SymbolAttribute → List SymbolAttribute → ℕ
count a [] = 0
count a (x ∷ xs) = (if to_int a == to_int x then 1 else 0) + count a xs

abbrev pub SameSets : List SymbolAttribute → List SymbolAttribute → Type 0
SameSets xs ys = (a : SymbolAttribute) → count a xs ≡ count a ys

length-counts :
    (xs : List SymbolAttribute)
    → length xs ≡ count symmetric xs + count antisymmetric xs + count linear xs
length-counts [] = omega arith
length-counts (symmetric ∷ xs) = omega (arith, length-counts xs)
length-counts (antisymmetric ∷ xs) = omega (arith, length-counts xs)
length-counts (linear ∷ xs) = omega (arith, length-counts xs)

to_int-injective : (a b : SymbolAttribute) → to_int a ≡ to_int b → a ≡ b
to_int-injective a b h = ground arith

equal_lists→eq : (xs ys : List SymbolAttribute) → equal_lists xs ys ≡ true → xs ≡ ys
unfolding equal_lists
equal_lists→eq [] [] h = refl
equal_lists→eq [] (y ∷ ys) h = cc
equal_lists→eq (x ∷ xs) [] h = cc
equal_lists→eq (x ∷ xs) (y ∷ ys) h = ground (arith, to_int-injective x y, equal_lists→eq xs ys)

equal_lists_self : (xs : List SymbolAttribute) → equal_lists xs xs ≡ true
unfolding equal_lists
equal_lists_self [] = refl
equal_lists_self (x ∷ xs) = ground (arith, equal_lists_self xs)

-- The sorted list with these counts.
spread : ℕ → ℕ → ℕ → List SymbolAttribute
spread zero zero zero = []
spread zero zero (suc l) = linear ∷ spread zero zero l
spread zero (suc a) l = antisymmetric ∷ spread zero a l
spread (suc s) a l = symmetric ∷ spread s a l

insert_symmetric : (s a l : ℕ) → insert symmetric (spread s a l) ≡ spread (suc s) a l
unfolding insert spread
insert_symmetric zero zero zero = refl
insert_symmetric zero zero (suc l) = refl
insert_symmetric zero (suc a) l = refl
insert_symmetric (suc s) a l = refl

insert_antisymmetric : (s a l : ℕ) → insert antisymmetric (spread s a l) ≡ spread s (suc a) l
unfolding insert spread
insert_antisymmetric zero zero zero = refl
insert_antisymmetric zero zero (suc l) = refl
insert_antisymmetric zero (suc a) l = refl
insert_antisymmetric (suc s) a l = ap (λ t. symmetric ∷ t) (insert_antisymmetric s a l)

insert_linear : (s a l : ℕ) → insert linear (spread s a l) ≡ spread s a (suc l)
unfolding insert spread
insert_linear zero zero zero = refl
insert_linear zero zero (suc l) = refl
insert_linear zero (suc a) l = ap (λ t. antisymmetric ∷ t) (insert_linear zero a l)
insert_linear (suc s) a l = ap (λ t. symmetric ∷ t) (insert_linear s a l)

one_more : (n : ℕ) → 1 + n ≡ suc n
one_more n = omega arith

none_more : (n : ℕ) → 0 + n ≡ n
none_more n = omega arith

sort-spread :
    (xs : List SymbolAttribute)
    → sort xs ≡ spread (count symmetric xs) (count antisymmetric xs) (count linear xs)
unfolding sort
sort-spread [] = unfold spread in refl
sort-spread (symmetric ∷ xs) = rw (sort-spread xs, insert_symmetric, one_more, none_more, none_more)
sort-spread (antisymmetric ∷ xs) =
    rw (sort-spread xs, insert_antisymmetric, one_more, none_more, none_more)
sort-spread (linear ∷ xs) = rw (sort-spread xs, insert_linear, one_more, none_more, none_more)

count-spread :
    (s a l : ℕ)
    → (count symmetric (spread s a l) ≡ s)
      × (count antisymmetric (spread s a l) ≡ a)
      × (count linear (spread s a l) ≡ l)
unfolding spread
count-spread zero zero zero = (refl, refl, refl)
count-spread zero zero (suc l) = omega (arith, count-spread zero zero l)
count-spread zero (suc a) l = omega (arith, count-spread zero a l)
count-spread (suc s) a l = omega (arith, count-spread s a l)

count-sort : (a : SymbolAttribute) (xs : List SymbolAttribute) → count a (sort xs) ≡ count a xs
count-sort symmetric xs = rw (sort-spread xs) ((count-spread _ _ _).0)
count-sort antisymmetric xs = rw (sort-spread xs) ((count-spread _ _ _).1)
count-sort linear xs = rw (sort-spread xs) ((count-spread _ _ _).2)

-- same_attributes holds of two attribute lists exactly when every attribute occurs equally often
-- in both.
pub same_attributes_iff :
    (xs ys : List SymbolAttribute) → (same_attributes xs ys ≡ true) ↔ SameSets xs ys
unfolding same_attributes
same_attributes_iff xs ys = (
  λ h a.
      (let sorted : sort xs ≡ sort ys = equal_lists→eq (sort xs) (sort ys) (ground arith) in
        sym (count-sort a xs) ∙ ap (count a) sorted ∙ count-sort a ys),
  λ same.
      let sorted : sort xs ≡ sort ys =
        sort-spread xs
        ∙ (rw (same symmetric, same antisymmetric, same linear) (sym (sort-spread ys))) in
      let sizes : length xs == length ys ≡ true = (==_iff _ _).1 (
        omega (
          arith,
          length-counts xs,
          length-counts ys,
          same symmetric,
          same antisymmetric,
          same linear,
        )) in
      rw (sizes, sorted) (equal_lists_self (sort ys)),
)
