-- ===== src/Lib.antt =====
-- A verification library for STOCAS, a computer algebra system in C++. Paths below are from the
-- repository's root.
--
-- The program is a stack of libraries under src/: numerica_core has the numbers, symbol_table the
-- interned symbols and a bump allocator, atom_core the expressions over both, pattern_core and
-- calculus_core rewrite and differentiate expressions, algebra_core and poly_core compute with
-- rings and polynomials. Modelled are:
--   FiniteField   src/numerica_core/include/numerica_core/finite_field.hh. An element is a record
--                 of modulus and value; a Width stands for the value type, and every sum and
--                 difference is reduced modulo its word. `add`, `sub`, `mul`, `neg` are the
--                 operators; mul_mod_u64 has its two bodies, `mul_mod_wide` and `mul_mod_portable`.
--                 Its loop has 65 rounds of fuel, as `inv` has: a 64-bit number halves to zero in
--                 64 rounds, and one more round sees it.
--   BigInt        src/numerica_core/big_int.cc. `small` is the inline int64_t, `big` an mpz_t. GMP
--                 is the record Gmp: the functions called, with the values that GMP's manual
--                 documents, for any width of long. Most results are stated where long has 64 bits; LongWidth
--                 says what promotion keeps where it has fewer, as on Windows, the one target here
--                 that needs the portable overflow test of products. The operators share the shape
--                 `binary`. Gcd has gcd and extended_gcd, with
--                 the record GmpGcd of the two calls; Moves copies and moves between numbered
--                 variables. The conversions to text and double are not modelled.
--   SymbolTable   src/symbol_table/symbol_table.cc. A Snapshot has the entries and the index by
--                 name as an association list. `get_symbol_from` separates the snapshot of the
--                 first, lock-free read from the one published when the lock is held; Concurrency
--                 has the interleavings of such calls as a step relation. std::sort is an
--                 insertion sort.
--   Workspace     src/symbol_table/workspace.cc. A chunk is its capacity and used size, a slot of
--                 memory a chunk's position and an offset in it; `address` is the pointer, over the
--                 addresses of the chunks' memory, which are a parameter. Construction of objects and the
--                 sanitizer's calls are not modelled.
--   Monomial      src/poly_core/monomial.cc. A monomial is the list of its exponents, each sum and
--                 difference of them taken modulo 2 ^ 32; the operators throw, as `Checked`, where
--                 the numbers of variables differ.
--   Algebra       src/algebra_core/include/algebra_core/concepts.hh as the interfaces Ring and
--                 EuclideanDomain, with laws; gcd and extended_gcd of generic_algorithms.hh beside
--                 it over any Euclidean domain, on fuel: the remainders shrink, so that one round
--                 more than the size of the second operand is enough. `integer_domain` is
--                 IntegerRing of src/algebra_core/rings.cc.
--   Polynomial    src/poly_core/include/poly_core/polynomial.hh over a Ring: the list of variables
--                 and the sorted list of terms. `value` is the function that a polynomial stands
--                 for. `merge_terms`, `collect` and `erase_zeros` are its loops; coeff_pow has 33
--                 rounds, as a 32-bit exponent needs at most.
--   Atom          src/atom_core/atom.cc. An expression is a `node` of a Kind (AtomTag with its payload)
--                 over its children; Order has operator<=> on expressions. Store is the arena: nodes,
--                 the pool of child indices, and the hash table as an association list; indices and
--                 sizes are taken modulo 2 ^ 32, hashes modulo 2 ^ 64. `Denotes` relates a slot to
--                 the expression it stands for. Builders has the accessors and the operations that
--                 make sums, products, powers and calls; the comparison through the arena has the
--                 number of nodes as its depth, since children stand before their parents.
--   Derivative    src/calculus_core/derivative.cc on expressions: the rules by kind of node, the hooks and
--                 their registry. Value has what an expression stands for in a ring with powers and
--                 functions, and the forward-mode derivative of it.
--   AtomConversion  polynomial_to_atom of src/poly_core/atom_conversion.cc, on expressions, and in Reader
--                 atom_to_polynomial; Value and Reading compare the values of polynomial and
--                 expression, and RoundTrip goes both ways.
--   Rewrite       src/pattern_core/wildcard.cc, and the substitution of src/pattern_core/rewrite.cc on
--                 expressions; bindings are an association list.
--   Normalize     src/atom_core/normalize.cc on expressions, with the maps as sorted lists of entries.
--   Matcher       src/pattern_core/matcher.cc on expressions. A pool has the target's children with the
--                 flag `used` of each; `try_each` is the loop over it, with the attempts that are left.
--                 Sequence wildcards are skipped by the assignment, not split off before it. Sequences
--                 has equality and sequence wildcards, Children the ways to match children, and Impl
--                 match_impl. Search and Counted have the lemmas on assignments, Sound and Reflexive the results.
--   Replace       replace_all and replace_all_multiple of src/pattern_core/rewrite.cc, over Matcher and
--                 Rewrite. The fuel of the loop is its cap on passes.
--   HyperDual     src/numerica_core/include/numerica_core/hyper_dual.hh over a record of the scalar type's
--                 operations. No law is asked of them, since the program's scalars are floating
--                 point. `fill` is the loop that makes an array's elements from those before; Order
--                 compares two orders, Recurrences reads the finished arrays.
--   Dual          dual.hh beside it, over the same scalars.
--   Series        src/calculus_core/include/calculus_core/series.hh on expressions, over HyperDual. The loop of
--                 integer_power has as many rounds as the magnitude of the exponent, which halves. Power
--                 counts its factors, and Order compares two orders.
-- Common has the shared names, integers as `pos` and `negsuc` over the native numbers, and the
-- laws of residues. Each component has its test runs in a module Examples.
--
-- Not modelled: floating point (wrappers of the hardware and of MPFR), the language bindings and
-- samples in hello_core, examples and benchmarks, the
-- rationals of numerica_core, the gcd, division and factorization of polynomials, rational
-- polynomials and their conversions, row reduction, the parser and printer of atom_core, and the
-- threads of parallel_rewrite.cc.
pub mod Algebra
pub mod Atom
pub mod AtomConversion
pub mod BigInt
pub mod Common
pub mod Derivative
pub mod Dual
pub mod FiniteField
pub mod HyperDual
pub mod Matcher
pub mod Monomial
pub mod Normalize
pub mod Polynomial
pub mod Replace
pub mod Rewrite
pub mod Series
pub mod SymbolTable
pub mod Workspace
