-- ===== src/Intern.antt =====
-- allocation_stuff.cpp of assembler_disassembler/src: `cstm_strdup` and the pool behind it. The
-- pool owns one string for each text; a pointer is the number of strings allocated before it.
-- `cstm_intdup`, which is the same over `int`, is not called.
use frost32_cpu.Prelude.{
  ℕ, suc, ◌<◌, ◌≡◌, ◌↔◌, List, [], ◌∷◌, String, Option, none, some, arith, Option-cases, inl, inr,
}
use frost32_cpu.Prelude.Text.{str_eq_iff, lookup}

pub record Pool : Type 0 where
  pub strings : List (String × ℕ)
  pub allocated : ℕ

abbrev pub empty : Pool
empty = record { strings = []; allocated = 0 }

-- What the second half of `cstm_strdup` does with the search of the pool.
abbrev insert_if_absent : Pool → String → Option ℕ → Pool × ℕ
insert_if_absent p s none =
    (record { strings = (s, p.allocated) ∷ p.strings; allocated = suc p.allocated }, p.allocated)
insert_if_absent p s (some i) = (p, i)

unfoldable pub cstm_strdup : String → Pool → Pool × ℕ
cstm_strdup s p = insert_if_absent p s (lookup s p.strings)

-- Every pointer of the pool was allocated, and no two texts share one.
abbrev IsBelow : ℕ → List (String × ℕ) → Type 0
IsBelow n [] = Unit
IsBelow n ((s, i) ∷ m) = (i < n) × IsBelow i m

abbrev pub IsValid : Pool → Type 0
IsValid p = IsBelow p.allocated p.strings

lookup-IsBelow :
    (n : ℕ) (m : List (String × ℕ))
    → IsBelow n m
    → (s : String) (i : ℕ) → lookup s m ≡ some i
    → i < n
lookup-IsBelow n [] h s i e = cc
lookup-IsBelow n ((t, j) ∷ m) h s i e = ground (arith, lookup-IsBelow j m h.1 s i)

lookup-injective :
    (n : ℕ) (m : List (String × ℕ))
    → IsBelow n m
    → (s t : String) (i : ℕ) → lookup s m ≡ some i
    → lookup t m ≡ some i
    → s ≡ t
lookup-injective n [] h s t i e f = cc
lookup-injective n ((u, j) ∷ m) h s t i e f = ground (
  arith,
  lookup-injective j m h.1 s t i,
  lookup-IsBelow j m h.1 s i,
  lookup-IsBelow j m h.1 t i,
  str_eq_iff s u,
  str_eq_iff t u,
)

pub cstm_strdup-IsValid : (s : String) (p : Pool) → IsValid p → IsValid (cstm_strdup s p).0
unfolding cstm_strdup
cstm_strdup-IsValid s p h = elim (Option-cases (lookup s p.strings)) [
  | inl e ↦ rw e (omega arith, h)
  | inr (i, e) ↦ rw e h
]

cstm_strdup-lookup :
    (s : String) (p : Pool) → lookup s (cstm_strdup s p).0.strings ≡ some (cstm_strdup s p).1
unfolding cstm_strdup
cstm_strdup-lookup s p = elim (Option-cases (lookup s p.strings)) [
  | inl e ↦ rw e (ground (arith, str_eq_iff s s))
  | inr (i, e) ↦ rw e e
]

-- A pointer that the pool has given out stays the pointer of its text.
cstm_strdup-keeps :
    (s t : String) (p : Pool) (i : ℕ)
    → lookup t p.strings ≡ some i
    → lookup t (cstm_strdup s p).0.strings ≡ some i
unfolding cstm_strdup
cstm_strdup-keeps s t p i h = elim (Option-cases (lookup s p.strings)) [
  | inl e ↦ rw e (ground (arith, str_eq_iff t s))
  | inr (j, e) ↦ rw e h
]

-- Two calls, the second on the pool that the first leaves, give one pointer exactly when they are
-- given one text; so the tables keyed by pointers are tables keyed by texts.
pub cstm_strdup_iff :
    (s t : String) (p : Pool)
    → IsValid p
    → let (q, i) = cstm_strdup s p in (i ≡ (cstm_strdup t q).1) ↔ (s ≡ t)
cstm_strdup_iff s t p h =
    let (q, i) = cstm_strdup s p in
    let found = cstm_strdup-lookup s p in
    let again = cstm_strdup-lookup t q in
    (
      λ e.
          lookup-injective _ _ (cstm_strdup-IsValid t q (cstm_strdup-IsValid s p h)) s t i
            (cstm_strdup-keeps t s q i found) (rw e again),
      λ e. cc (again, cstm_strdup-keeps t s q i found, e),
    )
