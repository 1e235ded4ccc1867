-- ===== src/Assembler/Emits.antt =====
-- What a visitor of assembler_class.cpp that outputs words does to the state.
mod Posts
pub use Posts.{
  Ends, InScope, Post, bind-Ends, lift-Ends, if-Post, err-Post, modify-Post, modify_then-Post,
  lift-Post, push_tok_if-Post, pop_str-Post, valued-Post, visit_value-Post, post_rules, then-Post,
  exact_then, exact_then-Post, exact-Post, weaken-Post,
}
use mathlib.Core.Path.{subst}
use frost32_cpu.Prelude.{
  ℕ, ◌+◌, ◌%◌, ◌^◌, ◌<◌, ◌≡◌, ◌∙◌, refl, ap, sym, Bool, false, not, ◌&&◌, List, ◌++◌, append-nil,
  Bool-cases, inl, inr, arith,
}
use frost32_cpu.Orange.{Orange, Laws}
use frost32_cpu.Output.{Item}
use frost32_cpu.Assembler.{Assembler, Warning, M, ◌>>=◌, is_pass_one}
use frost32_cpu.Assembler.Emit.{gen_8, gen_16, gen_32, printout}
use frost32_cpu.Assembler.Emit.Lines.{moved, on, on_pass_one}
use frost32_cpu.Assembler.Emit.Counter.{gen_32-moved, gen_16-moved}
use frost32_cpu.Assembler.Emit.Steps.{gen_8-moved}
use frost32_cpu.Assembler.Encode.{warn_unless}

-- The state with the program counter, the output and the warnings of another.
abbrev pub output_of : Assembler → Assembler → Assembler
output_of u s = record s { pc = u.pc; out = u.out; warnings = u.warnings }

-- The program counter moves by a number of bytes, modulo 2 ^ 64, on either pass; the first pass
-- outputs nothing and warns of nothing, and all else of the state is kept.
pub record Emits (size : ℕ) (s s' : Assembler) : Type 0 where
  pub kept : s' ≡ output_of s' s
  pub counted : s'.pc.curr % 2 ^ 64 ≡ (s.pc.curr + size) % 2 ^ 64
  pub bounded : s.pc.curr < 2 ^ 64 → s'.pc.curr < 2 ^ 64
  pub quiet : is_pass_one s ≡ false → (s'.out ≡ s.out) × (s'.warnings ≡ s.warnings)

pub Emits-same : (s : Assembler) → Emits 0 s s
Emits-same s = record {
  kept = refl;
  counted = omega arith;
  bounded = λ h. h;
  quiet = λ h. (refl, refl);
}

pub Emits-trans : (m n : ℕ) (s t u : Assembler) → Emits m s t → Emits n t u → Emits (m + n) s u
Emits-trans m n s t u p q = record {
  kept = q.kept ∙ ap (output_of u) p.kept;
  counted = omega (arith, p.counted, q.counted);
  bounded = λ h. q.bounded (p.bounded h);
  quiet = λ h.
      let (o, w) = p.quiet h in
      let (o', w') = q.quiet (ap is_pass_one p.kept ∙ h) in (o' ∙ o, w' ∙ w);
}

-- Output and a move of the program counter.
moved-Emits :
    (size : ℕ) (items : List Item) (s t : Assembler)
    → t ≡ moved size (printout (on_pass_one s items) s)
    → Emits size s t
moved-Emits size items s t e =
    subst (λ x. Emits size s x) (sym e)
      (record {
        kept = refl;
        counted = omega arith;
        bounded = λ h. omega arith;
        quiet = λ h. (ap (λ b. s.out ++ on b items) h ∙ append-nil s.out, refl);
      })

pub warn_unless-Emits :
    (fits : Bool) (w : Warning) (s : Assembler) → Emits 0 s (warn_unless fits w s)
warn_unless-Emits fits w s = elim (Bool-cases (is_pass_one s && not fits)) [
  | inr e ↦ rw e (Emits-same s)
  | inl e ↦ rw e (record {
    kept = refl;
    counted = omega arith;
    bounded = λ h. h;
    quiet = λ h. ground (arith, e, h);
  })
]

module _ (lib : Orange) (laws : Laws lib) where
  pub gen_8-Emits : (word : ℕ) (s : Assembler) → Emits 1 s (gen_8 lib word s)
  gen_8-Emits word s = moved-Emits 1 _ s _ (gen_8-moved lib laws word s)

  pub gen_16-Emits : (word : ℕ) (s : Assembler) → Emits 2 s (gen_16 lib word s)
  gen_16-Emits word s = moved-Emits 2 _ s _ (gen_16-moved lib laws word s)

  pub gen_32-Emits : (word : ℕ) (s : Assembler) → Emits 4 s (gen_32 lib word s)
  gen_32-Emits word s = moved-Emits 4 _ s _ (gen_32-moved lib laws word s)

  -- A word after a warning.
  pub warned_word-Emits :
      (fits : Bool) (w : Warning) (word : ℕ) (s : Assembler)
      → Emits 4 s (gen_32 lib word (warn_unless fits w s))
  warned_word-Emits fits w word s =
      Emits-trans 0 4 s _ _ (warn_unless-Emits fits w s) (gen_32-Emits word (warn_unless fits w s))

-- Output after output.
pub Emits-then-Post :
    (a b : ℕ) (m : M (Unit {0})) (k : Unit {0} → M (Unit {0})) (s : Assembler)
    → Post m s (λ t. Emits a s t)
    → ((t : Assembler) → Post (k tt) t (λ u. Emits b t u))
    → Post (m >>= k) s (λ u. Emits (a + b) s u)
Emits-then-Post a b m k s h g =
    then-Post m k s (λ t. Emits a s t) (λ u. Emits (a + b) s u) h
      (λ t p.
        weaken-Post (k tt) t (λ u. Emits b t u) (λ u. Emits (a + b) s u) (g t)
          (λ u q. Emits-trans a b s t u p q))
