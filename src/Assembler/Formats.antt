-- ===== src/Assembler/Formats.antt =====
-- The two formats of the output of assembler_class.cpp, bytes and words, apart from the output: the
-- steps that do not look at what a format changes.
pub mod Expressions
pub mod Instructions
pub mod Pseudo
pub mod Scopes
pub mod Programs
use frost32_cpu.Prelude.{
  ℕ, ◌≡◌, ◌⊎◌, ◌∙◌, refl, ap, sym, List, [], ◌∷◌, String, Bool, true, false, not, ◌&&◌,
  if◌then◌else◌, Bool-cases, inl, inr,
}
use frost32_cpu.Prelude.Int.{ℤ}
use frost32_cpu.Prelude.Text.{elem}
use frost32_cpu.Orange.{Orange, Laws}
use frost32_cpu.Outcome.{Outcome, Error, ok, exits, uncaught, undefined, eek}
use frost32_cpu.Assembler.{
  Assembler, Warning, M, ◌>>=◌, ◌>>◌, pure, err, undefined_behaviour, lift, get, modify, push_num,
  pop_num, push_str, pop_str, push_scope_child_num, pop_scope_child_num, get_top_scope_child_num,
  is_pass_one,
}
use frost32_cpu.Assembler.Emit.{gen_8, gen_16, gen_32}
use frost32_cpu.Assembler.Emit.Counter.{gen_32-moved, gen_16-moved}
use frost32_cpu.Assembler.Emit.Steps.{gen_8-moved}
use frost32_cpu.Assembler.Encode.{warn_unless}
use frost32_cpu.Assembler.Tokens.{push_tok_if}

-- The state without the format, the output, and what was the last address of the program counter.
abbrev pub unseen : Assembler → Assembler
unseen s = record s { pc = record { prev = 0; curr = s.pc.curr }; show_words = false; out = [] }

abbrev pub seen : {A : Type 0} → Outcome (A × Assembler) → Outcome (A × Assembler)
seen (ok (a, s)) = ok (a, unseen s)
seen (exits e) = exits e
seen uncaught = uncaught
seen undefined = undefined

-- What a step gives and does to the rest of the state does not depend on what is not seen.
pub record Blind {A : Type 0} (m : M A) : Type 0 where
  pub same : (s : Assembler) → seen (m s) ≡ seen (m (unseen s))

module _ {A B : Type 0} where
  seen-bind :
      (r : Outcome (A × Assembler)) (k : A → M B) (s : Assembler)
      → ((a : A) → Blind (k a))
      → seen (((λ (x : Assembler). r) >>= k) s) ≡ seen (((λ (x : Assembler). seen r) >>= k) s)
  seen-bind (ok (a, t)) k s h = (h a).same t
  seen-bind (exits e) k s h = refl
  seen-bind uncaught k s h = refl
  seen-bind undefined k s h = refl

  pub bind-Blind : (m : M A) (k : A → M B) → Blind m → ((a : A) → Blind (k a)) → Blind (m >>= k)
  bind-Blind m k h g = record {
    same = λ s.
        seen-bind (m s) k s g
        ∙ ap (λ r. seen (((λ (x : Assembler). r) >>= k) s)) (h.same s)
        ∙ sym (seen-bind (m (unseen s)) k s g);
  }

  pub lift_then-Blind :
      (r : Outcome A) (k : A → M B) → ((a : A) → Blind (k a)) → Blind (lift r >>= k)
  lift_then-Blind (ok a) k h = h a
  lift_then-Blind (exits e) k h = record { same = λ s. refl }
  lift_then-Blind uncaught k h = record { same = λ s. refl }
  lift_then-Blind undefined k h = record { same = λ s. refl }

pub if-Blind : {A : Type 0} (b : Bool) (m n : M A) → Blind m → Blind n → Blind (if b then m else n)
if-Blind true m n h g = h
if-Blind false m n h g = g

pub pure-Blind : {A : Type 0} (a : A) → Blind (pure a)
pure-Blind a = record { same = λ s. refl }

pub err-Blind : {A : Type 0} (e : Error) → Blind (err {A = A} e)
err-Blind e = record { same = λ s. refl }

pub undefined_behaviour-Blind : {A : Type 0} → Blind (undefined_behaviour {A = A})
undefined_behaviour-Blind = record { same = λ s. refl }

pub modify-Blind :
    (f : Assembler → Assembler)
    → ((s : Assembler) → unseen (f s) ≡ unseen (f (unseen s)))
    → Blind (modify f)
modify-Blind f h = record { same = λ s. ap (λ t. ok (tt, t)) (h s) }

pub get_then-Blind :
    {B : Type 0} (k : Assembler → M B)
    → ((s : Assembler) → seen (k s s) ≡ seen (k (unseen s) (unseen s)))
    → Blind (get >>= k)
get_then-Blind k h = record { same = h }

pub List-cases : {A : Type 0} (l : List A) → (l ≡ []) ⊎ ((x : A) × (xs : List A) × (l ≡ x ∷ xs))
List-cases [] = inl refl
List-cases (x ∷ xs) = inr (x, xs, refl)

pub push_num-Blind : (n : ℤ) → Blind (push_num n)
unfolding push_num
push_num-Blind n = record { same = λ s. refl }

pub push_str-Blind : (name : String) → Blind (push_str name)
unfolding push_str
push_str-Blind name = record { same = λ s. refl }

pub push_scope_child_num-Blind : (n : ℕ) → Blind (push_scope_child_num n)
unfolding push_scope_child_num
push_scope_child_num-Blind n = record { same = λ s. refl }

pub pop_num-Blind : Blind pop_num
unfolding pop_num
pop_num-Blind = record {
  same = λ s. elim (List-cases s.num_stack) [ inl e ↦ rw e refl | inr (x, xs, e) ↦ rw e refl ];
}

pub pop_str-Blind : Blind pop_str
unfolding pop_str
pop_str-Blind = record {
  same = λ s. elim (List-cases s.str_stack) [ inl e ↦ rw e refl | inr (x, xs, e) ↦ rw e refl ];
}

pub pop_scope_child_num-Blind : Blind pop_scope_child_num
unfolding pop_scope_child_num
pop_scope_child_num-Blind = record {
  same = λ s. elim (List-cases s.scope_child_num_stack) [
    | inl e ↦ rw e refl
    | inr (x, xs, e) ↦ rw e refl
  ];
}

pub get_top_scope_child_num-Blind : Blind get_top_scope_child_num
unfolding get_top_scope_child_num
get_top_scope_child_num-Blind = record {
  same = λ s. elim (List-cases s.scope_child_num_stack) [
    | inl e ↦ rw e refl
    | inr (x, xs, e) ↦ rw e refl
  ];
}

pub push_tok_if-Blind :
    (tokens : List String) (message tok : String) → Blind (push_tok_if tokens message tok)
unfolding push_tok_if
push_tok_if-Blind tokens message tok =
    if-Blind (elem tok tokens) _ _ (push_str-Blind tok) (err-Blind (eek message))

pub warn_unless-Blind : (fits : Bool) (w : Warning) → Blind (modify (warn_unless fits w))
warn_unless-Blind fits w =
    modify-Blind (warn_unless fits w)
      (λ s. elim (Bool-cases (is_pass_one s && not fits)) [ inl e ↦ rw e refl | inr e ↦ rw e refl ])

module _ (lib : Orange) (laws : Laws lib) (word : ℕ) where
  pub gen_8-Blind : Blind (modify (gen_8 lib word))
  gen_8-Blind = modify-Blind (gen_8 lib word) (λ s.
      ap unseen (gen_8-moved lib laws word s)
      ∙ sym (ap unseen (gen_8-moved lib laws word (unseen s))))

  pub gen_16-Blind : Blind (modify (gen_16 lib word))
  gen_16-Blind = modify-Blind (gen_16 lib word) (λ s.
      ap unseen (gen_16-moved lib laws word s)
      ∙ sym (ap unseen (gen_16-moved lib laws word (unseen s))))

  pub gen_32-Blind : Blind (modify (gen_32 lib word))
  gen_32-Blind = modify-Blind (gen_32 lib word) (λ s.
      ap unseen (gen_32-moved lib laws word s)
      ∙ sym (ap unseen (gen_32-moved lib laws word (unseen s))))

pub ruleset blind_rules = (
  bind-Blind, lift_then-Blind, pop_num-Blind, pop_str-Blind, push_num-Blind, push_str-Blind,
  push_tok_if-Blind, warn_unless-Blind,
)
