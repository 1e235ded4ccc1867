-- ===== src/Assembler/Emit/Steps.antt =====
-- The calls of `printout` in `gen_8` and `gen_words` of assembler_class.cpp, one after another.
use frost32_cpu.Prelude.{
  ℕ, ◌+◌, ◌≡◌, ◌==◌, ◌∙◌, refl, sym, ap, arith, Bool, true, false, Bool-cases, inl, inr, List, [],
  ◌∷◌, ◌++◌, append_assoc, append-nil, if◌then◌else◌, ltb,
}
use frost32_cpu.Orange.{Orange, Laws, PrevCurrPair}
use frost32_cpu.Output.{Item, hex, dec, text, number}
use frost32_cpu.Assembler.{Assembler, is_pass_one}
use frost32_cpu.Assembler.Emit.{
  advance, gen_words, gen_8, when, printout, print_byte, print_address,
}
use frost32_cpu.Assembler.Emit.Lines.{
  at_address, moved, address_items, byte_items, on, on_pass_one, next, words_items, byte_line,
}

printout-printout :
    (xs ys : List Item) (s : Assembler) → printout ys (printout xs s) ≡ printout (xs ++ ys) s
printout-printout xs ys s = ap (λ o. record s { out = o }) (append_assoc s.out xs ys)

-- One more text after those that a state has output.
printout-after :
    (xs ys : List Item) (s t : Assembler)
    → t ≡ printout xs s
    → printout ys t ≡ printout (xs ++ ys) s
printout-after xs ys s t e = ap (printout ys) e ∙ printout-printout xs ys s

print_byte-after :
    (a : ℕ) (xs : List Item) (s t : Assembler)
    → t ≡ printout xs s
    → print_byte a t ≡ printout (xs ++ byte_items a) s
print_byte-after a xs s t e = elim (Bool-cases (ltb a 0x10)) [
  | inl c ↦ rw c (
      ap (λ u. printout (number a ∷ []) (printout (number 0 ∷ []) u)) e
      ∙ ap (printout (number a ∷ [])) (printout-printout xs (number 0 ∷ []) s)
      ∙ printout-printout (xs ++ number 0 ∷ []) (number a ∷ []) s
      ∙ ap (λ o. printout o s) (append_assoc xs (number 0 ∷ []) (number a ∷ [])))
  | inr c ↦ rw c (printout-after xs (number a ∷ []) s t e)
]

printout-nil : (s : Assembler) → s ≡ printout [] s
printout-nil s = ap (λ o. record s { out = o }) (sym (append-nil s.out))

-- An `if` whose branches are two values of one function of the test.
pub if-both :
    (test : Bool) (x y : Assembler) (f : Bool → Assembler)
    → x ≡ f true
    → y ≡ f false
    → (if test then x else y) ≡ f test
if-both true x y f p q = p
if-both false x y f p q = q

pub when-printout :
    (test : Bool) (xs : List Item) (s : Assembler)
    → when test (printout xs) s ≡ printout (on test xs) s
when-printout true xs s = refl
when-printout false xs s = printout-nil s

pub printout_on-printout_on :
    (test : Bool) (xs ys : List Item) (s : Assembler)
    → printout (on test ys) (printout (on test xs) s) ≡ printout (on test (xs ++ ys)) s
printout_on-printout_on true xs ys s = printout-printout xs ys s
printout_on-printout_on false xs ys s = printout-printout [] [] s

pub moved-moved : (m n : ℕ) (s : Assembler) → moved n (moved m s) ≡ moved (m + n) s
moved-moved m n s = ap (λ c. record s { pc = at_address c }) (omega arith)

module _ (lib : Orange) (laws : Laws lib) where
  pub advance-moved : (size : ℕ) (s : Assembler) → advance lib size s ≡ moved size s
  unfolding advance
  advance-moved size s = rw (laws.back_up_lem) refl

  print_address-after :
      (xs : List Item) (s t : Assembler)
      → t ≡ printout xs s
      → print_address lib t ≡ printout (xs ++ address_items s.pc) s
  print_address-after xs s t e = elim (Bool-cases (s.pc.prev == s.pc.curr)) [
    | inl c ↦
        ap (print_address lib) e
        ∙ rw (laws.has_changed_lem, c) (ap (λ o. printout o s) (sym (append-nil xs)))
    | inr c ↦
        ap (print_address lib) e
        ∙ rw (laws.has_changed_lem, c)
            (printout-printout xs (text "@" ∷ number s.pc.curr ∷ text "\n" ∷ []) s)
  ]

  pub gen_words-moved :
      (word : ℕ) (s : Assembler)
      → gen_words lib word s ≡ moved 2 (printout (on_pass_one s (words_items lib word s.pc)) s)
  unfolding gen_words
  gen_words-moved word s =
      let a = lib.get_bits_with_range word 15 8 in
      let b = lib.get_bits_with_range word 7 0 in
      let e0 = print_address-after (hex ∷ []) s (printout (hex ∷ []) s) refl in
      let e1 = print_byte-after a _ s _ e0 in
      let e2 = print_byte-after b _ s _ e1 in
      let e3 = printout-after _ (dec ∷ []) s _ e2 in
      elim (Bool-cases (is_pass_one s)) [
        | inl e ↦
            ap
              (λ c. advance lib 2 (
                when c
                  (λ t.
                    printout (dec ∷ [])
                      (print_byte b (print_byte a (print_address lib (printout (hex ∷ []) t)))))
                  s))
              e
            ∙ advance-moved 2 _
            ∙ ap (moved 2) e3
            ∙ ap (λ c. moved 2 (printout (if c then words_items lib word s.pc else []) s)) (sym e)
        | inr e ↦ rw e (advance-moved 2 s ∙ ap (moved 2) (printout-nil s))
      ]

  pub gen_8-moved :
      (word : ℕ) (s : Assembler)
      → gen_8 lib word s ≡ moved 1 (printout (on_pass_one s (byte_line word s.pc)) s)
  unfolding gen_8
  gen_8-moved word s =
      let e0 = print_address-after (hex ∷ []) s (printout (hex ∷ []) s) refl in
      let e1 = print_byte-after word _ s _ e0 in
      let e2 = printout-after _ (dec ∷ []) s _ e1 in
      elim (Bool-cases (is_pass_one s)) [
        | inl e ↦
            ap
              (λ c. when c (printout (text "\n" ∷ [])) (
                advance lib 1 (
                  when c
                    (λ t.
                      printout (dec ∷ [])
                        (print_byte word (print_address lib (printout (hex ∷ []) t))))
                    s)))
              e
            ∙ ap (printout (text "\n" ∷ [])) (advance-moved 1 _ ∙ ap (moved 1) e2)
            ∙ ap (moved 1) (printout-printout _ (text "\n" ∷ []) s)
            ∙ ap (λ c. moved 1 (printout (if c then byte_line word s.pc else []) s)) (sym e)
        | inr e ↦ rw e (advance-moved 1 s ∙ ap (moved 1) (printout-nil s))
      ]

  -- A step that outputs on the second pass and moves the program counter, after another.
  pub step_after :
      (step : Assembler → Assembler) (m n : ℕ) (xs : List Item) (g : PrevCurrPair → List Item)
      (s t : Assembler)
      → ((r : Assembler) → step r ≡ moved n (printout (on_pass_one r (g r.pc)) r))
      → t ≡ moved m (printout (on_pass_one s xs) s)
      → step t ≡ moved (m + n) (printout (on_pass_one s (xs ++ g (next m s.pc))) s)
  step_after step m n xs g s t f e =
      f t
      ∙ ap (λ r. moved n (printout (on_pass_one r (g r.pc)) r)) e
      ∙ moved-moved m n (printout (on_pass_one s (g (next m s.pc))) (printout (on_pass_one s xs) s))
      ∙ ap (moved (m + n)) (printout_on-printout_on (is_pass_one s) xs (g (next m s.pc)) s)

  pub printout_step :
      (test : Bool) (m : ℕ) (xs ys : List Item) (s t : Assembler)
      → test ≡ is_pass_one s
      → t ≡ moved m (printout (on_pass_one s xs) s)
      → when test (printout ys) t ≡ moved m (printout (on_pass_one s (xs ++ ys)) s)
  printout_step test m xs ys s t h e =
      when-printout test ys t
      ∙ ap (λ b. printout (on b ys) t) h
      ∙ ap (printout (on_pass_one s ys)) e
      ∙ ap (moved m) (printout_on-printout_on (is_pass_one s) xs ys s)
