-- ===== src/Prelude/Text.antt =====
-- Texts: their equality as a Boolean test, and tables keyed by texts.
use Prim.Native.Nat.{ℕ}
use Prim.Native.Char.{code}
use Prim.Native.String.{String}
use text.Mathlib.Text.{◌==◌}
use text.Mathlib.TextEquality.{eq_iff}
use mathlib.Core.Path.{◌≡◌, refl, ap}
use mathlib.Core.Bool.{Bool, true, false, ◌&&◌, ◌||◌}
use mathlib.Core.Logic.{◌↔◌, ◌⊎◌, inl, inr}
use mathlib.Core.Option.{Option, none, some}
use mathlib.Core.List.{List, [], ◌∷◌, ◌++◌}
use native.Mathlib.Omega.{arith}
use frost32_cpu.Prelude.Tests.{if◌then◌else◌, Bool-cases}

abbrev pub str_eq : String → String → Bool
str_eq s t = s == t

pub str_eq_iff : (s t : String) → (str_eq s t ≡ true) ↔ (s ≡ t)
str_eq_iff = eq_iff

-- The code points of a text: its bytes, as all texts of the program are ASCII.
abbrev pub codes : String → List ℕ
codes String.[] = []
codes (String.◌∷◌ c s) = code c ∷ codes s

abbrev pub elem : String → List String → Bool
elem s [] = false
elem s (t ∷ ts) = str_eq s t || elem s ts

-- The value of the first entry with the key.
abbrev pub lookup {ℓ} : {V : Type ℓ} → String → List (String × V) → Option V
lookup k [] = none
lookup k ((j, v) ∷ m) = if str_eq k j then some v else lookup k m

abbrev pub all_of {ℓ} : {A : Type ℓ} → (A → Bool) → List A → Bool
all_of p [] = true
all_of p (x ∷ xs) = p x && all_of p xs

-- What is tested of each listed text holds of a text that is listed.
pub all_of-elem :
    (p : String → Bool) (s : String) (ts : List String)
    → all_of p ts ≡ true
    → elem s ts ≡ true
    → p s ≡ true
all_of-elem p s [] a h = cc
all_of-elem p s (t ∷ ts) a h = elim (Bool-cases (str_eq s t)) [
  | inl e ↦ ground (arith, ap p ((str_eq_iff s t).0 e))
  | inr e ↦ ground (arith, all_of-elem p s ts)
]

pub elem-append :
    (name : String) (xs ys : List String)
    → elem name (xs ++ ys) ≡ true
    → (elem name xs ≡ true) ⊎ (elem name ys ≡ true)
elem-append name [] ys e = inr e
elem-append name (x ∷ xs) ys e = elim (Bool-cases (str_eq name x)) [
  | inl same ↦ inl (rw same refl)
  | inr different ↦ elim (elem-append name xs ys (ground (arith, different, e))) [
    | inl h ↦ inl (rw (different, h) refl)
    | inr h ↦ inr h
  ]
]

pub elem-left :
    (name : String) (xs ys : List String) → elem name xs ≡ true → elem name (xs ++ ys) ≡ true
elem-left name [] ys e = cc
elem-left name (x ∷ xs) ys e = elim (Bool-cases (str_eq name x)) [
  | inl same ↦ rw same refl
  | inr different ↦ rw different (elem-left name xs ys (ground (arith, different, e)))
]

pub elem-right :
    (name : String) (xs ys : List String) → elem name ys ≡ true → elem name (xs ++ ys) ≡ true
elem-right name [] ys e = e
elem-right name (x ∷ xs) ys e = elim (Bool-cases (str_eq name x)) [
  | inl same ↦ rw same refl
  | inr different ↦ rw different (elem-right name xs ys e)
]
