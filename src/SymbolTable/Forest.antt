-- ===== src/SymbolTable/Forest.antt =====
-- How the scopes of scoped_table_base_class.hpp grow while a program is read, and which scope is
-- which child of another.
use frost32_cpu.Prelude.{
  ℕ, ◌+◌, ◌≤◌, ◌≡◌, ◌≢◌, ◌==◌, ◌∙◌, refl, ap, sym, List, [], ◌∷◌, ◌++◌, append_assoc, append-nil,
  some, length, get_elem?, set, lt-get_elem?, get_elem?-set_self, get_elem?-set_ne,
  get_elem?-append_left, get_elem?-append_length, length-set, length-append, Bool-cases, ==_iff,
  arith, inl, inr,
}
use frost32_cpu.SymbolTable.Shape.{Scope}

-- The scope is the child of another, by its place among the children, and not the root.
pub record IsChild (f : List Scope) (p k c : ℕ) : Type 0 where
  pub above : Scope
  pub is_above : get_elem? f p ≡ some above
  pub is_child : get_elem? above.children k ≡ some c
  pub below : Scope
  pub is_below : get_elem? f c ≡ some below
  pub has_parent : below.parent ≡ p
  pub inside : c ≢ 0

-- Every scope is still there, with the same parent and with its children first.
abbrev pub Extends : List Scope → List Scope → Type 0
Extends f g =
    (p : ℕ) (x : Scope)
    → get_elem? f p ≡ some x
    → (y : Scope) × (more : List ℕ) × ((get_elem? g p ≡ some y)
        × (y.parent ≡ x.parent)
        × (y.children ≡ x.children ++ more))

pub IsChild-Extends :
    (f g : List Scope) (p k c : ℕ) → Extends f g → IsChild f p k c → IsChild g p k c
IsChild-Extends f g p k c e i =
    let (above, more, (a, _, m)) = e p i.above i.is_above in
    let (below, _, (b, q, _)) = e c i.below i.is_below in
    record {
      above = above;
      is_above = a;
      is_child =
          ap (λ l. get_elem? l k) m
          ∙ get_elem?-append_left i.above.children more k
              (lt-get_elem? i.above.children k c i.is_child)
          ∙ i.is_child;
      below = below;
      is_below = b;
      has_parent = q ∙ i.has_parent;
      inside = i.inside;
    }

-- The scope with more children.
abbrev pub with_more : Scope → List ℕ → Scope
with_more x more = record x { children = x.children ++ more }

-- One scope has a number of children more, all others are as they were, and there may be new ones.
pub record Grows (p n : ℕ) (f g : List Scope) : Type 0 where
  pub others : (q : ℕ) (x : Scope) → q ≢ p → get_elem? f q ≡ some x → get_elem? g q ≡ some x
  pub more :
      (x : Scope)
      → get_elem? f p ≡ some x
      → (added : List ℕ) × ((length added ≡ n) × (get_elem? g p ≡ some (with_more x added)))
  pub longer : length f ≤ length g

no_more : (x : Scope) → with_more x [] ≡ x
no_more x = ap (λ l. record x { children = l }) (append-nil x.children)

pub Grows-same : (p : ℕ) (f : List Scope) → Grows p 0 f f
Grows-same p f = record {
  others = λ q x ne e. e;
  more = λ x e. ([], (refl, e ∙ ap (some) (sym (no_more x))));
  longer = omega arith;
}

pub Grows-trans :
    (p m n : ℕ) (f g h : List Scope) → Grows p m f g → Grows p n g h → Grows p (m + n) f h
Grows-trans p m n f g h a b = record {
  others = λ q x ne e. b.others q x ne (a.others q x ne e);
  more = λ x e.
      let (some_more, (size, there)) = a.more x e in
      let (yet_more, (size', there')) = b.more (with_more x some_more) there in
      (
        some_more ++ yet_more,
        (
          length-append some_more yet_more ∙ omega (arith, size, size'),
          there'
              ∙ ap (λ l. some (record x { children = l }))
                  (append_assoc x.children some_more yet_more),
        ),
      );
  longer = omega (arith, a.longer, b.longer);
}

pub Grows-Extends : (p n : ℕ) (f g : List Scope) → Grows p n f g → Extends f g
Grows-Extends p n f g a q x e = elim (Bool-cases (q == p)) [
  | inl same ↦
      let s = (==_iff q p).0 same in
      let (added, (_, there)) = a.more x (ap (get_elem? f) (sym s) ∙ e) in
      (with_more x added, added, (ap (get_elem? g) s ∙ there, refl, refl))
  | inr different ↦ (
    x,
    [],
    (
      a.others q x (λ s. ground (arith, different, (==_iff q p).1 s)) e,
      refl,
      sym (append-nil x.children),
    ),
  )
]

-- The scopes with one more, below another.
abbrev pub with_block : List Scope → ℕ → Scope → List Scope
with_block f p x =
    set f p (with_more x (length f ∷ [])) ++ record { parent = p; children = [] } ∷ []

module _ (f : List Scope) (p : ℕ) (x : Scope) (there : get_elem? f p ≡ some x) where
  abbrev extended : List Scope
  extended = set f p (with_more x (length f ∷ []))

  below_length : length extended ≡ length f
  below_length = length-set f p (with_more x (length f ∷ []))

  abbrev pub block : Scope
  block = record { parent = p; children = [] }

  pub with_block-new : get_elem? (with_block f p x) (length f) ≡ some block
  with_block-new =
      ap (get_elem? (with_block f p x)) (sym below_length) ∙ get_elem?-append_length extended block

  with_block-parent : get_elem? (with_block f p x) p ≡ some (with_more x (length f ∷ []))
  with_block-parent =
      let h = lt-get_elem? f p x there in
      get_elem?-append_left extended (block ∷ []) p (omega (arith, h, below_length))
      ∙ get_elem?-set_self f p (with_more x (length f ∷ [])) h

  with_block-others :
      (q : ℕ) (y : Scope) → q ≢ p → get_elem? f q ≡ some y → get_elem? (with_block f p x) q ≡ some y
  with_block-others q y ne e =
      let h = lt-get_elem? f q y e in
      get_elem?-append_left extended (block ∷ []) q (omega (arith, h, below_length))
      ∙ get_elem?-set_ne f p q (with_more x (length f ∷ [])) (λ s. ne (sym s))
      ∙ e

  pub with_block-length : length (with_block f p x) ≡ length f + 1
  with_block-length = length-append extended (block ∷ []) ∙ omega (arith, below_length)

  pub with_block-IsChild :
      length f ≢ 0 → IsChild (with_block f p x) p (length x.children) (length f)
  with_block-IsChild z = record {
    above = with_more x (length f ∷ []);
    is_above = with_block-parent;
    is_child = get_elem?-append_length x.children (length f);
    below = block;
    is_below = with_block-new;
    has_parent = refl;
    inside = z;
  }

  -- What grows in the new scope leaves all others, but for the one child, as they were.
  pub with_block-Grows :
      (n : ℕ) (g : List Scope) → Grows (length f) n (with_block f p x) g → Grows p 1 f g
  with_block-Grows n g a = record {
    others = λ q y ne e.
        let h = lt-get_elem? f q y e in
        a.others q y (λ s. absurd (omega (arith, h, s))) (with_block-others q y ne e);
    more = λ y e.
        let h = lt-get_elem? f p x there in
        let same : x ≡ y = cc (there, e) in
        (
          length f ∷ [],
          (
            refl,
            a.others p (with_more x (length f ∷ [])) (λ s. absurd (omega (arith, h, s)))
                  with_block-parent
                ∙ ap (λ k. some (with_more k (length f ∷ []))) same,
          ),
        );
    longer = omega (arith, with_block-length, a.longer);
  }
