-- ===== src/SymbolTable/Addresses.antt =====
-- Which address a name stands for in a scope of scoped_table_base_class.hpp, through the operations
-- that add scopes, names and addresses.
use mathlib.Core.Path.{subst}
use frost32_cpu.Prelude.{
  ℕ, ltb, ◌+◌, ◌<◌, ◌≡◌, ◌≢◌, ◌∙◌, refl, ap, sym, List, ◌∷◌, [], ◌++◌, String, some, true, false,
  ◌==◌, ==_iff, length, get_elem?, get_elem?-lt, lt-get_elem?, set, get_elem?-set_self,
  get_elem?-set_ne, get_elem?-append_left, get_elem?-append_length, get_elem?-set_cases,
  if◌then◌else◌, Option-cases, Bool-cases, inl, inr, arith,
}
use frost32_cpu.Prelude.Text.{lookup, elem, str_eq, str_eq_iff}
use frost32_cpu.Outcome.{ok}
use frost32_cpu.SymbolTable.{
  SymbolTable, Symbol, Node, IdentTable, insert_ident, find_or_insert, define_label,
}
use frost32_cpu.SymbolTable.Scopes.{find_iff, Visible, here, outer}
use frost32_cpu.SymbolTable.Insert.{
  fresh, inserted, inserted-length, inserted-Visible, insert_or_assign-inserted,
  lookup-insert_ident, find_or_insert-found, find_or_insert-fresh,
}
use frost32_cpu.SymbolTable.Labels.{labelled, define_label-written, Visible-nodes}
use frost32_cpu.SymbolTable.Names.{names_of, table_at}
use frost32_cpu.SymbolTable.Sees.{Opens}
use frost32_cpu.SymbolTable.Shape.{IsWell, inserted-IsWell}

-- A symbol of the pool, with a name.
abbrev pub Named : SymbolTable → ℕ → String → Type 0
Named t i name =
    (symbol : Symbol) × ((get_elem? t.data_pool i ≡ some symbol) × (symbol.name ≡ name))

-- Each name of a scope stands for a symbol with this name.
abbrev pub IsNamed : SymbolTable → Type 0
IsNamed t =
    (p : ℕ) (node : Node) (name : String) (i : ℕ)
    → get_elem? t.nodes p ≡ some node
    → lookup name node.table ≡ some i
    → Named t i name

-- The symbol that a scope sees under a name is a label at an address.
abbrev pub Holds : SymbolTable → String → ℕ → ℕ → Type 0
Holds t name p a =
    (i : ℕ) × (symbol : Symbol) × (Visible t name i p
      × (get_elem? t.data_pool i ≡ some symbol)
      × (symbol.name ≡ name)
      × (symbol ≡ labelled symbol a))

Visible-Named :
    (t : SymbolTable) (name : String) (i p : ℕ) → IsNamed t → Visible t name i p → Named t i name
Visible-Named t name i p n (here _ node h e f) = n p node name i e f
Visible-Named t name i p n (outer _ node h e f d) = Visible-Named t name i node.parent n d

-- Nothing changes of what some scopes see and of some symbols but for some names.
pub record Untouched (names : List String) (t u : SymbolTable) : Type 0 where
  pub scopes :
      (p : ℕ) (node : Node)
      → get_elem? t.nodes p ≡ some node
      → (m : Node) × ((get_elem? u.nodes p ≡ some m)
          × (m.parent ≡ node.parent)
          × ((name : String)
              → elem name names ≡ false
              → lookup name m.table ≡ lookup name node.table))
  pub symbols :
      (i : ℕ) (symbol : Symbol)
      → get_elem? t.data_pool i ≡ some symbol
      → elem symbol.name names ≡ false
      → get_elem? u.data_pool i ≡ some symbol

pub Untouched-same : (names : List String) (t : SymbolTable) → Untouched names t t
Untouched-same names t = record {
  scopes = λ p node e. (node, (e, refl, (λ name h. refl)));
  symbols = λ i symbol e h. e;
}

pub Untouched-trans :
    (names : List String) (t u v : SymbolTable)
    → Untouched names t u
    → Untouched names u v
    → Untouched names t v
Untouched-trans names t u v a b = record {
  scopes = λ p node e.
      let (m, (there, parent, kept)) = a.scopes p node e in
      let (n, (there', parent', kept')) = b.scopes p m there in
      (n, (there', parent' ∙ parent, (λ name h. kept' name h ∙ kept name h)));
  symbols = λ i symbol e h. b.symbols i symbol (a.symbols i symbol e h) h;
}

pub Untouched-more :
    (a b : List String) (t u : SymbolTable)
    → ((name : String) → elem name b ≡ false → elem name a ≡ false)
    → Untouched a t u
    → Untouched b t u
Untouched-more a b t u h r = record {
  scopes = λ p node e.
      let (m, (there, parent, kept)) = r.scopes p node e in
      (m, (there, parent, (λ name k. kept name (h name k))));
  symbols = λ i symbol e k. r.symbols i symbol e (h symbol.name k);
}

module _ (names : List String) (t u : SymbolTable) (r : Untouched names t u) (name : String)
    (new : elem name names ≡ false) where
  Visible-Untouched : (i p : ℕ) → Visible t name i p → Visible u name i p
  Visible-Untouched i p (here _ node z e f) =
      let (m, (there, parent, kept)) = r.scopes p node e in here p m z there (kept name new ∙ f)
  Visible-Untouched i p (outer _ node z e f d) =
      let (m, (there, parent, kept)) = r.scopes p node e in
      outer p m z there (kept name new ∙ f)
        (subst (Visible u name i) (sym parent) (Visible-Untouched i node.parent d))

  -- A name that is not touched stands for the same address.
  pub Holds-Untouched : (p a : ℕ) → Holds t name p a → Holds u name p a
  Holds-Untouched p a (i, symbol, (v, e, n, l)) = (
    i,
    symbol,
    (Visible-Untouched i p v, r.symbols i symbol e (ap (λ s. elem s names) n ∙ new), n, l),
  )

pub elem_self : (name : String) → elem name (name ∷ []) ≡ true
elem_self name = ground (arith, (str_eq_iff name name).1 refl)

-- A symbol is made a label at an address.
module _ (t : SymbolTable) (i addr : ℕ) (symbol : Symbol)
    (there : get_elem? t.data_pool i ≡ some symbol) where
  abbrev at_label : SymbolTable
  at_label = record t { data_pool = set t.data_pool i (labelled symbol addr) }

  at_label_self : get_elem? at_label.data_pool i ≡ some (labelled symbol addr)
  at_label_self =
      get_elem?-set_self t.data_pool i (labelled symbol addr)
        (lt-get_elem? t.data_pool i symbol there)

  at_label-Named : (j : ℕ) (name : String) → Named t j name → Named at_label j name
  at_label-Named j name (other, (e, n)) = elim (Bool-cases (i == j)) [
    | inl same ↦
        let q : i ≡ j = (==_iff i j).0 same in
        (
          labelled symbol addr,
          (ap (get_elem? at_label.data_pool) (sym q) ∙ at_label_self, cc (e, n, there, q)),
        )
    | inr different ↦
        (other, (get_elem?-set_ne t.data_pool i j _ (ground (arith, different)) ∙ e, n))
  ]

  at_label-Untouched : Untouched (symbol.name ∷ []) t at_label
  at_label-Untouched = record {
    scopes = λ p node e. (node, (e, refl, (λ name h. refl)));
    symbols = λ j other e h. elim (Bool-cases (i == j)) [
      | inl same ↦
          let q : i ≡ j = (==_iff i j).0 same in
          let k : symbol ≡ other = cc (e, there, q) in
          let own = elem_self symbol.name in
          let absent = ap (λ s. elem s.name (symbol.name ∷ [])) k ∙ h in absurd (cc (own, absent))
      | inr different ↦ get_elem?-set_ne t.data_pool i j _ (ground (arith, different)) ∙ e
    ];
  }

lookup-insert_ident_ne :
    (m : IdentTable) (name other : String) (p : ℕ)
    → str_eq other name ≡ false
    → lookup other (insert_ident m name p) ≡ lookup other m
unfolding insert_ident
lookup-insert_ident_ne [] name other p ne = rw ne refl
lookup-insert_ident_ne ((n, q) ∷ m) name other p ne = elim (Bool-cases (str_eq name n)) [
  | inl same ↦
      let absent : str_eq other n ≡ false =
        ap (str_eq other) (sym ((str_eq_iff name n).0 same)) ∙ ne in
      rw (same, absent) refl
  | inr different ↦
      rw different
        (ap (λ r. if str_eq other n then some q else r) (lookup-insert_ident_ne m name other p ne))
]

-- A new symbol with a name, in a scope.
module _ (t : SymbolTable) (curr : ℕ) (node : Node) (symbol : Symbol)
    (there : get_elem? t.nodes curr ≡ some node) where
  made_pool-Named :
      (i : ℕ) (name : String) → Named t i name → Named (inserted t curr node symbol) i name
  made_pool-Named i name (other, (e, n)) = (
    other,
    (get_elem?-append_left t.data_pool (symbol ∷ []) i (lt-get_elem? t.data_pool i other e) ∙ e, n),
  )

  inserted-IsNamed : IsNamed t → IsNamed (inserted t curr node symbol)
  inserted-IsNamed n p other name i e f = elim (get_elem?-set_cases t.nodes curr _ p other e) [
    | inr old ↦ made_pool-Named i name (n p other name i old f)
    | inl (_, same) ↦
        let g = sym (ap (λ k. lookup name k.table) same) ∙ f in
        elim (Bool-cases (str_eq name symbol.name)) [
          | inl own ↦
              let q = (str_eq_iff name symbol.name).0 own in
              let k : length t.data_pool ≡ i =
                cc (g, q, lookup-insert_ident node.table symbol.name (length t.data_pool)) in
              (
                symbol,
                (
                  ap (get_elem? (t.data_pool ++ symbol ∷ [])) (sym k)
                      ∙ get_elem?-append_length t.data_pool symbol,
                  sym q,
                ),
              )
          | inr different ↦ made_pool-Named i name (
              n curr node name i there (
                sym (
                  lookup-insert_ident_ne node.table symbol.name name (length t.data_pool) different)
                ∙ g))
        ]
  ]

  inserted-Untouched : Untouched (symbol.name ∷ []) t (inserted t curr node symbol)
  inserted-Untouched = record {
    scopes = λ p other e. elim (Bool-cases (curr == p)) [
      | inl same ↦
          let q : curr ≡ p = (==_iff curr p).0 same in
          let k : node ≡ other = cc (there, e, q) in
          let made = record node {
            table = insert_ident node.table symbol.name (length t.data_pool);
          } in
          (
            made,
            (
              ap (get_elem? (set t.nodes curr made)) (sym q)
                  ∙ get_elem?-set_self t.nodes curr made (lt-get_elem? t.nodes curr node there),
              ap (λ n. n.parent) k,
              (λ name h.
                  lookup-insert_ident_ne node.table symbol.name name (length t.data_pool)
                    (ground (arith, h))
                  ∙ ap (λ n. lookup name n.table) k),
            ),
          )
      | inr different ↦ (
        other,
        (get_elem?-set_ne t.nodes curr p _ (ground (arith, different)) ∙ e, refl, (λ name h. refl)),
      )
    ];
    symbols = λ i other e h.
        get_elem?-append_left t.data_pool (symbol ∷ []) i (lt-get_elem? t.data_pool i other e) ∙ e;
  }

-- A name and an address that a scope defines: nothing else is touched, and the name then stands for
-- the address.
pub record Places (curr : ℕ) (name : String) (addr : ℕ) (t u : SymbolTable) : Type 0 where
  pub named : IsNamed u
  pub untouched : Untouched (name ∷ []) t u
  pub holds : Holds u name curr addr

at_label-Places :
    (t : SymbolTable) (curr i addr : ℕ) (name : String) (symbol : Symbol)
    → get_elem? t.data_pool i ≡ some symbol
    → symbol.name ≡ name
    → IsNamed t
    → Visible t name i curr
    → (u : SymbolTable) × ((define_label t i addr ≡ ok u) × Places curr name addr t u)
at_label-Places t curr i addr name symbol there own n v =
    let u : SymbolTable = record t { data_pool = set t.data_pool i (labelled symbol addr) } in
    (
      u,
      (
        define_label-written t i addr symbol there,
        record {
          named = λ p node other j e f.
              at_label-Named t i addr symbol there j other (n p node other j e f);
          untouched =
              subst (λ s. Untouched (s ∷ []) t u) own (at_label-Untouched t i addr symbol there);
          holds = (
            i,
            labelled symbol addr,
            (Visible-nodes t u name i curr refl v, at_label_self t i addr symbol there, own, refl),
          );
        },
      ),
    )

-- In a scope below the root of a well-formed table, a label is placed at its address.
pub define_label-Places :
    (t : SymbolTable) (curr addr : ℕ) (name : String)
    → IsWell t
    → IsNamed t
    → curr < length t.nodes
    → curr ≢ 0
    → (made defined : SymbolTable) × (i : ℕ) × ((find_or_insert t curr name ≡ ok (made, some i))
        × (define_label made i addr ≡ ok defined)
        × Places curr name addr t defined)
define_label-Places t curr addr name w n h z =
    let (found, r) = (find_iff t name curr 0 w.is_tree h).0 in
    elim (Option-cases found) [
      | inr (i, present) ↦
          let e = r ∙ ap (ok) present in
          let v = (find_iff t name curr i w.is_tree h).1.0 e in
          let (symbol, (there, own)) = Visible-Named t name i curr n v in
          let (u, (d, p)) = at_label-Places t curr i addr name symbol there own n v in
          (t, u, i, (find_or_insert-found t curr name i e, d, p))
      | inl absent ↦
          let (node, there) = get_elem?-lt t.nodes curr h in
          let i = length t.data_pool in
          let made = inserted t curr node (fresh name) in
          let w' = inserted-IsWell t curr node (fresh name) there w in
          let v = inserted-Visible t curr node (fresh name) z there in
          let again =
            (find_iff made name curr i w'.is_tree
                (omega (arith, h, inserted-length t curr node (fresh name)))).1.1
              v in
          let (u, (d, p)) =
            at_label-Places made curr i addr name (fresh name)
              (get_elem?-append_length t.data_pool (fresh name)) refl
              (inserted-IsNamed t curr node (fresh name) there n) v in
          (
            made,
            u,
            i,
            (
              find_or_insert-fresh t curr name made i (r ∙ ap (ok) absent)
                  (insert_or_assign-inserted t curr node (fresh name) there) again,
              d,
              record {
                named = p.named;
                untouched =
                    Untouched-trans (name ∷ []) t made u
                      (inserted-Untouched t curr node (fresh name) there) p.untouched;
                holds = p.holds;
              },
            ),
          )
    ]

-- A new scope touches no name.
module _ (t u : SymbolTable) (o : Opens t u) where
  pub Opens-Untouched : Untouched [] t u
  Opens-Untouched = record {
    scopes = λ p node e.
        let (m, (there, parent, _)) = o.widens.has p node e in
        let same = o.tables p (lt-get_elem? t.nodes p node e) in
        (
          m,
          (
            there,
            parent,
            (λ name h. ap (lookup name) (sym (ap names_of there) ∙ same ∙ ap names_of e)),
          ),
        );
    symbols = λ i symbol e h. ap (λ l. get_elem? l i) o.same_pool ∙ e;
  }

  old_Named : (i : ℕ) (name : String) → Named t i name → Named u i name
  old_Named i name (symbol, (e, n)) = (symbol, (ap (λ l. get_elem? l i) o.same_pool ∙ e, n))

  pub Opens-IsNamed : length u.nodes ≡ length t.nodes + 1 → IsNamed t → IsNamed u
  Opens-IsNamed size n p node name i e f =
      let g : lookup name (table_at u p) ≡ some i = ap (λ k. lookup name (names_of k)) e ∙ f in
      elim (Bool-cases (ltb p (length t.nodes))) [
        | inl old ↦
            let h : p < length t.nodes = ground (arith, old) in
            let (other, there) = get_elem?-lt t.nodes p h in
            old_Named i name (
              n p other name i there (
                ap (λ k. lookup name (names_of k)) (sym there)
                ∙ ap (lookup name) (sym (o.tables p h))
                ∙ g))
        | inr new ↦
            let h = lt-get_elem? u.nodes p node e in
            let last : p ≡ length t.nodes = ground (arith, new, h, size) in
            cc (sym (ap (lookup name) (ap (table_at u) last ∙ o.no_names)) ∙ g)
      ]
