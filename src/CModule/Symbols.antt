-- ===== src/CModule/Symbols.antt =====
-- The symbols that a module lists and finds.
use better_ncm.Base.{
  ℕ, ℕ_discrete, ◌≢◌, ◌≡◌, ap, false, Bool-cases, some, List, [], ◌∷◌, inl, inr, ◌⊎◌, arith, Any,
  ◌==◌,
}
use better_ncm.CModule.{
  Tcc, Impl, has_name, internal_prefixes, strip, is_internal, listed, live, get_symbol,
  list_symbols,
}

-- A name of the compiled code that is neither injected nor the linker's
abbrev pub IsOwn : List (List ℕ) → List ℕ → Type 0
IsOwn injected name =
    (has_name name injected ≡ false) × (is_internal internal_prefixes name ≡ false)

IsOwn-of_listed :
    (injected names : List (List ℕ)) (n : List ℕ)
    → Any (λ m. m ≡ n) (listed injected names)
    → Any (λ raw. IsOwn injected raw × (strip raw ≡ n)) names
unfolding listed
IsOwn-of_listed injected [] n a = a
IsOwn-of_listed injected (raw ∷ names) n a = elim (Bool-cases (has_name raw injected)) [
  | inl out ↦ inr (IsOwn-of_listed injected names n (rw (listed, out) at a))
  | inr own ↦ elim (Bool-cases (is_internal internal_prefixes raw)) [
    | inl out ↦ inr (IsOwn-of_listed injected names n (rw (listed, own, out) at a))
    | inr kept ↦
        let b : (strip raw ≡ n) ⊎ Any (λ m. m ≡ n) (listed injected names) =
          rw (listed, own, kept) at a in
        elim b [ inl e ↦ inl ((own, kept), e) | inr c ↦ inr (IsOwn-of_listed injected names n c) ]
  ]
]

listed_of_own :
    (injected names : List (List ℕ)) (n : List ℕ)
    → Any (λ raw. IsOwn injected raw × (strip raw ≡ n)) names
    → Any (λ m. m ≡ n) (listed injected names)
unfolding listed
listed_of_own injected [] n a = a
listed_of_own injected (raw ∷ names) n (inl (own, e)) = rw (own.0, own.1) (inl e)
listed_of_own injected (raw ∷ names) n (inr a) =
    let rest = listed_of_own injected names n a in
    elim (Bool-cases (has_name raw injected)) [
      | inl out ↦ rw out rest
      | inr own ↦ elim (Bool-cases (is_internal internal_prefixes raw)) [
        | inl out ↦ rw (own, out) rest
        | inr kept ↦ rw (own, kept) (inr rest)
      ]
    ]

strip-cases : (raw n : List ℕ) → strip raw ≡ n → (raw ≡ n) ⊎ (raw ≡ b'_' ∷ n)
unfolding strip
strip-cases [] n e = inl e
strip-cases (c ∷ cs) n e = elim (Bool-cases (c == b'_')) [
  | inl hit ↦ inr (ground (arith, hit))
  | inr miss ↦ inl (ground (arith, miss))
]

-- Each own name is a name.
names_of_own :
    (injected names : List (List ℕ)) (n : List ℕ)
    → Any (λ raw. IsOwn injected raw × (strip raw ≡ n)) names
    → Any (λ m. m ≡ n) names ⊎ Any (λ m. m ≡ b'_' ∷ n) names
names_of_own injected [] n a = absurd a
names_of_own injected (raw ∷ names) n (inl (own, e)) = elim (strip-cases raw n e) [
  | inl p ↦ inl (inl p)
  | inr p ↦ inr (inl p)
]
names_of_own injected (raw ∷ names) n (inr a) = elim (names_of_own injected names n a) [
  | inl p ↦ inl (inr p)
  | inr p ↦ inr (inr p)
]

IsOwn-underscore :
    (injected names : List (List ℕ)) (n : List ℕ)
    → IsOwn injected (b'_' ∷ n)
    → Any (λ m. m ≡ b'_' ∷ n) names
    → Any (λ raw. IsOwn injected raw × (strip raw ≡ n)) names
unfolding strip
IsOwn-underscore injected [] n own a = a
IsOwn-underscore injected (raw ∷ names) n own (inl e) = inl (rw e own, ap strip e)
IsOwn-underscore injected (raw ∷ names) n own (inr a) =
    inr (IsOwn-underscore injected names n own a)

module _ {S : Type 0} (tcc : Tcc S) where
  -- `tcc_get_symbol` finds the names that `tcc_list_symbols` lists, and no others.
  abbrev pub Finds : S → Type 0
  Finds s =
      (n : List ℕ)
      → (Any (λ m. m ≡ n) (tcc.list_symbols s) → tcc.get_symbol n s ≢ 0)
        × (tcc.get_symbol n s ≢ 0 → Any (λ m. m ≡ n) (tcc.list_symbols s))

  -- In a live module a name that `listSymbols` lists is found by `getSymbol`, or a symbol has this
  -- name behind an underscore. TCC finds the symbols that it lists, and no others.
  pub get_symbol-list_symbols :
      (impl : Impl S) (s : S) (n : List ℕ)
      → live tcc impl ≡ some s
      → Finds s
      → Any (λ m. m ≡ n) (list_symbols tcc (some impl))
      → (get_symbol tcc n (some impl) ≢ 0) ⊎ Any (λ m. m ≡ b'_' ∷ n) (tcc.list_symbols s)
  unfolding list_symbols get_symbol
  get_symbol-list_symbols impl s n h finds a =
      let a' : Any (λ m. m ≡ n) (listed impl.injected_symbols (tcc.list_symbols s)) =
        rw (list_symbols, h) at a in
      rw (get_symbol, h)
        (elim (names_of_own impl.injected_symbols (tcc.list_symbols s) n
          (IsOwn-of_listed impl.injected_symbols (tcc.list_symbols s) n a')) [
            | inl p ↦ inl ((finds n).0 p)
            | inr p ↦ inr p
          ])

  -- In a live module a symbol of the code with an underscore in front, neither injected nor the
  -- linker's, is listed by `listSymbols` without it; where no symbol has the shorter name,
  -- `getSymbol` gives null for the name that is listed. TCC finds the symbols that it lists, and no
  -- others.
  pub list_symbols-get_symbol :
      (impl : Impl S) (s : S) (n : List ℕ)
      → live tcc impl ≡ some s
      → Finds s
      → IsOwn impl.injected_symbols (b'_' ∷ n)
      → Any (λ m. m ≡ b'_' ∷ n) (tcc.list_symbols s)
      → ¬ Any (λ m. m ≡ n) (tcc.list_symbols s)
      → Any (λ m. m ≡ n) (list_symbols tcc (some impl)) × (get_symbol tcc n (some impl) ≡ 0)
  unfolding list_symbols get_symbol
  list_symbols-get_symbol impl s n h finds own there none_such =
      rw (h, list_symbols, get_symbol)
        (
          listed_of_own impl.injected_symbols (tcc.list_symbols s) n
              (IsOwn-underscore impl.injected_symbols (tcc.list_symbols s) n own there),
          elim (ℕ_discrete (tcc.get_symbol n s) 0) [
            | yes e ↦ e
            | no e ↦ absurd (none_such ((finds n).1 e))
          ],
        )
