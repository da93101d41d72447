-- ===== src/CModule/Lifetime.antt =====
-- The life of a module: its state of TCC is deleted once.
use Prim.Native.String.{String}
use mathlib.Core.List.{append-nil}
use better_ncm.Base.{
  ℕ, ◌≡◌, refl, ap, ◌∙◌, Bool, true, false, Bool-cases, Option, none, some, List, [], ◌∷◌, ◌++◌,
  inl, inr, ◌⊎◌, length, ◌==◌, if◌then◌else◌, Outcome, ok, thrown, codes,
}
use better_ncm.CModule.{
  Tcc, Effect, deleted, Impl, ModuleError, append_errors, call_if_there, construct_relocated,
  construct_compiled, construct_new, construct, live, finish, dispose, destroy,
}

-- A call of a method
pub data Call : Type 0 where
  call_get_symbol : List ℕ → Call
  call_list_symbols call_dispose : Call

module _ {S : Type 0} (tcc : Tcc S) where
  -- What a call does, and the module that it leaves; the other methods change nothing.
  unfoldable pub call : Call → Option (Impl S) → List Effect × Option (Impl S)
  call (call_get_symbol name) impl = ([], impl)
  call call_list_symbols impl = ([], impl)
  call call_dispose impl = dispose tcc impl

  -- The calls in turn, and then the destructor
  unfoldable pub live_through : List Call → Option (Impl S) → List Effect
  live_through [] impl = destroy tcc impl
  live_through (c ∷ cs) impl =
      let (effects, later) = call c impl in effects ++ live_through cs later

  over_for_good :
      (cs : List Call) (impl : Impl S) → live tcc impl ≡ none → live_through cs (some impl) ≡ []
  unfolding live_through call dispose destroy
  over_for_good [] impl h = rw (h, destroy) refl
  over_for_good (call_get_symbol name ∷ cs) impl h = over_for_good cs impl h
  over_for_good (call_list_symbols ∷ cs) impl h = over_for_good cs impl h
  over_for_good (call_dispose ∷ cs) impl h = rw (h, dispose) (over_for_good cs impl h)

  live_once :
      (cs : List Call) (impl : Impl S) (s : S)
      → live tcc impl ≡ some s
      → live_through cs (some impl) ≡ finish tcc s
  unfolding live_through call dispose destroy live
  live_once [] impl s h = rw (h, destroy) refl
  live_once (call_get_symbol name ∷ cs) impl s h = live_once cs impl s h
  live_once (call_list_symbols ∷ cs) impl s h = live_once cs impl s h
  live_once (call_dispose ∷ cs) impl s h =
      rw (h, dispose)
        (ap (λ es. finish tcc s ++ es)
            (over_for_good cs (record impl { tcc = none; disposed = true }) refl)
          ∙ append-nil (finish tcc s))

  -- What the constructor has made: nothing, after it has done `undone`, or a module and the call of
  -- `init`
  abbrev pub Constructs : List Effect → Outcome ModuleError (Impl S) × List Effect → Type 0
  Constructs undone r =
      ((e : ModuleError) × (r.0 ≡ thrown e) × (r.1 ≡ undone))
      ⊎ ((impl : Impl S) × (s : S) × (r.0 ≡ ok impl)
          × (r.1 ≡ call_if_there tcc (codes "init") s)
          × ((cs : List Call) → live_through cs (some impl) ≡ finish tcc s))

  relocated-Constructs :
      (injected : List (List ℕ)) (errors : List ℕ) (r : Bool × List (List ℕ) × S)
      → Constructs (deleted ∷ []) (construct_relocated tcc injected errors r)
  unfolding construct_relocated live
  relocated-Constructs injected errors (false, msgs, s) = inl (_, refl, refl)
  relocated-Constructs injected errors (true, msgs, s) =
      inr (_, s, refl, refl, λ cs. live_once cs _ s refl)

  compiled-Constructs :
      (injected : List (List ℕ)) (r : Bool × List (List ℕ) × S)
      → Constructs (deleted ∷ []) (construct_compiled tcc injected r)
  unfolding construct_compiled
  compiled-Constructs injected (false, msgs, s) = inl (_, refl, refl)
  compiled-Constructs injected (true, msgs, s) =
      relocated-Constructs injected (append_errors [] msgs) (tcc.relocate s)

  -- The deletion of the state that `tcc_new` gave, if it gave one
  unfoldable pub deletion : Option S → List Effect
  deletion none = []
  deletion (some s) = deleted ∷ []

  new-Constructs :
      (address_of : String → ℕ) (code : List ℕ) (names : List (List ℕ)) (addresses : List ℕ)
      (new : Option S)
      → Constructs (deletion new) (construct_new tcc address_of code names addresses new)
  unfolding construct_new deletion
  new-Constructs address_of code names addresses none = inl (_, refl, refl)
  new-Constructs address_of code names addresses (some s) = compiled-Constructs _ _

  -- A constructor that throws has deleted the state of TCC once if the two lists have the same
  -- length and `tcc_new` gave one, has deleted nothing else, and has called nothing. One that
  -- returns has called `init`, if it is there; then, whatever methods are called, `dispose` any
  -- number of times included, and after the destructor, `finalize` has been called once, if it is
  -- there, and the state has been deleted once, after that.
  pub construct-Constructs :
      (address_of : String → ℕ) (code : List ℕ) (names : List (List ℕ)) (addresses : List ℕ)
      → Constructs
          (if length names == length addresses then deletion tcc.new else [])
          (construct tcc address_of code names addresses)
  unfolding construct
  construct-Constructs address_of code names addresses =
      elim (Bool-cases (length names == length addresses)) [
        | inr other ↦ rw other (inl (_, refl, refl))
        | inl same ↦ rw same (new-Constructs address_of code names addresses tcc.new)
      ]
