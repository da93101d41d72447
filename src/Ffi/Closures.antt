-- ===== src/Ffi/Closures.antt =====
-- The callbacks of src/core/bindings/native_ffi.cc: their table and the closures of libffi, which are
-- known by the addresses of their code.
use Prim.Native.String.{String}
use better_ncm.Base.{
  ℕ, ◌≡◌, refl, sym, ap, ◌∙◌, Bool, Bool-cases, Option, none, some, Option-cases, List, [], ◌∷◌,
  map, inl, inr, ◌⊎◌, arith, if◌then◌else◌, Outcome, ok, thrown, lookup, insert, erase,
  lookup-insert, lookup-erase, erase-insert, lookup-insert_self, lookup-insert_cases,
  lookup-erase_cases,
}
use better_ncm.Hex.{NumberError}
use better_ncm.Ffi.{
  FfiType, get_ffi_type, Floats, FfiError, prep_cif_failed, closure_alloc_failed,
  prep_closure_failed, serialize_arg, parse_result,
}

-- `CallbackInfo`; the handler is the number of a function.
pub record CallbackInfo : Type 0 where
  pub handler : ℕ
  pub code_addr : ℕ
  pub ret_type : FfiType
  pub arg_types : List FfiType

-- `callbacks`, and the closures that are allocated
pub record State : Type 0 where
  pub callbacks : List (ℕ × CallbackInfo)
  pub closures : List (ℕ × Unit {0})

-- `ffi_prep_cif` and `ffi_prep_closure_loc`, which may fail, and `ffi_closure_alloc`, which gives the
-- address of the code
pub record Libffi : Type 0 where
  pub prep_cif : FfiType → List FfiType → Bool
  pub closure_alloc : List (ℕ × Unit {0}) → Option ℕ
  pub prep_closure_loc : CallbackInfo → Bool

-- A closure is allocated where none is.
abbrev pub Allocates : Libffi → Type 0
Allocates ffi =
    (closures : List (ℕ × Unit {0})) (a : ℕ)
    → ffi.closure_alloc closures ≡ some a
    → lookup a closures ≡ none

-- `callbackHandler`: the texts of the arguments, the handler, and what is written of its result
unfoldable pub serialize_args : Floats → List FfiType → List ℕ → List (List ℕ)
serialize_args floats [] values = []
serialize_args floats (t ∷ types) [] = []
serialize_args floats (t ∷ types) (v ∷ values) =
    serialize_arg floats t v ∷ serialize_args floats types values

unfoldable pub callback_handler :
    Floats → (ℕ → List (List ℕ) → List ℕ) → CallbackInfo → List ℕ → Outcome NumberError (Option ℕ)
callback_handler floats run info values =
    parse_result floats info.ret_type
      (run info.handler (serialize_args floats info.arg_types values))

-- The last step of `createCallback`
unfoldable pub register : CallbackInfo → State → State
register info s = record {
  callbacks = insert info.code_addr info s.callbacks;
  closures = insert info.code_addr tt s.closures;
}

module _ (ffi : Libffi) where
  -- `createCallback`, from the closure on: it is freed where it cannot be prepared.
  unfoldable pub create_allocated : CallbackInfo → State → Outcome FfiError ℕ × State
  create_allocated info s =
      if ffi.prep_closure_loc info then (ok info.code_addr, register info s) else (
        thrown prep_closure_failed,
        record s { closures = erase info.code_addr (insert info.code_addr tt s.closures) },
      )

  unfoldable pub create_callback : ℕ → String → List String → State → Outcome FfiError ℕ × State
  create_callback handler ret_type arg_types s =
      let ret = get_ffi_type ret_type in
      let types = map get_ffi_type arg_types in
      let made : Outcome FfiError ℕ × State = elim (ffi.closure_alloc s.closures) [
        | none ↦ (thrown closure_alloc_failed, s)
        | some addr ↦
            create_allocated
              (record { handler = handler; code_addr = addr; ret_type = ret; arg_types = types }) s
      ] in
      if ffi.prep_cif ret types then made else (thrown prep_cif_failed, s)

-- `destroyCallback`
unfoldable pub destroy_callback : ℕ → State → State
destroy_callback addr s = elim (lookup addr s.callbacks) [
  | none ↦ s
  | some info ↦ record {
    callbacks = erase addr s.callbacks;
    closures = erase info.code_addr s.closures;
  }
]

-- The closures that are allocated are those of the table, and each entry has its own address.
pub record IsTied (s : State) : Type 0 where
  pub no_leak : (a : ℕ) → lookup a s.callbacks ≡ none → lookup a s.closures ≡ none
  pub no_dangling : (a : ℕ) → lookup a s.closures ≡ none → lookup a s.callbacks ≡ none
  pub own : (a : ℕ) (info : CallbackInfo) → lookup a s.callbacks ≡ some info → info.code_addr ≡ a

destroy-register :
    (info : CallbackInfo) (s : State)
    → IsTied s
    → lookup info.code_addr s.closures ≡ none
    → destroy_callback info.code_addr (register info s) ≡ s
unfolding destroy_callback register
destroy-register info s v free =
    let free' = v.no_dangling info.code_addr free in
    rw
      (
        lookup-insert_self info.code_addr info s.callbacks,
        destroy_callback,
        erase-insert info.code_addr info s.callbacks free',
        erase-insert info.code_addr tt s.closures free,
      )
      refl

register-IsTied : (info : CallbackInfo) (s : State) → IsTied s → IsTied (register info s)
unfolding register
register-IsTied info s v = record {
  no_leak = λ a h. ground (
    arith,
    lookup-insert info.code_addr a info s.callbacks,
    lookup-insert info.code_addr a tt s.closures,
    v.no_leak a,
  );
  no_dangling = λ a h. ground (
    arith,
    lookup-insert info.code_addr a info s.callbacks,
    lookup-insert info.code_addr a tt s.closures,
    v.no_dangling a,
  );
  own = λ a e h. elim (lookup-insert_cases info.code_addr a info e s.callbacks h) [
    | inl (p, q) ↦ ap (λ (x : CallbackInfo). x.code_addr) (sym q) ∙ sym p
    | inr (p, q) ↦ v.own a e q
  ];
}

destroy_callback-IsTied : (addr : ℕ) (s : State) → IsTied s → IsTied (destroy_callback addr s)
unfolding destroy_callback
destroy_callback-IsTied addr s v = elim (Option-cases (lookup addr s.callbacks)) [
  | inl q ↦ rw (q, destroy_callback) v
  | inr (info, q) ↦
      let at : info.code_addr ≡ addr = v.own addr info q in
      rw (q, destroy_callback, at)
        (record {
          no_leak = λ a h.
              ground (
                arith,
                lookup-erase addr a s.callbacks,
                lookup-erase addr a s.closures,
                v.no_leak a,
              );
          no_dangling = λ a h. ground (
            arith,
            lookup-erase addr a s.callbacks,
            lookup-erase addr a s.closures,
            v.no_dangling a,
          );
          own = λ a e h. v.own a e (lookup-erase_cases addr a e s.callbacks h).1;
        })
]

module _ (ffi : Libffi) (laws : Allocates ffi) where
  -- A call of `createCallback` throws and changes nothing, or adds a callback with a new closure.
  abbrev pub Outcomes : State → Outcome FfiError ℕ × State → Type 0
  Outcomes s r =
      ((e : FfiError) × (r ≡ (thrown e, s)))
      ⊎ ((info : CallbackInfo) × (lookup info.code_addr s.closures ≡ none)
          × (r ≡ (ok info.code_addr, register info s)))

  create_allocated-Outcomes :
      (info : CallbackInfo) (s : State)
      → lookup info.code_addr s.closures ≡ none
      → Outcomes s (create_allocated ffi info s)
  unfolding create_allocated
  create_allocated-Outcomes info s free = elim (Bool-cases (ffi.prep_closure_loc info)) [
    | inl fine ↦ inr (info, free, rw fine refl)
    | inr bad ↦
        inl (prep_closure_failed, rw (bad, erase-insert info.code_addr tt s.closures free) refl)
  ]

  create_callback-Outcomes :
      (handler : ℕ) (ret_type : String) (arg_types : List String) (s : State)
      → Outcomes s (create_callback ffi handler ret_type arg_types s)
  unfolding create_callback
  create_callback-Outcomes handler ret_type arg_types s =
      elim (Bool-cases (ffi.prep_cif (get_ffi_type ret_type) (map get_ffi_type arg_types))) [
        | inr bad ↦ inl (prep_cif_failed, rw bad refl)
        | inl fine ↦ elim (Option-cases (ffi.closure_alloc s.closures)) [
          | inl q ↦ inl (closure_alloc_failed, rw (fine, create_callback, q) refl)
          | inr (a, q) ↦
              rw (fine, create_callback, q) (create_allocated-Outcomes _ s (laws s.closures a q))
        ]
      ]

  -- `destroyCallback` at the address that `createCallback` returned undoes the call. The closures that
  -- are allocated are those of the table, and libffi allocates a closure where none is.
  pub destroy_callback-create_callback :
      (handler : ℕ) (ret_type : String) (arg_types : List String) (s t : State) (a : ℕ)
      → IsTied s
      → create_callback ffi handler ret_type arg_types s ≡ (ok a, t)
      → destroy_callback a t ≡ s
  destroy_callback-create_callback handler ret_type arg_types s t a v h =
      elim (create_callback-Outcomes handler ret_type arg_types s) [
        | inl (e, q) ↦ absurd (ground (arith, q))
        | inr (info, free, q) ↦
            let here : a ≡ info.code_addr = ground (arith, q) in
            let there : t ≡ register info s = ground (arith, q) in
            ap (λ (x : ℕ). destroy_callback x t) here
            ∙ ap (destroy_callback info.code_addr) there
            ∙ destroy-register info s v free
      ]

  -- A call of the two operations, which may throw
  pub data Step : State → State → Type 0 where
    step_create :
        (s : State) (handler : ℕ) (ret_type : String) (arg_types : List String)
        → Step s (create_callback ffi handler ret_type arg_types s).1
    step_destroy : (s : State) (addr : ℕ) → Step s (destroy_callback addr s)

  pub data Steps : State → State → Type 0 where
    no_step : (s : State) → Steps s s
    one_more : (s t u : State) → Steps s t → Step t u → Steps s u

  create_callback-IsTied :
      (handler : ℕ) (ret_type : String) (arg_types : List String) (s : State)
      → IsTied s
      → IsTied (create_callback ffi handler ret_type arg_types s).1
  create_callback-IsTied handler ret_type arg_types s v =
      elim (create_callback-Outcomes handler ret_type arg_types s) [
        | inl (e, q) ↦ rw q v
        | inr (info, free, q) ↦ rw q (register-IsTied info s v)
      ]

  -- After any calls of `createCallback` and `destroyCallback`, failing ones included, the closures
  -- that are allocated are those of the table: none is lost. They are so before, and libffi
  -- allocates a closure where none is.
  pub Steps-IsTied : (s t : State) → Steps s t → IsTied s → IsTied t
  Steps-IsTied s t (no_step _) v = v
  Steps-IsTied s t (one_more _ m _ before (step_create _ handler ret_type arg_types)) v =
      create_callback-IsTied handler ret_type arg_types m (Steps-IsTied s m before v)
  Steps-IsTied s t (one_more _ m _ before (step_destroy _ addr)) v =
      destroy_callback-IsTied addr m (Steps-IsTied s m before v)
