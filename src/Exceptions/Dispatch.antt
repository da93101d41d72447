-- ===== src/Exceptions/Dispatch.antt =====
-- Which handler of the registry takes an exception, and registering and unregistering one.
use better_ncm.Base.{
  ℕ, ◌<◌, ◌≡◌, ◌⊎◌, inl, inr, refl, ap, true, false, Bool-cases, List, [], ◌∷◌, ◌++◌, All, arith,
}
use better_ncm.Exceptions.{
  ExceptionType, access_violation, bus_error, breakpoint, single_step, illegal_instruction,
  unknown_exception, is_type, exception_type_to_string, same_text, string_to_exception_type,
  Context, HandlerEntry, Registry, Handlers, dispatch_loop, register_handler, without,
  unregister_handler,
}

-- The name of an exception type is read back as the type, for every type.
pub string_to_exception_type-exception_type_to_string :
    (t : ExceptionType) → string_to_exception_type (exception_type_to_string t) ≡ t
unfolding string_to_exception_type exception_type_to_string same_text
string_to_exception_type-exception_type_to_string access_violation = refl
string_to_exception_type-exception_type_to_string bus_error = refl
string_to_exception_type-exception_type_to_string breakpoint = refl
string_to_exception_type-exception_type_to_string single_step = refl
string_to_exception_type-exception_type_to_string illegal_instruction = refl
string_to_exception_type-exception_type_to_string unknown_exception = refl

-- No handler of the list takes the exception: each is for another type or was asked and refused, and
-- `c'` is the context that the asked ones leave.
pub data Refused (run : Handlers) : List HandlerEntry → Context → Context → Type 0 where
  nobody : (c : Context) → Refused run [] c c
  passed_over :
      (e : HandlerEntry) (es : List HandlerEntry) (c c' : Context)
      → is_type e.type c.type ≡ false
      → Refused run es c c'
      → Refused run (e ∷ es) c c'
  asked :
      (e : HandlerEntry) (es : List HandlerEntry) (c c' : Context)
      → is_type e.type c.type ≡ true
      → (run e.callback c).0 ≡ false
      → Refused run es (run e.callback c).1 c'
      → Refused run (e ∷ es) c c'

-- The first handler of the type that answers `Handled` takes the exception.
pub record TakenBy (run : Handlers) (handlers : List HandlerEntry) (c c' : Context) : Type 0 where
  pub before : List HandlerEntry
  pub taker : HandlerEntry
  pub after : List HandlerEntry
  pub order : handlers ≡ before ++ taker ∷ after
  pub between : Context
  pub refused : Refused run before c between
  pub matches : is_type taker.type between.type ≡ true
  pub takes : (run taker.callback between).0 ≡ true
  pub leaves : (run taker.callback between).1 ≡ c'

-- Either every handler refuses or is for another type, or the first handler of the exception's type
-- that answers `Handled` takes the exception; the context is what the handlers asked so far leave.
pub dispatch_loop-TakenBy :
    (run : Handlers) (handlers : List HandlerEntry) (c : Context)
    → let r = dispatch_loop run handlers c in
      ((r.0 ≡ false) × Refused run handlers c r.1) ⊎ ((r.0 ≡ true) × TakenBy run handlers c r.1)
unfolding dispatch_loop
dispatch_loop-TakenBy run [] c = inl (refl, nobody c)
dispatch_loop-TakenBy run (e ∷ es) c = elim (Bool-cases (is_type e.type c.type)) [
  | inr other ↦ rw other (elim (dispatch_loop-TakenBy run es c) [
    | inl (q, p) ↦ inl (q, passed_over e es c _ other p)
    | inr (q, t) ↦ inr (
      q,
      record {
        before = e ∷ t.before;
        taker = t.taker;
        after = t.after;
        order = ap (λ l. e ∷ l) t.order;
        between = t.between;
        refused = passed_over e t.before c t.between other t.refused;
        matches = t.matches;
        takes = t.takes;
        leaves = t.leaves;
      },
    )
  ])
  | inl same ↦ elim (Bool-cases (run e.callback c).0) [
    | inl yes_taken ↦
        rw (same, yes_taken)
          (inr (
            refl,
            record {
              before = [];
              taker = e;
              after = es;
              order = refl;
              between = c;
              refused = nobody c;
              matches = same;
              takes = yes_taken;
              leaves = refl;
            },
          ))
    | inr no_taken ↦
        rw (same, no_taken)
          (elim (dispatch_loop-TakenBy run es (run e.callback c).1) [
            | inl (q, p) ↦ inl (q, asked e es c _ same no_taken p)
            | inr (q, t) ↦ inr (
              q,
              record {
                before = e ∷ t.before;
                taker = t.taker;
                after = t.after;
                order = ap (λ l. e ∷ l) t.order;
                between = t.between;
                refused = asked e t.before c t.between same no_taken t.refused;
                matches = t.matches;
                takes = t.takes;
                leaves = t.leaves;
              },
            )
          ])
  ]
]

-- Every handler has an id below the counter.
abbrev pub HasOldIds : Registry → Type 0
HasOldIds r = All (λ e. e.id < r.next_id) r.handlers

pub without-append :
    (id : ℕ) (hs : List HandlerEntry) (e : HandlerEntry)
    → All (λ h. h.id < id) hs
    → e.id ≡ id
    → without id (hs ++ e ∷ []) ≡ hs
unfolding without
without-append id [] e old q = ground arith
without-append id (h ∷ hs) e old q = ground (arith, without-append id hs e old.1 q)

-- Unregistering the id that registering returned leaves the handlers as they were, where their ids
-- are below the counter.
pub unregister_handler-register_handler :
    (type : ExceptionType) (callback : ℕ) (r : Registry)
    → HasOldIds r
    → let (id, r') = register_handler type callback r in
      (unregister_handler id r').handlers ≡ r.handlers
unfolding unregister_handler register_handler
unregister_handler-register_handler type callback r old =
    without-append r.next_id r.handlers _ old refl

pub same_text_refl : (t : List ℕ) → same_text t t ≡ true
unfolding same_text
same_text_refl [] = refl
same_text_refl (c ∷ cs) = ground (arith, same_text_refl cs)
