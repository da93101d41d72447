-- ===== src/Interceptor/Steps.antt =====
-- Any sequence of calls of native_interceptor.cc.
use better_ncm.Base.{ℕ, ◌+◌, ◌^◌, ◌<◌, ◌≡◌, [], List, ok}
use better_ncm.Relocator.Code.{Host, Allocates}
use better_ncm.Relocator.Effects.{Protects}
use better_ncm.Callbacks.{Callback}
use better_ncm.Interceptor.{
  State, Dispatchers, attach, replace, detach, detach_id, detach_all, revert,
}
use better_ncm.Interceptor.Maps.{Linked}
use better_ncm.Interceptor.View.{unhooked}
use better_ncm.Interceptor.Detach.{
  IsSpread, attach-unhooked, replace-unhooked, detach_id-unhooked, detach_all-unhooked,
}
use better_ncm.Interceptor.Invariant.{
  attach-Linked, replace-Linked, detach-Linked, revert-Linked, detach_all-Linked,
}

-- One call, which may throw, but for `detachAll`: where it throws, the maps hold deleted entries, and
-- no later call is defined. The id does not wrap round.
pub data Step (host : Host) (fns : Dispatchers) : State → State → Type 0 where
  step_attach :
      (s : State) (target : ℕ) (f g : Callback)
      → s.next_hook_id + 1 < 2 ^ 64
      → Step host fns s (attach host fns target f g s).1
  step_replace :
      (s : State) (target replacement : ℕ)
      → s.next_hook_id + 1 < 2 ^ 64
      → Step host fns s (replace host target replacement s).1
  step_detach : (s : State) (text : List ℕ) → Step host fns s (detach host text s).1
  step_revert : (s : State) (target : ℕ) → Step host fns s (revert host target s).1
  step_detach_all :
      (s : State) → (detach_all host s).0 ≡ ok tt → Step host fns s (detach_all host s).1

pub data Steps (host : Host) (fns : Dispatchers) : State → State → Type 0 where
  no_step : (s : State) → Steps host fns s s
  one_more : (s t u : State) → Steps host fns s t → Step host fns t u → Steps host fns s u

module _ (host : Host) (fns : Dispatchers) where
  Step-Linked : (s t : State) → Step host fns s t → Linked s → Linked t
  Step-Linked s t (step_attach _ target f g small) v = attach-Linked host s v fns target f g small
  Step-Linked s t (step_replace _ target replacement small) v =
      replace-Linked host s v target replacement small
  Step-Linked s t (step_detach _ text) v = detach-Linked host s v text
  Step-Linked s t (step_revert _ target) v = revert-Linked host s v target
  Step-Linked s t (step_detach_all _ returns) v = detach_all-Linked host s v returns

  -- After any calls of `attach`, `replace`, `detach` and `revert`, failing ones included, and of
  -- `detachAll`, where each of these returns, the two maps describe the same hooks, where they did
  -- before and no call of `attach` or `replace` finds the next id at its limit.
  pub Steps-Linked : (s t : State) → Steps host fns s t → Linked s → Linked t
  Steps-Linked s t (no_step _) v = v
  Steps-Linked s t (one_more _ m _ before last) v = Step-Linked m t last (Steps-Linked s m before v)

  -- `attach`, `replace`, whether they return or throw, and the removal of one hook by its id, there
  -- or not, leave what memory is without hooks as it was; `detachAll` returns, empties both maps
  -- and leaves that memory. The maps are linked, no two hooks share a byte and each has saved the
  -- bytes of a patch, the JIT runtime gives addresses that are neither null nor in use, and every
  -- `mprotect` succeeds.
  pub calls-unhooked :
      (laws : Allocates host) (protects : Protects host) (s : State) (target replacement id : ℕ)
      (f g : Callback)
      → Linked s
      → IsSpread s
      → let all = detach_all host s in
        (unhooked (attach host fns target f g s).1 ≡ unhooked s)
        × (unhooked (replace host target replacement s).1 ≡ unhooked s)
        × (unhooked (detach_id host id s).1 ≡ unhooked s)
        × (all.0 ≡ ok tt)
        × (all.1.by_id ≡ [])
        × (all.1.by_target ≡ [])
        × (all.1.machine.mem ≡ unhooked s)
  calls-unhooked laws protects s target replacement id f g v a =
      let (done, ids, targets, mem) = detach_all-unhooked host laws protects s in
      (
        attach-unhooked host laws protects fns s target f g v,
        replace-unhooked host laws protects s target replacement v,
        detach_id-unhooked host laws protects s id v a,
        done,
        ids,
        targets,
        mem,
      )
