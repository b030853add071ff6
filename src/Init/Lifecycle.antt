-- ===== src/Init/Lifecycle.antt =====
-- Calls of the functions of src/init.cpp on one context, in any order.
use rmw_desert.Prelude.{
  ℕ, ◌≡◌, refl, sym, subst, ◌∙◌, Bool, true, false, not, Option, none, some, List, [], ◌∷◌, ◌++◌,
  All, arith, Bool-cases, inl, inr, if◌then◌else◌,
}
use rmw_desert.Prelude.Int.{ℤ}
use rmw_desert.Message.{Result}
use rmw_desert.Discovery.Thread.{Ret, discovery_thread_start, discovery_thread_stop}
use rmw_desert.Init.{
  Impl, Context, Session, forget, new_impl, started, get_desert_port, rmw_init, rmw_shutdown,
  rmw_context_fini,
}

-- There is no object, or it is shut down.
abbrev pub IsVacant : Context → Type 0
IsVacant none = Unit {0}
IsVacant (some impl) = impl.is_shutdown ≡ true

-- A call that returns, with what there is before and after it. `rmw_init` is called on a context that is
-- vacant.
pub data Step : Session → Session → Type 0 where
  init :
      (s : Session) (port : Option ℤ) (connected : ℕ → Bool) (checked created : Bool)
      → IsVacant s.context
      → Step s (rmw_init port connected checked created s).1
  shutdown :
      {context context' : Context} {ret : Ret} (lost : List Impl)
      → rmw_shutdown context ≡ Result.ok (ret, context')
      → Step
          (record { context = context; lost = lost })
          (record { context = context'; lost = lost })
  fini :
      {context context' : Context} {ret : Ret} (lost : List Impl)
      → rmw_context_fini context ≡ Result.ok (ret, context')
      → Step
          (record { context = context; lost = lost })
          (record { context = context'; lost = lost })

pub data Reach : Session → Type 0 where
  zeroed : Reach (record { context = none; lost = [] })
  next : {s s' : Session} → Reach s → Step s s' → Reach s'

-- There is a thread exactly until the context is shut down, and the flag tells so.
abbrev IsAlive : Impl → Type 0
IsAlive impl =
    (impl.common.thread_is_running ≡ not impl.is_shutdown)
    × (impl.common.joinable ≡ not impl.is_shutdown)

abbrev IsSound : Context → Type 0
IsSound none = Unit {0}
IsSound (some impl) = IsAlive impl

-- No object of the list owns a thread.
abbrev pub AreIdle : List Impl → Type 0
AreIdle impls = All (λ impl. impl.common.joinable ≡ false) impls

AreIdle-append :
    (impls : List Impl) (impl : Impl)
    → AreIdle impls
    → impl.common.joinable ≡ false
    → AreIdle (impls ++ impl ∷ [])
AreIdle-append [] impl h e = (e, tt)
AreIdle-append (x ∷ impls) impl h e = (h.0, AreIdle-append impls impl h.1 e)

forget-AreIdle :
    (context : Context) (lost : List Impl)
    → IsVacant context
    → IsSound context
    → AreIdle lost
    → AreIdle (forget (record { context = context; lost = lost }))
unfolding forget
forget-AreIdle none lost vacant sound idle = idle
forget-AreIdle (some impl) lost vacant sound idle =
    AreIdle-append lost impl idle (sound.1 ∙ rw vacant refl)

rmw_init-IsSound :
    (port : Option ℤ) (connected : ℕ → Bool) (checked created : Bool) (s : Session)
    → IsVacant s.context
    → IsSound s.context
    → AreIdle s.lost
    → IsSound (rmw_init port connected checked created s).1.context
      × AreIdle (rmw_init port connected checked created s).1.lost
unfolding rmw_init started new_impl discovery_thread_start
rmw_init-IsSound port connected true true s vacant h idle =
    let old = forget-AreIdle s.context s.lost vacant h idle in
    elim (Bool-cases (connected (get_desert_port port))) [
      | inl e ↦ rw e ((refl, refl), old)
      | inr e ↦ rw e (h, idle)
    ]
rmw_init-IsSound port connected true false s vacant h idle =
    let old = forget-AreIdle s.context s.lost vacant h idle in
    elim (Bool-cases (connected (get_desert_port port))) [
      | inl e ↦ rw e (tt, AreIdle-append (forget s) _ old refl)
      | inr e ↦ rw e (h, idle)
    ]
rmw_init-IsSound port connected false created s vacant h idle =
    elim (Bool-cases (connected (get_desert_port port))) [
      | inl e ↦ rw e (h, idle)
      | inr e ↦ rw e (h, idle)
    ]

-- A shutdown of a sound context stops its thread, if there is still one.
abbrev pub stopped : Context
stopped =
    some (record {
      common = record { thread_is_running = false; joinable = false };
      is_shutdown = true;
    })

rmw_shutdown-stopped :
    (impl : Impl) → IsAlive impl → rmw_shutdown (some impl) ≡ Result.ok (Ret.ret_ok, stopped)
unfolding rmw_shutdown discovery_thread_stop
rmw_shutdown-stopped impl h = ground arith

rmw_context_fini-IsAlive :
    (impl : Impl)
    → IsAlive impl
    → rmw_context_fini (some impl) ≡ (
        if impl.is_shutdown
        then Result.ok (Ret.ret_ok, none)
        else Result.ok (Ret.ret_invalid_argument, some impl))
unfolding rmw_context_fini
rmw_context_fini-IsAlive impl h = ground arith

context-eq :
    {a b : Ret} {context context' : Context}
    → ◌≡◌ {A = Result (Ret × Context)} (Result.ok (a, context)) (Result.ok (b, context'))
    → context ≡ context'
context-eq e = cc

-- Where a call returns a sound context, and it returns this one.
returned-IsSound :
    {a b : Ret} {call : Result (Ret × Context)} (context : Context) {context' : Context}
    → call ≡ Result.ok (a, context)
    → IsSound context
    → call ≡ Result.ok (b, context')
    → IsSound context'
returned-IsSound context e h e' = subst IsSound (context-eq (sym e ∙ e')) h

fini-IsSound :
    (impl : Impl) {ret : Ret} {context' : Context}
    → IsAlive impl
    → rmw_context_fini (some impl) ≡ Result.ok (ret, context')
    → IsSound context'
fini-IsSound impl h e = elim (Bool-cases impl.is_shutdown) [
  | inl down ↦
      returned-IsSound {a = Ret.ret_ok} none (rmw_context_fini-IsAlive impl h ∙ rw down) tt e
  | inr up ↦
      returned-IsSound {a = Ret.ret_invalid_argument} (some impl)
        (rmw_context_fini-IsAlive impl h ∙ rw up) h e
]

Step-IsSound :
    {s s' : Session}
    → Step s s'
    → IsSound s.context
    → AreIdle s.lost
    → IsSound s'.context × AreIdle s'.lost
unfolding rmw_shutdown rmw_context_fini
Step-IsSound (Step.init s port connected checked created vacant) h idle =
    rmw_init-IsSound port connected checked created s vacant h idle
Step-IsSound (Step.shutdown {context = none} lost e) h idle = absurd cc
Step-IsSound (Step.shutdown {context = some impl} lost e) h idle =
    (returned-IsSound stopped (rmw_shutdown-stopped impl h) (refl, refl) e, idle)
Step-IsSound (Step.fini {context = none} lost e) h idle = absurd cc
Step-IsSound (Step.fini {context = some impl} lost e) h idle = (fini-IsSound impl h e, idle)

Reach-IsSound : {s : Session} → Reach s → IsSound s.context × AreIdle s.lost
Reach-IsSound Reach.zeroed = (tt, tt)
Reach-IsSound (Reach.next r st) = let (h, idle) = Reach-IsSound r in Step-IsSound st h idle

-- After any calls of `rmw_init`, `rmw_shutdown` and `rmw_context_fini` on a context that was zero, of which
-- `rmw_init` finds no object in the context or one that is shut down: no object that the context has lost
-- owns a thread, a shutdown succeeds, leaves no thread and may be repeated, and `rmw_context_fini`
-- succeeds exactly on a context that is shut down, where it leaves none; else it refuses and changes
-- nothing. It never deletes a thread that is joinable. Condition: the context has an `impl`.
pub lifecycle :
    (impl : Impl) (lost : List Impl)
    → Reach (record { context = some impl; lost = lost })
    → AreIdle lost
      × (rmw_shutdown (some impl) ≡ Result.ok (Ret.ret_ok, stopped))
      × (rmw_shutdown stopped ≡ Result.ok (Ret.ret_ok, stopped))
      × (rmw_context_fini (some impl) ≡ (
          if impl.is_shutdown
          then Result.ok (Ret.ret_ok, none)
          else Result.ok (Ret.ret_invalid_argument, some impl)))
lifecycle impl lost r =
    let (h, idle) = Reach-IsSound r in
    (
      idle,
      rmw_shutdown-stopped impl h,
      rmw_shutdown-stopped
          (record {
            common = record { thread_is_running = false; joinable = false };
            is_shutdown = true;
          })
          (refl, refl),
      rmw_context_fini-IsAlive impl h,
    )
