-- ===== src/Init.antt =====
-- src/init.cpp: a context from `rmw_init` to `rmw_context_fini`, with the thread that it owns.
pub mod Lifecycle
use rmw_desert.Prelude.{
  ℕ, Bool, true, false, not, Option, none, some, List, [], ◌∷◌, ◌++◌, ltb, if◌then◌else◌,
}
use rmw_desert.Prelude.Int.{ℤ, pos, negsuc}
use rmw_desert.Message.{Result}
use rmw_desert.Discovery.Thread.{Common, Ret, discovery_thread_start, discovery_thread_stop}

pub record Impl : Type 0 where
  pub common : Common
  pub is_shutdown : Bool

-- `impl` of `rmw_context_t`; a context that is zero has none.
abbrev pub Context : Type 0
Context = Option Impl

-- `new rmw_context_impl_t()`
unfoldable pub new_impl : Impl
new_impl = record {
  common = record { thread_is_running = false; joinable = false };
  is_shutdown = false;
}

-- The argument is what `atoi` makes of DESERT_PORT, if that is set.
unfoldable pub get_desert_port : Option ℤ → ℕ
get_desert_port none = 4000
get_desert_port (some (pos n)) = if ltb 0 n then n else 4000
get_desert_port (some (negsuc n)) = 4000

-- The context, and the objects that no context points to any more and that are not deleted: a thread
-- that one of them owns runs on.
pub record Session : Type 0 where
  pub context : Context
  pub lost : List Impl

-- The assignment to `context->impl`, whose old object is not deleted.
unfoldable pub forget : Session → List Impl
forget s = elim s.context [ none ↦ s.lost | some impl ↦ s.lost ++ impl ∷ [] ]

-- The end of `rmw_init`: `restore_context` empties the context if the thread is not started, without
-- a `delete` of the new object.
unfoldable pub started : Impl → List Impl → Ret × Common → Ret × Session
started impl lost (Ret.ret_ok, common) =
    (Ret.ret_ok, record { context = some (record impl { common = common }); lost = lost })
started impl lost (ret, common) =
    (Ret.ret_error, record { context = none; lost = lost ++ record impl { common = common } ∷ [] })

-- `connected` is whether `TcpDaemon::init` succeeds for a port, `checked` whether the test stream is
-- made without an exception, `created` whether the thread is.
unfoldable pub rmw_init : Option ℤ → (ℕ → Bool) → Bool → Bool → Session → Ret × Session
rmw_init port connected checked created s =
    if not (connected (get_desert_port port))
    then (Ret.ret_error, s)
    else if not checked
    then (Ret.ret_error, s)
    else started new_impl (forget s) (discovery_thread_start created new_impl.common)

-- A context with no `impl` is dereferenced all the same.
unfoldable pub rmw_shutdown : Context → Result (Ret × Context)
rmw_shutdown none = Result.undefined
rmw_shutdown (some impl) =
    let (ret, common) = discovery_thread_stop impl.common in
    Result.ok (ret, some (record { common = common; is_shutdown = true }))

-- `delete` of an `impl` whose thread is joinable ends the process.
unfoldable pub rmw_context_fini : Context → Result (Ret × Context)
rmw_context_fini none = Result.undefined
rmw_context_fini (some impl) =
    if not impl.is_shutdown
    then Result.ok (Ret.ret_invalid_argument, some impl)
    else if impl.common.joinable
    then Result.throws
    else Result.ok (Ret.ret_ok, none)
