-- ===== src/Discovery/Thread.antt =====
-- `discovery_thread_start` and `discovery_thread_stop` of src/desert_classes/Discovery.cpp.
use rmw_desert.Prelude.{Bool, true, false, not, if◌then◌else◌}

-- `listener_thread` is `joinable` while it stands for a thread.
pub record Common : Type 0 where
  pub thread_is_running : Bool
  pub joinable : Bool

-- `rmw_ret_t`, as far as it is returned.
pub data Ret : Type 0 where
  ret_ok : Ret
  ret_error : Ret
  ret_invalid_argument : Ret

-- `created` tells whether `std::thread` is created, or throws. The assignment to a thread that is
-- joinable would end the process; it is not reached then.
unfoldable pub discovery_thread_start : Bool → Common → Ret × Common
discovery_thread_start created common =
    if not common.thread_is_running
    then if created
      then (Ret.ret_ok, record common { thread_is_running = true; joinable = true })
      else (Ret.ret_error, record common { thread_is_running = true })
    else (Ret.ret_ok, common)

-- `join` throws where there is no thread.
unfoldable pub discovery_thread_stop : Common → Ret × Common
discovery_thread_stop common =
    if common.thread_is_running
    then if common.joinable
      then (Ret.ret_ok, record common { thread_is_running = false; joinable = false })
      else (Ret.ret_error, record common { thread_is_running = false })
    else (Ret.ret_ok, common)
