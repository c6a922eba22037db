-- ===== src/Clients/Start.antt =====
-- examples/Start.cpp: a program that registers nothing, and is there to be the host.
use sacs.Prelude.{Bool, Option, Text}
use sacs.Json.{JsonLib}
use sacs.State.{Net, World}
use sacs.Wrapper.{wrapper_new}

module _ {J : JsonLib} where
  -- main, up to the endless loop
  unfoldable pub start_main :
      Bool → (Text → Bool) → Net → Option (World J) → Bool × Option (World J)
  unfolding wrapper_new
  start_main lib_found has net g_mgr = wrapper_new lib_found has net g_mgr
