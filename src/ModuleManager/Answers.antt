-- ===== src/ModuleManager/Answers.antt =====
-- What a web page gets as the answer to a request.
use sacs.Prelude.{Text, arith, false, negsuc, none, ok, ℤ, ◌≡◌}
use sacs.Maps.{find}
use sacs.Json.{JsonLib}
use sacs.JsonMsg.{JsonMsg, find_id, req_apply, req_load}
use sacs.JsonMsg.Build.{create_module_list, empty_json}
use sacs.ModuleManager.{do_process_js_request, pass_update}
use sacs.ModuleManager.Registry.{Registered, find-negsuc}
use sacs.State.{World}

module _ {J : JsonLib} where
  pub find_id-req_load : (msg : JsonMsg J) → msg.type ≡ req_load → find_id J msg ≡ ok (negsuc 0)
  unfolding find_id
  find_id-req_load msg h = ground arith

  pub pass_update-unknown :
      (msg : JsonMsg J) (id : ℤ) (w : World J)
      → w.different_thread ≡ false
      → find_id J msg ≡ ok id
      → find id w.modules ≡ none
      → pass_update msg w ≡ ok w
  unfolding pass_update
  pass_update-unknown msg id w d h e = ground arith

  -- On the thread of the loop, with a registry in order whose list can be dumped, a request to load
  -- is answered with that list. That its case falls through into the case of `apply` changes
  -- nothing, since no module has the id -1.
  pub load_changes_nothing :
      (msg : JsonMsg J) (list : Text) (w : World J)
      → msg.type ≡ req_load
      → w.different_thread ≡ false
      → Registered w
      → create_module_list J w.modules ≡ ok list
      → do_process_js_request msg w ≡ ok (list, w)
  unfolding do_process_js_request
  load_changes_nothing msg list w t d r h =
      let same =
        pass_update-unknown msg (negsuc 0) w d (find_id-req_load msg t) (find-negsuc w r 0) in
      ground (arith, same)

  -- A request to apply updates that can be applied is answered with an empty object.
  pub do_process_js_request-req_apply :
      (msg : JsonMsg J) (w w' : World J)
      → msg.type ≡ req_apply
      → pass_update msg w ≡ ok w'
      → do_process_js_request msg w ≡ ok (empty_json J, w')
  unfolding do_process_js_request
  do_process_js_request-req_apply msg w w' t e = ground (arith, t, e)
