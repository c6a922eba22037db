-- ===== src/EndToEnd/Hosting.antt =====
-- The host at work on its modules, and what it sends to the pages.
use sacs.ServerImpl.Listeners.{copies, living, push_to_pages_lem}
use sacs.Maps.{Map, find}
use sacs.State.{World}
use sacs.Prelude.{
  List, Text, arith, false, ok, ok-injective, refl, some, sym, true, ℕ, ℤ, ◌++◌, ◌∙◌, ◌≡◌,
}
use sacs.Json.{JsonLib}
use sacs.Module.{Module}
use sacs.ModuleManager.{
  do_register_module, handle_msg, push_msg_for_js, unregister, update_properties,
}
use sacs.ModuleManager.Registry.{Registered}
use sacs.Page.Environment.{Browser}
use sacs.Page.Mirror.Widgets.{can_build}
use sacs.Page.Mirror.Updates.{can_show, types_of}

module _ {J : JsonLib} where
  -- The thread of the loop of an initialized host with these pages, whose registry is in order.
  pub record Hosting (listeners : Map ℕ) (w : World J) : Type 0 where
    pub on_loop : w.different_thread ≡ false
    pub initialized : w.initialized ≡ true
    pub pages : w.server_impl ≡ some listeners
    pub registered : Registered w

  -- What the pages get of a text.
  handle_msg-copies :
      (text : Text) (listeners : Map ℕ) (w : World J)
      → w.different_thread ≡ false
      → w.initialized ≡ true
      → w.server_impl ≡ some listeners
      → handle_msg text w
        ≡ ok (record w {
          server_impl = some (living w.net listeners);
          events = w.events ++ copies text (living w.net listeners);
        })
  unfolding handle_msg push_msg_for_js
  handle_msg-copies text listeners w d i s = ground (arith, push_to_pages_lem text listeners w)

  -- One operation of the host on its modules, each of which a page can show.
  pub data HostStep (B : Browser) (w : World J) : World J → Type 0 where
    registers :
        (m : Module) (id : ℤ) {w' : World J}
        → can_build B m.properties ≡ true
        → do_register_module m w ≡ ok (id, w')
        → HostStep B w w'
    unregisters :
        (id : ℤ) (m : Module) {w' : World J}
        → find id w.modules ≡ some m
        → unregister id w ≡ ok w'
        → HostStep B w w'
    updates :
        (id : ℤ) (us : List (ℤ × Text)) (m : Module) {w' : World J}
        → find id w.modules ≡ some m
        → can_show B (types_of m.properties) us ≡ true
        → update_properties id us w ≡ ok w'
        → HostStep B w w'

  pub data HostRun (B : Browser) : World J → World J → Type 0 where
    done : {w : World J} → HostRun B w w
    first : {w v w' : World J} → HostStep B w v → HostRun B v w' → HostRun B w w'

  -- A step has sent one text to the pages.
  pub record Sends (text : Text) (listeners : Map ℕ) (modules : Map Module) (w w' : World J)
      : Type 0 where
    pub filed : w'.modules ≡ modules
    pub sent : w'.events ≡ w.events ++ copies text (living w.net listeners)
    pub hosting : Hosting (living w.net listeners) w'
    pub net : w'.net ≡ w.net

  pub handle_msg-Sends :
      (text : Text) (listeners : Map ℕ) (v w w' : World J)
      → v.different_thread ≡ false
      → v.initialized ≡ true
      → v.server_impl ≡ some listeners
      → v.net ≡ w.net
      → v.events ≡ w.events
      → handle_msg text v ≡ ok w'
      → Registered w'
      → Sends text listeners v.modules w w'
  handle_msg-Sends text listeners v w w' d i s n e h r =
      let is : ok w' ≡ _ = sym h ∙ handle_msg-copies text listeners v d i s in
      let same = ok-injective is in
      record {
        filed = rw same refl;
        sent = rw (same, e, n) refl;
        hosting = record {
          on_loop = rw same d;
          initialized = rw same i;
          pages = rw (same, n) refl;
          registered = r;
        };
        net = rw same n;
      }
