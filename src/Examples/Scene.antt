-- ===== src/Examples/Scene.antt =====
-- A host that has one module of another process, that process, and the message of a web page that
-- switches the module on.
use sacs.Maps.{find}
use sacs.Prelude.{
  ==ℤ_iff, Result, Text, [], arith, codes, false, if◌then◌else◌, none, ok, pos, refl, some, text_eq,
  throw, true, ℕ, ℤ, ◌==ℤ◌, ◌==◌, ◌∷◌, ◌≡◌,
}
use sacs.Examples.SimpleJson.{
  Tree, cons_arr, cons_obj, nil_arr, nil_obj, num, print, simple_json, simple_laws, str,
}
use sacs.JsonMsg.{JsonMsg, detect_type, read_each, read_update, value_to_int, value_to_string}
use sacs.JsonMsg.RoundTrip.{Carries}
use sacs.Module.{Module, Property, set_property_value, set_property_values}
use sacs.ModuleManager.{init}
use sacs.ModuleManager.Delivery.{Applies}
use sacs.State.{Net, World}
use sacs.ModuleManager.Registry.{Registered}
use sacs.ProxyServer.Table.{IsOneToOne}

abbrev pub net : Net
net = record {
  get_id = λ _. pos 7;
  alive = λ (client : ℕ). client == 1;
  get_client = λ (id : ℤ). if id ==ℤ pos 7 then some 3 else none;
  runs_at_once = false;
}

abbrev pub switch : Property
switch = record { type = pos 1; name = codes "power"; value = codes "0"; read_only = false }

abbrev pub lamp : Module
lamp = record { id = pos 0; name = codes "lamp"; properties = switch ∷ []; callback = none }

-- The same module in its own process, where its id is 5.
abbrev pub own_lamp : Module
own_lamp = record { id = pos 5; name = codes "lamp"; properties = switch ∷ []; callback = some 9 }

abbrev pub update : ℤ × Text
update = (pos 0, codes "1")

abbrev pub turned_on : Module → Module
turned_on m = record m { properties = record switch { value = codes "1" } ∷ [] }

abbrev pub host_world : World simple_json
host_world = record (init {J = simple_json} (pos 8080) net) {
  modules = (pos 0, lamp) ∷ [];
  id_counter = 1;
  initialized = true;
  server_impl = some ((pos 1, 1) ∷ (pos 2, 2) ∷ []);
  proxy_initialized = true;
  has_server = true;
  remote_modules = (pos 0, (pos 5, pos 7)) ∷ [];
  different_thread = false;
}

abbrev pub owner_world : World simple_json
owner_world = record (init {J = simple_json} (pos 8080) net) {
  modules = (pos 5, own_lamp) ∷ [];
  id_counter = 6;
  initialized = true;
  proxy_initialized = true;
  host = some 4;
}

abbrev pub update_tree : ℤ → Tree
update_tree i = cons_obj (codes "id") (num i) (cons_obj (codes "value") (str (codes "1")) nil_obj)

-- A message of type `t` for module `id` with one update, at index `i`.
abbrev pub message : Text → ℤ → ℤ → JsonMsg simple_json
message t id i = record {
  json = cons_obj (codes "type") (str t) (
      cons_obj (codes "id") (num id)
        (cons_obj (codes "properties") (cons_arr (update_tree i) nil_arr) nil_obj));
  is_valid = true;
  type = detect_type t;
}

-- The message with its id set anew.
abbrev pub sent_on : JsonMsg simple_json → ℤ → JsonMsg simple_json
sent_on msg id = record msg { json = cons_obj (codes "id") (num id) msg.json }

abbrev pub text_of : JsonMsg simple_json → Text
text_of msg = print msg.json []

abbrev pub apply_msg : JsonMsg simple_json
apply_msg = message (codes "apply") (pos 0) (pos 0)

pub message-Carries :
    (t : Text) (id i : ℤ) → Carries simple_laws t id ((i, codes "1") ∷ []) (message t id i)
unfolding read_each read_update value_to_int value_to_string text_eq
message-Carries t id i = record {
  valid = refl;
  kind = refl;
  is_obj = refl;
  type_at = refl;
  id_at = refl;
  properties = cons_arr (update_tree i) nil_arr;
  properties_at = refl;
  reads = refl;
}

pub host_world-Applies :
    (i : ℤ)
    → Applies simple_laws
        (codes "apply")
        (pos 0)
        lamp
        ((i, codes "1") ∷ [])
        (message (codes "apply") (pos 0) i)
        host_world
unfolding detect_type text_eq find
host_world-Applies i = record {
  carries = message-Carries (codes "apply") (pos 0) i;
  kind = refl;
  on_loop = refl;
  filed = refl;
}

pub turned_on-lamp : set_property_values lamp (update ∷ []) ≡ ok (turned_on lamp)
unfolding set_property_values set_property_value
turned_on-lamp = refl

pub turned_on-own_lamp : set_property_values own_lamp (update ∷ []) ≡ ok (turned_on own_lamp)
unfolding set_property_values set_property_value
turned_on-own_lamp = refl

abbrev pub value_or {ℓ} : {A : Type ℓ} → A → Result A → A
value_or a (ok b) = b
value_or a (throw e) = a

-- A process at its start, on the thread of its loop.
abbrev pub start_world : World simple_json
start_world = record (init {J = simple_json} (pos 8080) net) { different_thread = false }

pub start_world-Registered : Registered start_world
unfolding find
start_world-Registered = record {
  sorted = tt;
  own_id = λ k m h. cc;
  from_0 = λ k m h. cc;
  below = λ k m h. cc;
}

pub host_world-Registered : Registered host_world
unfolding find
host_world-Registered = record {
  sorted = tt;
  own_id = λ k m h. ground (arith, ==ℤ_iff (pos 0) k);
  from_0 = λ k m h. ground (arith, ==ℤ_iff (pos 0) k);
  below = λ k m h. ground (arith, ==ℤ_iff (pos 0) k);
}

-- The table of the host's remote modules has one entry.
pub remote_modules-IsOneToOne : IsOneToOne host_world.remote_modules
unfolding find
remote_modules-IsOneToOne k j x h h' = ground (arith, ==ℤ_iff (pos 0) k, ==ℤ_iff (pos 0) j)
