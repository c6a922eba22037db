-- ===== src/ProxyServer/Arrival.antt =====
-- ProxyServer.cpp: a module that a connected process announces.
use sacs.State.{Task, World, post, register_module}
use sacs.Maps.{IsSorted, find}
use sacs.Prelude.{List, Text, arith, ltb, none, ok, pos, refl, some, true, ℕ, ℤ, ◌≡◌, ◌≢◌}
use sacs.Json.{JsonLaws, JsonLib}
use sacs.JsonMsg.Build.{create_module_added}
use sacs.JsonMsg.Modules.{without_callback}
use sacs.JsonMsg.RoundTrip.{create_module_added-to_module}
use sacs.Module.{Module, set_id}
use sacs.ModuleManager.{do_register_module, handle_msg, int_max}
use sacs.ModuleManager.Invariant.{run_tasks_posted-Registered}
use sacs.ModuleManager.Loop.{enter, leave, register, run_tasks}
use sacs.ModuleManager.Registry.{Registered, Registers, add_entry, do_register_module-succeeds}
use sacs.ProxyServer.Session.{on_client_read, read_module_add}
use sacs.ProxyServer.Table.{Files, IsOneToOne, add_module-Files}
use sacs.ProxyServer.{add_module}

module _ {J : JsonLib} where
  register-waits :
      (meanwhile : List (Task J)) (m : Module) (w w₁ : World J) {id : ℤ} {w₂ : World J}
      → w.different_thread ≡ true
      → run_tasks meanwhile (post (register_module m) w) ≡ ok w₁
      → do_register_module m (enter w₁) ≡ ok (id, w₂)
      → register meanwhile m w ≡ ok (id, leave w₂)
  unfolding register
  register-waits meanwhile m w w₁ d ran done = ground (arith, d, ran, done)

  -- What the arrival of a module should bring about.
  pub record Arrives (m : Module) (c : ℤ) (w w₁ w₂ w' : World J) : Type 0 where
    pub registers : Registers (enter w₁) m (pos w₁.id_counter) w₂
    pub files : Files (pos w₁.id_counter) m.id c w₂.remote_modules w'.remote_modules
    pub same_modules : w'.modules ≡ w₂.modules

  module _ (L : JsonLaws J) where
    -- A text that CreateModuleAdded made comes from a process on the network thread of a host whose
    -- registry is in order; the tasks before the registration end, the counter has room, the new
    -- announcement can be dumped and handled, and the table is sorted, one to one, and holds
    -- neither the new id nor the same module of that process. Then the handler ends, the module is
    -- registered without its callback under the next id, and the table leads from that id to the id
    -- and the process of the module, and back.
    pub on_client_read-module_added :
        (meanwhile : List (Task J)) (client : ℕ) (m : Module) (s text : Text) (w w₁ w₂ : World J)
        → w.different_thread ≡ true
        → Registered w
        → create_module_added J m ≡ ok s
        → run_tasks meanwhile (post (register_module (without_callback L m)) w) ≡ ok w₁
        → ltb w₁.id_counter int_max ≡ true
        → create_module_added J (set_id (without_callback L m) (pos w₁.id_counter)) ≡ ok text
        → handle_msg text (add_entry (enter w₁) (without_callback L m)) ≡ ok w₂
        → IsSorted w₂.remote_modules
        → IsOneToOne w₂.remote_modules
        → find (pos w₁.id_counter) w₂.remote_modules ≡ none
        → ((k : ℤ) → find k w₂.remote_modules ≢ some (m.id, w₂.net.get_id client))
        → (w' : World J) × (on_client_read meanwhile client s w ≡ ok w')
          × Arrives (without_callback L m) (w₂.net.get_id client) w w₁ w₂ w'
    unfolding on_client_read read_module_add
    on_client_read-module_added meanwhile client m s text w w₁ w₂ d r made ran room again sent
          sorted one free new =
        let p = without_callback L m in
        let (msg, parsed, kind, _, back) = create_module_added-to_module L m s made in
        let r₁ = run_tasks_posted-Registered meanwhile (register_module p) w r ran in
        let (done, reg) = do_register_module-succeeds p (enter w₁) text w₂ r₁ room again sent in
        let waited = register-waits meanwhile p w w₁ d ran done in
        (
          record (leave w₂) {
            remote_modules =
                add_module (pos w₁.id_counter) m.id (w₂.net.get_id client) w₂.remote_modules;
          },
          rw (parsed, on_client_read, kind, read_module_add, back, waited) refl,
          record {
            registers = reg;
            files =
                add_module-Files (pos w₁.id_counter) m.id (w₂.net.get_id client) w₂.remote_modules
                  sorted one free new;
            same_modules = refl;
          },
        )
