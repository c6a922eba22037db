-- ===== src/Clients/CreateClose.antt =====
-- examples/DynamicRegisterAndUnregister.cpp: one button registers a module, and the other one
-- unregisters it.
use sacs.Prelude.{
  ==ℤ_iff, Bool, List, Option, Result, Text, [], ap, arith, codes, deadlock, false, if◌then◌else◌,
  negsuc, none, ok, pos, refl, some, throw, true, ℕ, ℤ, ◌==ℤ◌, ◌==◌, ◌>>=◌, ◌∙◌, ◌∷◌, ◌≡◌,
}
use sacs.Wrapper.{button, text_area_ro}
use sacs.Clients.{Callback, answer, property}
use sacs.Json.{JsonLib}
use sacs.Module.{Module, new_module}
use sacs.SacsLib.{lib_unregister_module, read_array}
use sacs.State.{Task, World}
use sacs.Wrapper.{
  no_lib_register_module, to_property, wrapper_register_module, wrapper_unregister_module,
}
use sacs.ModuleManager.{call_back, do_register_module, unregister}
use sacs.ModuleManager.Loop.{register, register_new}
use sacs.ModuleManager.OnLoop.{do_register_module-TaskFrame}
use sacs.ModuleManager.Refinement.Writes.{unregister-spec_unregister}
use sacs.ModuleManager.Registry.{Registered, do_register_module-Registers}
use sacs.Maps.{find}
use mathlib.Core.Path.{ap}
use sacs.ModuleManager.Spec.{Registry}
use sacs.Wrapper.Marshalling.{cut, until_nul, wrapper_register_module-no_lib}

module _ (J : JsonLib) where
  -- g_tmp_mod_id and the wrapper
  pub record TmpState : Type 0 where
    pub tmp_mod_id : ℤ
    pub g_mgr : Option (World J)

module _ {J : JsonLib} where
  module _ (is_valid : Bool) (meanwhile : List (Task J)) where
    -- The case of the first button
    unfoldable pub create : TmpState J → Result (TmpState J)
    unfolding wrapper_register_module
    create s =
        if s.tmp_mod_id ==ℤ negsuc 0
        then (do
          (id, g) ←
              wrapper_register_module meanwhile is_valid (codes "Temporary Module")
                (property text_area_ro "Just a simple" (codes "Hello World") ∷ []) none s.g_mgr
          ok (record s { tmp_mod_id = id; g_mgr = g }))
        else ok s

    -- The case of any other property
    unfoldable pub close : TmpState J → Result (TmpState J)
    unfolding wrapper_unregister_module
    close s = if s.tmp_mod_id ==ℤ negsuc 0 then ok s else (do
      g ← wrapper_unregister_module is_valid s.tmp_mod_id s.g_mgr
      ok (record s { tmp_mod_id = negsuc 0; g_mgr = g }))

    unfoldable pub create_close_callback : Callback (TmpState J)
    unfolding create close read_array
    create_close_callback module_id count property_no property_val s =
        if count == 1
        then (do index ← read_array property_no 0; if index ==ℤ pos 0 then create s else close s)
        else ok s

    -- main, up to the endless loop. `callback` stands for the function above.
    unfoldable pub create_close_main : ℕ → TmpState J → Result (ℤ × TmpState J)
    unfolding wrapper_register_module
    create_close_main callback s = do
      (id, g) ←
          wrapper_register_module meanwhile is_valid (codes "Create / Close New Module")
            (property button "Create" [] ∷ property button "Close" [] ∷ []) (some callback) s.g_mgr
      ok (id, record s { g_mgr = g })

-- The module of the first button
abbrev pub temporary : Module
temporary =
    new_module (codes "Temporary Module")
      (to_property (property text_area_ro "Just a simple" (codes "Hello World")) ∷ []) none

if-true : {A : Type 0} (b : Bool) (x y : A) → b ≡ true → (if b then x else y) ≡ x
if-true b x y h = rw h refl

module _ {J : JsonLib} (meanwhile : List (Task J)) where
  -- The answer to a press of the button at index `i`
  abbrev pub press : ℕ → ℤ → ℤ → Text → TmpState J → Result (TmpState J)
  press f module_id i value s =
      answer (create_close_callback true meanwhile) (call_back f module_id ((i, value) ∷ [])) s

  -- The registration of the first button, on the thread of the loop
  create-on_loop :
      (w : World J)
      → w.different_thread ≡ false
      → wrapper_register_module meanwhile true
          (codes "Temporary Module")
          (property text_area_ro "Just a simple" (codes "Hello World") ∷ [])
          none
          (some w)
        ≡ (do
          (id, w') ← (if w.net.runs_at_once then do_register_module temporary w else throw deadlock)
          ok (id, some w'))
  unfolding no_lib_register_module until_nul cut register_new register
  create-on_loop w d =
      rw
        (wrapper_register_module-no_lib meanwhile (codes "Temporary Module")
          (property text_area_ro "Just a simple" (codes "Hello World") ∷ []) none w)
        (simp d refl)

  create-made :
      (w : World J) {id : ℤ} {w₁ : World J}
      → w.different_thread ≡ false
      → w.net.runs_at_once ≡ true
      → do_register_module temporary w ≡ ok (id, w₁)
      → wrapper_register_module meanwhile true
          (codes "Temporary Module")
          (property text_area_ro "Just a simple" (codes "Hello World") ∷ [])
          none
          (some w)
        ≡ ok (id, some w₁)
  create-made w d q made =
      create-on_loop w d
      ∙ ap (λ (r : Result (ℤ × World J)). do (id, w') ← r; ok (id, some w'))
          (if-true w.net.runs_at_once (do_register_module temporary w) (throw deadlock) q ∙ made)

  pub record Returns (f : ℕ) (module_id : ℤ) (value : Text) (w : World J) (id : ℤ) (w₁ w₂ : World J)
      : Type 0 where
    pub created :
        press f module_id (pos 0) value (record { tmp_mod_id = negsuc 0; g_mgr = some w })
        ≡ ok (record { tmp_mod_id = id; g_mgr = some w₁ })
    pub created_once :
        press f module_id (pos 0) value (record { tmp_mod_id = id; g_mgr = some w₁ })
        ≡ ok (record { tmp_mod_id = id; g_mgr = some w₁ })
    pub closed :
        press f module_id (pos 1) value (record { tmp_mod_id = id; g_mgr = some w₁ })
        ≡ ok (record { tmp_mod_id = negsuc 0; g_mgr = some w₂ })
    pub restored : (k : ℤ) → find k w₂.modules ≡ find k w.modules

  -- On the thread of the loop, where a call posted there runs at once and the registry is in order,
  -- and the registration of the temporary module and its removal end: the first button registers
  -- the module and keeps its id, the same button again does nothing, and the second button
  -- unregisters it, forgets its id, and leaves the registry with the modules that it had.
  pub create_then_close :
      (f : ℕ) (module_id : ℤ) (value : Text) (w : World J) {id : ℤ} {w₁ w₂ : World J}
      → w.different_thread ≡ false
      → w.net.runs_at_once ≡ true
      → Registered w
      → do_register_module temporary w ≡ ok (id, w₁)
      → unregister id w₁ ≡ ok w₂
      → Returns f module_id value w id w₁ w₂
  unfolding create_close_callback create close call_back read_array wrapper_unregister_module
      lib_unregister_module
  create_then_close f module_id value w {id} {w₁} {w₂} d q r made gone =
      let s = do_register_module-Registers temporary w r made in
      let frame = do_register_module-TaskFrame temporary w d made in
      let no_minus_one : (id ==ℤ negsuc 0) ≡ false = rw s.given refl in
      let after = unregister-spec_unregister id w₁ (frame.different_thread ∙ d) gone in
      record {
        created = rw (create-made w d q made) refl;
        created_once = rw no_minus_one refl;
        closed = rw (no_minus_one, gone) refl;
        restored = λ k.
            let erased = ap (λ (x : Registry). x.modules k) after in
            ground (arith, erased, s.filed k, s.was_free, ==ℤ_iff k id);
      }
