-- ===== src/Clients/TextFields/FromPage.antt =====
-- A change of a page on its way through the manager and the callback of TextFields, and back.
use sacs.Maps.{Map, assign, find, find-assign}
use sacs.Clients.{answer}
use sacs.ModuleManager.Delivery.{Applies, pass_update-calls_at}
use sacs.Prelude.{
  ==ℤ_iff, List, Result, Text, [], ap, arith, false, ok, pos, refl, some, true, ℕ, ℤ, ◌++◌, ◌==◌,
  ◌>>=◌, ◌||◌, ◌∙◌, ◌∷◌, ◌≡◌,
}
use sacs.Clients.TextFields.{text_callback, text_callback-copy_field}
use sacs.Json.{JsonLaws, JsonLib}
use sacs.JsonMsg.{JsonMsg}
use sacs.JsonMsg.Build.{create_property_updated}
use sacs.Module.{Module, set_property_values}
use sacs.Module.Reference.{apply_updates, set_property_values-reference}
use sacs.ModuleManager.{
  call_back, handle_msg, pass_update, push_msg_for_js, save_list, update_properties,
}
use sacs.ServerImpl.{push_to_pages}
use sacs.State.{World}
use sacs.Wrapper.Marshalling.{until_nul}
use sacs.Wrapper.{no_lib_update_properties}

module _ {J : JsonLib} where
  update_properties-on_loop :
      (id : ℤ) (us : List (ℤ × Text)) (m m' : Module) (text : Text) (listeners : Map ℕ)
      (w : World J)
      → w.different_thread ≡ false
      → w.initialized ≡ true
      → w.server_impl ≡ some listeners
      → find id w.modules ≡ some m
      → set_property_values m us ≡ ok m'
      → create_property_updated J id us ≡ ok text
      → update_properties id us w
        ≡ ok (push_to_pages text listeners (record w { modules = assign id m' w.modules }))
  unfolding update_properties save_list handle_msg push_msg_for_js
  update_properties-on_loop id us m m' text listeners w d i s filed saved made =
      ground (arith, d, i, s, filed, saved, made)

  -- In an initialized host, on the thread of the loop, a message with one update, of property 0 or
  -- 2, for a module whose callback is that of TextFields, where the message that the callback
  -- causes can be dumped: the update is saved and the callback is called once with it; the callback
  -- then saves its value, up to the first NUL, as property 1, and each page that is still there
  -- gets the message of that.
  pub text_field_follows :
      (L : JsonLaws J) {t : Text} {id : ℤ} {m : Module} {n : ℕ} {value : Text} {msg : JsonMsg J}
      {w : World J} (a : Applies L t id m ((pos n, value) ∷ []) msg w) (f : ℕ) (text : Text)
      (listeners : Map ℕ)
      → m.callback ≡ some f
      → (n == 0 || n == 2) ≡ true
      → w.initialized ≡ true
      → w.server_impl ≡ some listeners
      → create_property_updated J id ((pos 1, until_nul value) ∷ []) ≡ ok text
      → (w₁ : World J) × (pass_update msg w ≡ ok w₁)
        × (w₁.modules ≡ assign id (apply_updates ((pos n, value) ∷ []) m) w.modules)
        × (w₁.events ≡ w.events ++ call_back f id ((pos n, value) ∷ []) ∷ [])
        × (answer (text_callback true) (call_back f id ((pos n, value) ∷ [])) (some w₁)
            ≡ ok (
                some (
                  push_to_pages text listeners (record w₁ {
                    modules =
                        assign id
                          (apply_updates
                            ((pos 1, until_nul value) ∷ [])
                            (apply_updates ((pos n, value) ∷ []) m))
                          w₁.modules;
                  }))))
  unfolding no_lib_update_properties
  text_field_follows L {id = id} {m = m} {n = n} {value = value} {w = w} a f text listeners
        called_by source initialized pages made =
      let us = (pos n, value) ∷ [] in
      let copy = (pos 1, until_nul value) ∷ [] in
      let m₁ = apply_updates us m in
      let w₁ = record w {
        modules = assign id m₁ w.modules;
        events = w.events ++ call_back f id us ∷ [];
      } in
      let there : find id (assign id m₁ w.modules) ≡ some m₁ =
        ground (arith, find-assign id id m₁ w.modules, a.filed, ==ℤ_iff id id) in
      let copied =
        update_properties-on_loop id copy m₁ (apply_updates copy m₁) text listeners w₁ a.on_loop
          initialized pages there (set_property_values-reference m₁ copy) made in
      (
        w₁,
        pass_update-calls_at L a f called_by (set_property_values-reference m us),
        refl,
        refl,
        text_callback-copy_field f id us w₁
            ∙ rw source (ap (λ (r : Result (World J)). do w' ← r; ok (some w')) copied),
      )
