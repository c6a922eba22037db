-- ===== src/ModuleManager/Refinement/Writes.antt =====
-- What registers, unregisters and saves, against the registry.
use mathlib.Core.Option
use mathlib.Core.Path.{fun_ext}
use sacs.Maps.{assign, erase, find, find-assign, find-erase}
use sacs.State.{World}
use sacs.Prelude.{
  ==ℤ_iff, >>=-eq-ok, List, Option, Result, Text, [], arith, elim-cases, false, if-cases,
  if◌then◌else◌, inl, inr, none, ok, ok_subst, refl, some, suc, throw, ℕ, ℤ, ◌==ℤ◌, ◌∙◌, ◌∷◌, ◌≡◌,
}
use sacs.Json.{JsonLib}
use sacs.JsonMsg.Build.{create_module_removed}
use sacs.Module.{Module, set_id, set_property_values}
use sacs.ModuleManager.{deliver, do_register_module, pass_update, save_list, unregister}
use sacs.ModuleManager.Frame.{
  SameRegistry, emit_ok-SameRegistry, handle_msg-SameRegistry, handle_property_update-SameRegistry,
}
use sacs.ModuleManager.Registry.{Registered, do_register_module-Registers}
use sacs.ModuleManager.Spec.{
  Registry, registry, spec_pass, spec_register, spec_save, spec_unregister,
}
use sacs.JsonMsg.{JsonMsg, find_id, get_properties_list}
use sacs.Module.Reference.{apply_updates, set_property_values-apply_updates, with_updates-nil}

Registry-ext :
    (f g : ℤ → Option Module) (n k : ℕ)
    → ((i : ℤ) → f i ≡ g i)
    → n ≡ k
    → ◌≡◌ {A = Registry} (record { modules = f; next = n }) (record { modules = g; next = k })
Registry-ext f g n k h e = rw (fun_ext h, e) refl

module _ {J : JsonLib} where
  pub SameRegistry-registry : (w w' : World J) → SameRegistry w w' → registry w' ≡ registry w
  SameRegistry-registry w w' s = rw (s.modules, s.id_counter) refl

  pub do_register_module-spec_register :
      (m : Module) (w : World J) {id : ℤ} {w' : World J}
      → Registered w
      → do_register_module m w ≡ ok (id, w')
      → registry w' ≡ spec_register m (registry w)
  unfolding set_id
  do_register_module-spec_register m w {id} {w'} r h =
      let s = do_register_module-Registers m w r h in
      Registry-ext (λ k. find k w'.modules) _ w'.id_counter (suc w.id_counter)
        (λ k. rw (s.filed k, s.given) refl) s.counted

  pub unregister-spec_unregister :
      (id : ℤ) (w : World J) {w' : World J}
      → w.different_thread ≡ false
      → unregister id w ≡ ok w'
      → registry w' ≡ spec_unregister id (registry w)
  unfolding unregister
  unregister-spec_unregister id w {w'} d h = elim (if-cases w.different_thread _ _ h) [
    | inl (e, _) ↦ cc
    | inr (_, e) ↦
        let (text, made, sent) = >>=-eq-ok (create_module_removed J id) _ e in
        SameRegistry-registry (record w { modules = erase id w.modules }) w'
          (handle_msg-SameRegistry text _ sent)
        ∙ Registry-ext (λ k. find k (erase id w.modules)) _ w.id_counter w.id_counter
            (λ k. find-erase id k w.modules) refl
  ]

  save_absent :
      (id : ℤ) (us : List (ℤ × Text)) (w : World J)
      → find id w.modules ≡ none
      → registry w ≡ spec_save id us (registry w)
  save_absent id us w e =
      Registry-ext (λ k. find k w.modules) _ w.id_counter w.id_counter
        (λ k. ground (arith, ==ℤ_iff k id)) refl

  save_none : (id : ℤ) (w : World J) → registry w ≡ spec_save id [] (registry w)
  save_none id w =
      Registry-ext (λ k. find k w.modules) _ w.id_counter w.id_counter
        (λ k. apply_none k (find k w.modules)) refl
    where
      apply_none :
          (k : ℤ) (o : Option Module)
          → o ≡ (if k ==ℤ id then Option.map (apply_updates []) o else o)
      apply_none k none = ground arith
      apply_none k (some m) = ground (arith, with_updates-nil 0 m.properties)

  pub save_list-spec_save :
      (id : ℤ) (us : List (ℤ × Text)) (w : World J) {w' : World J}
      → w.different_thread ≡ false
      → save_list id us w ≡ ok w'
      → registry w' ≡ spec_save id us (registry w)
  unfolding save_list
  save_list-spec_save id us w {w'} d h = elim (if-cases w.different_thread _ _ h) [
    | inl (e, _) ↦ cc
    | inr (_, e) ↦ elim (elim-cases (find id w.modules) _ _ e) [
      | inl (absent, same) ↦
          ok_subst (λ v. registry v ≡ spec_save id us (registry w)) same
            (save_absent id us w absent)
      | inr (m, found, rest) ↦
          let (m', saved, done) = >>=-eq-ok (set_property_values m us) _ rest in
          let applied = set_property_values-apply_updates m us saved in
          ok_subst (λ v. registry v ≡ spec_save id us (registry w)) done
            (Registry-ext (λ k. find k (assign id m' w.modules)) _ w.id_counter w.id_counter
              (λ k. ground (arith, find-assign id k m' w.modules, ==ℤ_iff k id)) refl)
    ]
  ]

  deliver-spec_save :
      (id : ℤ) (m : Module) (msg : JsonMsg J) (us : List (ℤ × Text)) (w : World J) {w' : World J}
      → w.different_thread ≡ false
      → deliver id m msg us w ≡ ok w'
      → registry w' ≡ spec_save id us (registry w)
  unfolding deliver
  deliver-spec_save id m msg [] w d h =
      ok_subst (λ v. registry v ≡ spec_save id [] (registry w)) h (save_none id w)
  deliver-spec_save id m msg (u ∷ us) w {w'} d h =
      let (w₁, saved, h') = >>=-eq-ok (save_list id (u ∷ us) w) _ h in
      let first = save_list-spec_save id (u ∷ us) w d saved in
      elim (elim-cases m.callback _ _ h') [
        | inl (_, e) ↦
            SameRegistry-registry w₁ w' (handle_property_update-SameRegistry msg w₁ e) ∙ first
        | inr (f, _, e) ↦ SameRegistry-registry w₁ w' (emit_ok-SameRegistry _ w₁ e) ∙ first
      ]

  -- Updates for a module that is not there change nothing.
  spec_pass_absent :
      (id : ℤ) (listed : Result (JsonMsg J × List (ℤ × Text))) (w : World J)
      → find id w.modules ≡ none
      → registry w ≡ spec_pass (ok id) listed (registry w)
  spec_pass_absent id (ok (msg, us)) w e = save_absent id us w e
  spec_pass_absent id (throw f) w e = refl

  pub pass_update-spec_pass :
      (msg : JsonMsg J) (w : World J) {w' : World J}
      → w.different_thread ≡ false
      → pass_update msg w ≡ ok w'
      → registry w' ≡ spec_pass (find_id J msg) (get_properties_list J msg) (registry w)
  unfolding pass_update
  pass_update-spec_pass msg w {w'} d h = elim (if-cases w.different_thread _ _ h) [
    | inl (e, _) ↦ cc
    | inr (_, e) ↦
        let (id, found, h₁) = >>=-eq-ok (find_id J msg) _ e in
        rw found (elim (elim-cases (find id w.modules) _ _ h₁) [
          | inl (absent, same) ↦
              ok_subst
                (λ v. registry v ≡ spec_pass (ok id) (get_properties_list J msg) (registry w)) same
                (spec_pass_absent id (get_properties_list J msg) w absent)
          | inr (m, _, h₂) ↦
              let (p, listed, h₃) = >>=-eq-ok (get_properties_list J msg) _ h₂ in
              rw listed (deliver-spec_save id m p.0 p.1 w d h₃)
        ])
  ]
