-- ===== src/ModuleManager/Registry.antt =====
-- The registry of modules under registration, removal and updates.
use sacs.Prelude.{
  >>=-eq-ok, Bool-cases, List, Option-cases, Text, arith, elim-cases, false, if-cases,
  if◌then◌else◌, inl, inr, ltb, ltb_ℤ, ltb_ℤ_irrefl, negsuc, none, ok, ok_subst, pos, refl, some,
  suc, true, ℕ, ℤ, ◌==ℤ◌, ◌∙◌, ◌≡◌,
}
use sacs.Maps.{
  IsSorted, assign, assign-IsSorted, erase, erase-IsSorted, find, find-assign, find-erase,
  find-insert, insert, insert-IsSorted,
}
use sacs.Json.{JsonLib}
use sacs.Module.{Module, set_id, set_property_values}
use sacs.ModuleManager.Frame.{SameRegistry, handle_msg-SameRegistry, post_ok-SameRegistry}
use sacs.State.{World}
use sacs.ModuleManager.{do_register_module, handle_msg, int_max, save_list, unregister}
use sacs.JsonMsg.Build.{create_module_added, create_module_removed}
use sacs.Module.Update.{set_property_values-ok}

module _ {J : JsonLib} where
  -- The ids of the modules are their keys, and lie between 0 and the counter.
  pub record Registered (w : World J) : Type 0 where
    pub sorted : IsSorted w.modules
    pub own_id : (k : ℤ) (m : Module) → find k w.modules ≡ some m → m.id ≡ k
    pub from_0 : (k : ℤ) (m : Module) → find k w.modules ≡ some m → ltb_ℤ k (pos 0) ≡ false
    pub below : (k : ℤ) (m : Module) → find k w.modules ≡ some m → ltb_ℤ k (pos w.id_counter) ≡ true

  -- An id that the counter has not reached is not in the registry.
  pub fresh :
      (w : World J)
      → Registered w
      → (k : ℤ) → ltb_ℤ k (pos w.id_counter) ≡ false
      → find k w.modules ≡ none
  fresh w r k h = elim (Option-cases (find k w.modules)) [
    | inl e ↦ e
    | inr (m, e) ↦ cc (r.below k m e)
  ]

  -- Nor is a negative one.
  pub find-negsuc : (w : World J) → Registered w → (n : ℕ) → find (negsuc n) w.modules ≡ none
  find-negsuc w r n = elim (Option-cases (find (negsuc n) w.modules)) [
    | inl e ↦ e
    | inr (m, e) ↦ cc (r.from_0 (negsuc n) m e)
  ]

  pub Registered-at :
      {w w' : World J}
      → w'.modules ≡ w.modules
      → w'.id_counter ≡ w.id_counter
      → Registered w
      → Registered w'
  Registered-at e c r = record {
    sorted = rw e r.sorted;
    own_id = λ k m h. r.own_id k m (rw e at h);
    from_0 = λ k m h. r.from_0 k m (rw e at h);
    below = λ k m h. rw c (r.below k m (rw e at h));
  }

  pub SameRegistry-Registered : {w w' : World J} → SameRegistry w w' → Registered w → Registered w'
  SameRegistry-Registered s r = Registered-at s.modules s.id_counter r

  unfoldable pub add_entry : (w : World J) (m : Module) → World J
  add_entry w m = record w {
    id_counter = suc w.id_counter;
    modules = insert (pos w.id_counter) (set_id m (pos w.id_counter)) w.modules;
  }

  add_entry-find :
      (w : World J) (m : Module)
      → Registered w
      → (k : ℤ)
      → find k (add_entry w m).modules
        ≡ (if k ==ℤ pos w.id_counter then some (set_id m (pos w.id_counter)) else find k w.modules)
  unfolding add_entry
  add_entry-find w m r k =
      rw
        (
          find-insert (pos w.id_counter) k (set_id m (pos w.id_counter)) w.modules r.sorted,
          fresh w r (pos w.id_counter) (ltb_ℤ_irrefl (pos w.id_counter) (pos 0)),
        )
        refl

  add_entry-Registered : (w : World J) (m : Module) → Registered w → Registered (add_entry w m)
  unfolding add_entry set_id
  add_entry-Registered w m r = record {
    sorted = insert-IsSorted _ _ w.modules r.sorted;
    own_id = λ k x h. ground (arith, add_entry-find w m r k, r.own_id k x);
    from_0 = λ k x h. ground (arith, add_entry-find w m r k, r.from_0 k x);
    below = λ k x h. ground (arith, add_entry-find w m r k, r.below k x);
  }

  -- What a registration should bring about.
  pub record Registers (w : World J) (m : Module) (id : ℤ) (w' : World J) : Type 0 where
    pub given : id ≡ pos w.id_counter
    pub was_free : find id w.modules ≡ none
    pub filed :
        (k : ℤ) → find k w'.modules ≡ (if k ==ℤ id then some (set_id m id) else find k w.modules)
    pub counted : w'.id_counter ≡ suc w.id_counter
    pub registered : Registered w'

  -- What a registration that ends has done.
  pub do_register_module-ok :
      (m : Module) (w : World J) {id : ℤ} {w' : World J}
      → do_register_module m w ≡ ok (id, w')
      → (text : Text) × (create_module_added J (set_id m (pos w.id_counter)) ≡ ok text)
        × (handle_msg text (add_entry w m) ≡ ok w')
        × (id ≡ pos w.id_counter)
  unfolding do_register_module add_entry
  do_register_module-ok m w {id} {w'} h = elim (Bool-cases (ltb w.id_counter int_max)) [
    | inr e ↦ cc (rw e at h)
    | inl e ↦
        let (text, made, h₁) =
          >>=-eq-ok (create_module_added J (set_id m (pos w.id_counter))) _ (rw e at h) in
        let (w₁, sent, h₂) = >>=-eq-ok (handle_msg text (add_entry w m)) _ h₁ in
        (text, made, ground arith, ground arith)
  ]

  pub do_register_module-Registers :
      (m : Module) (w : World J) {id : ℤ} {w' : World J}
      → Registered w
      → do_register_module m w ≡ ok (id, w')
      → Registers w m id w'
  do_register_module-Registers m w {id} {w'} r h =
      let (text, made, sent, e) = do_register_module-ok m w h in
      let s = handle_msg-SameRegistry text (add_entry w m) sent in
      record {
        given = e;
        was_free = rw e (fresh w r (pos w.id_counter) (ltb_ℤ_irrefl (pos w.id_counter) (pos 0)));
        filed = λ k. rw (s.modules, e) (add_entry-find w m r k);
        counted = s.id_counter ∙ unfold add_entry in refl;
        registered = SameRegistry-Registered s (add_entry-Registered w m r);
      }

  -- Where the counter has room, the announcement can be dumped, and it can be handled, a
  -- registration in a registry in order ends, gives the module the id that the counter stands at,
  -- which was free, files the module under that id, counts on by one, leaves the other modules
  -- where they were, and keeps the registry in order.
  pub do_register_module-succeeds :
      (m : Module) (w : World J) (text : Text) (w' : World J)
      → Registered w
      → ltb w.id_counter int_max ≡ true
      → create_module_added J (set_id m (pos w.id_counter)) ≡ ok text
      → handle_msg text (add_entry w m) ≡ ok w'
      → (do_register_module m w ≡ ok (pos w.id_counter, w')) × Registers w m (pos w.id_counter) w'
  unfolding do_register_module add_entry
  do_register_module-succeeds m w text w' r room made sent =
      let done : do_register_module m w ≡ ok (pos w.id_counter, w') = ground (arith, made, sent) in
      (done, do_register_module-Registers m w r done)

  erase_entry-Registered :
      (w : World J) (id : ℤ) → Registered w → Registered (record w { modules = erase id w.modules })
  erase_entry-Registered w id r = record {
    sorted = erase-IsSorted id w.modules r.sorted;
    own_id = λ k x h. ground (arith, find-erase id k w.modules, r.own_id k x);
    from_0 = λ k x h. ground (arith, find-erase id k w.modules, r.from_0 k x);
    below = λ k x h. ground (arith, find-erase id k w.modules, r.below k x);
  }

  assign_entry-Registered :
      (w : World J) (id : ℤ) (m m' : Module)
      → Registered w
      → find id w.modules ≡ some m
      → m'.id ≡ m.id
      → Registered (record w { modules = assign id m' w.modules })
  assign_entry-Registered w id m m' r e same = record {
    sorted = assign-IsSorted id m' w.modules r.sorted;
    own_id = λ k x h. ground (arith, find-assign id k m' w.modules, r.own_id k x, r.own_id id m e);
    from_0 = λ k x h. ground (arith, find-assign id k m' w.modules, r.from_0 k x, r.from_0 id m e);
    below = λ k x h. ground (arith, find-assign id k m' w.modules, r.below k x, r.below id m e);
  }

  pub unregister-Registered :
      (id : ℤ) (w : World J) {w' : World J} → Registered w → unregister id w ≡ ok w' → Registered w'
  unfolding unregister
  unregister-Registered id w {w'} r h = elim (if-cases w.different_thread _ _ h) [
    | inl (_, e) ↦ SameRegistry-Registered (post_ok-SameRegistry _ w e) r
    | inr (_, e) ↦
        let (text, made, sent) = >>=-eq-ok (create_module_removed J id) _ e in
        SameRegistry-Registered (handle_msg-SameRegistry text _ sent)
          (erase_entry-Registered w id r)
  ]

  pub save_list-Registered :
      (id : ℤ) (us : List (ℤ × Text)) (w : World J) {w' : World J}
      → Registered w
      → save_list id us w ≡ ok w'
      → Registered w'
  unfolding save_list
  save_list-Registered id us w {w'} r h = elim (if-cases w.different_thread _ _ h) [
    | inl (_, e) ↦ SameRegistry-Registered (post_ok-SameRegistry _ w e) r
    | inr (_, e) ↦ elim (elim-cases (find id w.modules) _ _ e) [
      | inl (_, same) ↦ ground (arith, r)
      | inr (m, e', rest) ↦
          let (m', saved, done) = >>=-eq-ok (set_property_values m us) _ rest in
          ok_subst Registered done
            (assign_entry-Registered w id m m' r e' (set_property_values-ok m us saved).same_id)
    ]
  ]
