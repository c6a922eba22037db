-- ===== src/Jni/Java/Found.antt =====
-- What JniGlue::Init has found when it ends.
use sacs.Jni.Java.{
  Descs, JavaEnv, PropertyDesc, UpdateDesc, WrapperDesc, find_property_desc, find_update_desc,
  find_wrapper_desc, in_class, init_glue, init_update, init_wrapper, is_set, no_descs,
}
use sacs.Prelude.{
  >>=-eq-ok, Bool, Option, ap, arith, codes, elim-cases, if-cases, inl, inr, none, null_deref, ok,
  ok-injective, ok_subst, refl, some, throw, true, ◌&&◌, ◌≡◌,
}

&&-true : (a b : Bool) → (a && b) ≡ true → (a ≡ true) × (b ≡ true)
&&-true a b h = ground arith

module _ (E : JavaEnv) where
  open E use {Class, Field, Method, find_class, new_global_ref}

  -- The parts that the other functions read are set.
  pub record Ready (g : Descs E) : Type 0 where
    pub property_desc : PropertyDesc E
    pub property_found : g.property_desc ≡ some property_desc
    pub type_found : is_set E property_desc.type ≡ true
    pub name_found : is_set E property_desc.name ≡ true
    pub value_found : is_set E property_desc.value ≡ true
    pub update_desc : UpdateDesc E
    pub update_found : g.update_desc ≡ some update_desc
    pub update_class_found : is_set E update_desc.class_id ≡ true
    pub id_found : is_set E update_desc.id ≡ true
    pub new_value_found : is_set E update_desc.value ≡ true
    pub sacs_desc : WrapperDesc E
    pub sacs_found : g.sacs_desc ≡ some sacs_desc
    pub wrapper_class_found : is_set E sacs_desc.class_id ≡ true
    pub on_props_updated_found : is_set E sacs_desc.on_props_updated ≡ true
    pub starts : g.msg_thread ≡ true

  in_class-set :
      {A : Type 0} (c : Option Class) (f : Class → A) {a : A}
      → in_class E c f ≡ ok a
      → is_set E c ≡ true
  in_class-set none f h = cc
  in_class-set (some c) f h = refl

  find_wrapper_desc-class :
      (c : Class) {w : WrapperDesc E} → find_wrapper_desc E c ≡ ok w → is_set E w.class_id ≡ true
  unfolding find_wrapper_desc
  find_wrapper_desc-class c h =
      let (m, found, h₁) = >>=-eq-ok (in_class E (new_global_ref (some c)) _) _ h in
      ok_subst (λ (w : WrapperDesc E). is_set E w.class_id ≡ true) h₁
        (in_class-set (new_global_ref (some c)) _ found)

  find_update_desc-class :
      (c : Option Class) {u : UpdateDesc E}
      → find_update_desc E c ≡ ok u
      → is_set E u.class_id ≡ true
  unfolding find_update_desc
  find_update_desc-class c h =
      let (m, found, h₁) = >>=-eq-ok (in_class E (new_global_ref c) _) _ h in
      let (i, _, h₂) = >>=-eq-ok (in_class E (new_global_ref c) _) _ h₁ in
      let (v, _, h₃) = >>=-eq-ok (in_class E (new_global_ref c) _) _ h₂ in
      ok_subst (λ (u : UpdateDesc E). is_set E u.class_id ≡ true) h₃
        (in_class-set (new_global_ref c) _ found)

  init_wrapper-true :
      (g : Descs E) {g' : Descs E}
      → init_wrapper E g ≡ ok (true, g')
      → (w : WrapperDesc E) × (g' ≡ record g { sacs_desc = some w; msg_thread = true })
        × (is_set E w.class_id ≡ true)
        × (is_set E w.on_props_updated ≡ true)
  unfolding init_wrapper
  init_wrapper-true g h = elim (elim-cases (find_class _) _ _ h) [
    | inl (_, e) ↦ cc
    | inr (c, _, h₁) ↦
        let (w, found, h₂) = >>=-eq-ok (find_wrapper_desc E c) _ h₁ in
        elim (if-cases (is_set E w.on_props_updated) _ _ (ok-injective h₂)) [
          | inl (t, e) ↦ (w, cc, find_wrapper_desc-class c found, t)
          | inr (_, e) ↦ cc
        ]
  ]

  init_update-true :
      (g : Descs E) {g' : Descs E}
      → init_update E g ≡ ok (true, g')
      → (u : UpdateDesc E) × (w : WrapperDesc E) × (g'
          ≡ record g { update_desc = some u; sacs_desc = some w; msg_thread = true })
        × (is_set E u.class_id ≡ true)
        × (is_set E u.id ≡ true)
        × (is_set E u.value ≡ true)
        × (is_set E w.class_id ≡ true)
        × (is_set E w.on_props_updated ≡ true)
  unfolding init_update
  init_update-true g h =
      let (u, found, h₁) = >>=-eq-ok (find_update_desc E (find_class _)) _ h in
      elim (if-cases (is_set E u.id && is_set E u.value) _ _ h₁) [
        | inl (t, e) ↦
            let (w, same, c, m) = init_wrapper-true (record g { update_desc = some u }) e in
            let (i, v) = &&-true (is_set E u.id) (is_set E u.value) t in
            (u, w, same, find_update_desc-class (find_class _) found, i, v, c, m)
        | inr (_, e) ↦ cc
      ]

  -- When JniGlue::Init succeeds, each field that the conversions read, the method that is called in
  -- Java, and the classes of updates and of the wrapper are found, and the message thread is
  -- started.
  pub init_glue-Ready : {g : Descs E} → init_glue E ≡ ok (true, g) → Ready g
  unfolding init_glue
  init_glue-Ready {g} h = elim (elim-cases (find_class _) _ _ h) [
    | inl (_, e) ↦ cc
    | inr (c, _, h₁) ↦
        let (p, found, h₂) = >>=-eq-ok (find_property_desc E c) _ h₁ in
        elim (if-cases (is_set E p.type && (is_set E p.name && is_set E p.value)) _ _ h₂) [
          | inl (t, e) ↦
              let (u, w, same, uc, i, v, wc, m) =
                init_update-true (record (no_descs E) { property_desc = some p }) e in
              let (pt, rest) = &&-true (is_set E p.type) (is_set E p.name && is_set E p.value) t in
              let (pn, pv) = &&-true (is_set E p.name) (is_set E p.value) rest in
              record {
                property_desc = p;
                property_found = ap (λ (d : Descs E). d.property_desc) same;
                type_found = pt;
                name_found = pn;
                value_found = pv;
                update_desc = u;
                update_found = ap (λ (d : Descs E). d.update_desc) same;
                update_class_found = uc;
                id_found = i;
                new_value_found = v;
                sacs_desc = w;
                sacs_found = ap (λ (d : Descs E). d.sacs_desc) same;
                wrapper_class_found = wc;
                on_props_updated_found = m;
                starts = ap (λ (d : Descs E). d.msg_thread) same;
              }
          | inr (_, e) ↦ cc
        ]
  ]

  -- Where the class of properties and its fields are found, the class of updates is not, and a
  -- global reference to null is null, JniGlue::Init looks up a method in a null class, in place of
  -- failing with `false`.
  init_glue-no_update_class :
      (c : Class) {p : PropertyDesc E}
      → find_class (codes "dbpotato/net/sacs/SacsWrapper$ModuleProperty") ≡ some c
      → find_property_desc E c ≡ ok p
      → is_set E p.type ≡ true
      → is_set E p.name ≡ true
      → is_set E p.value ≡ true
      → find_class (codes "dbpotato/net/sacs/SacsWrapper$ModulePropertyUpdate") ≡ none
      → new_global_ref none ≡ none
      → init_glue E ≡ throw null_deref
  unfolding init_glue init_update find_update_desc
  init_glue-no_update_class c a b t n v m r =
      rw (init_glue, a) (rw b (rw (init_update, t, n, v) (rw (find_update_desc, m) (rw r refl))))
