-- ===== src/JsonMsg/RoundTrip.antt =====
-- What a receiver reads from the messages that the program sends, and what re-addressing keeps.
use sacs.Prelude.{
  List, Text, arith, codes, ok, ok_subst, refl, some, sym, text_eq, true, ℤ, ◌∙◌, ◌≡◌,
}
use sacs.Json.{JsonLaws, JsonLib}
use sacs.JsonMsg.{
  JsonMsg, carries_properties, detect_type, find_id, get_properties_list, module_add, module_del,
  parse_msg, property_update, read_each, read_update, set_msg_id, to_module, to_string,
}
use sacs.JsonMsg.Build.{
  create_module_added, create_module_removed, create_property_updated, dump_json, update_to_json,
}
use sacs.JsonMsg.Modules.{module_to_json-read, reads_list, without_callback}
use sacs.JsonMsg.Objects.{
  set_key-Puts, update_to_json-read_update, value_to_int-of_int, value_to_string-of_text,
}
use sacs.Module.{Module}

module _ {J : JsonLib} (L : JsonLaws J) where
  open J use {Json, array, object, find, size, member, of_int, of_text, is_object, dump, parse}

  -- A message that names type `t`, module `id` and the updates `us`.
  pub record Carries (t : Text) (id : ℤ) (us : List (ℤ × Text)) (msg : JsonMsg J) : Type 0 where
    pub valid : msg.is_valid ≡ true
    pub kind : msg.type ≡ detect_type t
    pub is_obj : is_object msg.json ≡ true
    pub type_at : find msg.json (codes "type") ≡ some (of_text t)
    pub id_at : find msg.json (codes "id") ≡ some (of_int id)
    pub properties : Json
    pub properties_at : find msg.json (codes "properties") ≡ some properties
    pub reads : read_each J (read_update J) (size properties) 0 properties ≡ ok us

  -- Parsing what was dumped gives the same value back, with its type detected anew.
  pub parse_msg-dump :
      (j : Json) (s t : Text)
      → dump j ≡ some s
      → find j (codes "type") ≡ some (of_text t)
      → parse_msg J s ≡ ok (record { json = j; is_valid = true; type = detect_type t }, true)
  unfolding parse_msg
  parse_msg-dump j s t h e =
      rw (L.parse-dump j s h, parse_msg, value_to_string-of_text L j (codes "type") t e) refl

  pub dump_json-ok : (j : Json) (s : Text) → dump_json J j ≡ ok s → dump j ≡ some s
  unfolding dump_json
  dump_json-ok j s h = ground arith

  -- Where the announcement of a module can be dumped, a reader of it parses a message of the kind
  -- MODULE_ADD with the id of the module, and ToModule gives the same module without its callback.
  pub create_module_added-to_module :
      (m : Module) (s : Text)
      → create_module_added J m ≡ ok s
      → (msg : JsonMsg J) × (parse_msg J s ≡ ok (msg, true))
        × (msg.type ≡ module_add)
        × (find_id J msg ≡ ok m.id)
        × (to_module J msg ≡ ok (some (without_callback L m)))
  unfolding create_module_added detect_type find_id text_eq
  create_module_added-to_module m s h =
      let t = codes "module_added" in
      let (j₁, e₁, p₁) = set_key-Puts L object (codes "type") (of_text t) L.object-is_object in
      let (jm, e, id, back) = module_to_json-read L m in
      let (j₂, e₂, p₂) = set_key-Puts L j₁ (codes "module") jm p₁.stays_object in
      let dumped : dump_json J j₂ ≡ ok s = rw (e₁, e, e₂) at h in
      let msg : JsonMsg J = record { json = j₂; is_valid = true; type = module_add } in
      let at_module : find j₂ (codes "module") ≡ some jm = p₂.found (codes "module") in
      (
        msg,
        parse_msg-dump j₂ s t (dump_json-ok j₂ s dumped)
            (p₂.found (codes "type") ∙ p₁.found (codes "type")),
        refl,
        rw (at_module, find_id) id,
        back msg at_module,
      )

  -- Where the notice that a module is gone can be dumped, a reader of it parses a message of the
  -- kind MODULE_DEL with the id of that module.
  pub create_module_removed-find_id :
      (id : ℤ) (s : Text)
      → create_module_removed J id ≡ ok s
      → (msg : JsonMsg J) × (parse_msg J s ≡ ok (msg, true))
        × (msg.type ≡ module_del)
        × (find_id J msg ≡ ok id)
  unfolding create_module_removed detect_type find_id text_eq
  create_module_removed-find_id id s h =
      let t = codes "module_removed" in
      let (j₁, e₁, p₁) = set_key-Puts L object (codes "type") (of_text t) L.object-is_object in
      let (j₂, e₂, p₂) = set_key-Puts L j₁ (codes "id") (of_int id) p₁.stays_object in
      let dumped : dump_json J j₂ ≡ ok s = rw (e₁, e₂) at h in
      (
        record { json = j₂; is_valid = true; type = module_del },
        parse_msg-dump j₂ s t (dump_json-ok j₂ s dumped)
            (p₂.found (codes "type") ∙ p₁.found (codes "type")),
        refl,
        value_to_int-of_int L j₂ (codes "id") id (p₂.found (codes "id")),
      )

  -- Where the message with updates can be dumped, a reader of it parses a message that carries the
  -- id of the module and the updates, in their order.
  pub create_property_updated-Carries :
      (id : ℤ) (us : List (ℤ × Text)) (s : Text)
      → create_property_updated J id us ≡ ok s
      → (msg : JsonMsg J) × (parse_msg J s ≡ ok (msg, true))
        × Carries (codes "property_update") id us msg
  unfolding create_property_updated detect_type text_eq
  create_property_updated-Carries id us s h =
      let t = codes "property_update" in
      let (j₁, e₁, p₁) = set_key-Puts L object (codes "type") (of_text t) L.object-is_object in
      let (j₂, e₂, p₂) = set_key-Puts L j₁ (codes "id") (of_int id) p₁.stays_object in
      let (a, made, reads) =
        reads_list L (update_to_json J) (read_update J) (update_to_json-read_update L) us in
      let (j₃, e₃, p₃) = set_key-Puts L j₂ (codes "properties") a p₂.stays_object in
      let dumped : dump_json J j₃ ≡ ok s = rw (e₁, e₂, made, e₃) at h in
      let typed : find j₃ (codes "type") ≡ some (of_text t) =
        p₃.found (codes "type") ∙ p₂.found (codes "type") ∙ p₁.found (codes "type") in
      (
        record { json = j₃; is_valid = true; type = property_update },
        parse_msg-dump j₃ s t (dump_json-ok j₃ s dumped) typed,
        record {
          valid = refl;
          kind = refl;
          is_obj = p₃.stays_object;
          type_at = typed;
          id_at = p₃.found (codes "id") ∙ p₂.found (codes "id");
          properties = a;
          properties_at = p₃.found (codes "properties");
          reads = reads;
        },
      )

  module _ {t : Text} {id : ℤ} {us : List (ℤ × Text)} {msg : JsonMsg J}
      (c : Carries t id us msg) where
    -- SetId on a message that carries updates does not throw, and leaves a message of the same type
    -- that carries the same updates under the new id.
    pub set_msg_id-Carries :
        (n : ℤ) → (msg' : JsonMsg J) × (set_msg_id J msg n ≡ ok msg') × Carries t n us msg'
    unfolding set_msg_id text_eq
    set_msg_id-Carries n =
        let (j, p) = L.put_lem msg.json (codes "id") (of_int n) c.is_obj in
        (
          record msg { json = j },
          rw p.made refl,
          record {
            valid = c.valid;
            kind = c.kind;
            is_obj = p.stays_object;
            type_at = p.found (codes "type") ∙ c.type_at;
            id_at = p.found (codes "id");
            properties = c.properties;
            properties_at = p.found (codes "properties") ∙ c.properties_at;
            reads = c.reads;
          },
        )

    pub set_msg_id-Carries_ok :
        (n : ℤ) {msg' : JsonMsg J} → set_msg_id J msg n ≡ ok msg' → Carries t n us msg'
    set_msg_id-Carries_ok n h =
        let (x, made, c') = set_msg_id-Carries n in ok_subst (Carries t n us) (sym made ∙ h) c'

    pub get_properties_list-Carries :
        carries_properties J (detect_type t) ≡ true → get_properties_list J msg ≡ ok (msg, us)
    unfolding get_properties_list
    get_properties_list-Carries h =
        rw
          (
            c.kind,
            h,
            L.member-found msg.json (codes "properties") c.properties c.is_obj c.properties_at,
            c.reads,
          )
          refl

    pub find_id-Carries : carries_properties J (detect_type t) ≡ true → find_id J msg ≡ ok id
    unfolding find_id
    find_id-Carries h =
        let read = value_to_int-of_int L msg.json (codes "id") id c.id_at in
        ground (arith, read, c.kind)

    -- What ToString sends is parsed back as the message itself.
    pub parse_msg-to_string : (s : Text) → to_string J msg ≡ ok s → parse_msg J s ≡ ok (msg, true)
    unfolding to_string
    parse_msg-to_string s h =
        let dumped : dump msg.json ≡ some s = ground (arith, c.valid) in
        parse_msg-dump msg.json s t dumped c.type_at ∙ ground (arith, c.valid, c.kind)
