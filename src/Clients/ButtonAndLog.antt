-- ===== src/Clients/ButtonAndLog.antt =====
-- examples/ButtonAndLog.cpp: a button that adds lines to a log, and a switch that changes them.
use Prim.Native.Nat.{◌%◌}
use sacs.Wrapper.{log, button, button_sw}
use sacs.Prelude.{
  >>=-assoc, Bool, Bool-cases, List, Option, Result, Text, [], arith, codes, false, if◌then◌else◌,
  inl, inr, int_overflow, ltb, negsuc, ok, pos, refl, some, suc, throw, true, zero, ℕ, ℤ, ◌++◌, ◌<◌,
  ◌==ℤ◌, ◌==◌, ◌>>=◌, ◌∷◌, ◌≡◌,
}
use sacs.Clients.{Callback, answer, property}
use sacs.Clients.Decimal.{until_nul-digits, atoi, decimal, show_int}
use sacs.Json.{JsonLib}
use sacs.ModuleManager.{call_back, int_max}
use sacs.SacsLib.{c_str, read_array}
use sacs.State.{Task, World}
use sacs.Wrapper.{no_lib_update_properties, wrapper_register_module, wrapper_update_properties}
use sacs.Jni.Java.Properties.{c_str-c_buffer}
use sacs.Wrapper.Marshalling.{until_nul, wrapper_update_properties-no_lib}

-- ++g_counter
abbrev pub increment : ℕ → Result ℕ
increment n = if ltb n int_max then ok (suc n) else throw int_overflow

abbrev pub entry : ℕ → ℤ → Text
entry counter enabled =
    (if enabled ==ℤ pos 0 then codes "Disabled" else codes "Enabled")
    ++ codes " : "
    ++ decimal counter

module _ (J : JsonLib) where
  -- g_counter, g_enabled and the wrapper
  pub record ButtonState : Type 0 where
    pub counter : ℕ
    pub enabled : ℤ
    pub g_mgr : Option (World J)

module _ {J : JsonLib} where
  module _ (is_valid : Bool) where
    -- The case of the button. After six rounds the text is empty.
    unfoldable pub add_entry : ℤ → ButtonState J → Result (ButtonState J)
    unfolding wrapper_update_properties
    add_entry module_id s = do
      n ← increment s.counter
      let again = n % 6 == 0
      let line = if again then [] else entry n s.enabled
      g ← wrapper_update_properties is_valid module_id ((pos 0, line) ∷ []) s.g_mgr
      ok (record s { counter = if again then 0 else n; g_mgr = g })

    unfoldable pub button_callback : Callback (ButtonState J)
    unfolding add_entry read_array c_str atoi
    button_callback module_id count property_no property_val s =
        if count == 1
        then (do
          index ← read_array property_no 0
          if index ==ℤ pos 1
              then add_entry module_id s
              else if index ==ℤ pos 2
              then (do
                value_ptr ← read_array property_val 0
                value ← c_str value_ptr
                n ← atoi value
                ok (record s { enabled = n }))
              else ok s)
        else ok s

    -- main, up to the endless loop. `callback` stands for the function above.
    unfoldable pub button_main : List (Task J) → ℕ → ButtonState J → Result (ℤ × ButtonState J)
    unfolding wrapper_register_module show_int
    button_main meanwhile callback s = do
      (id, g) ←
          wrapper_register_module meanwhile is_valid (codes "Button and Log")
            (property log "Log" []
              ∷ property button "Add Entry" []
              ∷ property button_sw "Enabled" (show_int s.enabled)
              ∷ [])
            (some callback) s.g_mgr
      ok (id, record s { g_mgr = g })

-- The line of the log for the press after `counter` others
abbrev pub line : ℕ → ℤ → Text
line counter (pos zero) =
    if suc counter % 6 == 0 then [] else codes "Disabled : " ++ decimal (suc counter)
line counter _ = if suc counter % 6 == 0 then [] else codes "Enabled : " ++ decimal (suc counter)

line-entry :
    (n : ℕ) (enabled : ℤ) → (if suc n % 6 == 0 then [] else entry (suc n) enabled) ≡ line n enabled
line-entry n (pos zero) = refl
line-entry n (pos (suc k)) = let on : (pos (suc k) ==ℤ pos 0) ≡ false = ground arith in rw on refl
line-entry n (negsuc k) = refl

until_nul-entry : (n : ℕ) (enabled : ℤ) → until_nul (entry n enabled) ≡ entry n enabled
unfolding until_nul
until_nul-entry n enabled = elim (Bool-cases (enabled ==ℤ pos 0)) [
  | inl e ↦ rw (e, until_nul-digits (suc n) n []) refl
  | inr e ↦ rw (e, until_nul-digits (suc n) n []) refl
]

until_nul-line :
    (n : ℕ) (enabled : ℤ)
    → until_nul (if suc n % 6 == 0 then [] else entry (suc n) enabled) ≡ line n enabled
unfolding until_nul
until_nul-line n enabled = elim (Bool-cases (suc n % 6 == 0)) [
  | inl e ↦ rw (← line-entry n enabled, e) refl
  | inr e ↦ rw (← line-entry n enabled, e, until_nul-entry (suc n) enabled) refl
]

next_counter : (k : ℕ) → k < 6 → (if suc k % 6 == 0 then 0 else suc k) ≡ suc k % 6
next_counter k h = ground arith

module _ {J : JsonLib} where
  -- What the example does with the updates of its module.
  abbrev pub button_round : ℤ → List (ℤ × Text) → ℕ → ℤ → World J → Result (ButtonState J)
  button_round module_id ((i, value) ∷ []) k enabled w =
      if i ==ℤ pos 1
      then (do
        w' ← no_lib_update_properties module_id ((pos 0, line k enabled) ∷ []) w
        ok (record { counter = suc k % 6; enabled = enabled; g_mgr = some w' }))
      else if i ==ℤ pos 2
      then (do n ← atoi (until_nul value); ok (record { counter = k; enabled = n; g_mgr = some w }))
      else ok (record { counter = k; enabled = enabled; g_mgr = some w })
  button_round module_id _ k enabled w =
      ok (record { counter = k; enabled = enabled; g_mgr = some w })

  add_entry-no_lib :
      (module_id : ℤ) (k : ℕ) (enabled : ℤ) (w : World J)
      → k < 6
      → add_entry true module_id (record { counter = k; enabled = enabled; g_mgr = some w }) ≡ (do
        w' ← no_lib_update_properties module_id ((pos 0, line k enabled) ∷ []) w
        ok (record { counter = suc k % 6; enabled = enabled; g_mgr = some w' }))
  unfolding add_entry
  add_entry-no_lib module_id k enabled w h =
      let room : ltb k int_max ≡ true = ground arith in
      let sent =
        wrapper_update_properties-no_lib module_id
          ((pos 0, if suc k % 6 == 0 then [] else entry (suc k) enabled) ∷ []) w in
      rw (room, sent, until_nul-line k enabled, next_counter k h)
        (>>=-assoc (no_lib_update_properties module_id ((pos 0, line k enabled) ∷ []) w) _ _)

  -- With its counter below 6 the callback of ButtonAndLog never overflows the counter: a single
  -- update of property 1 counts on modulo 6, so that the counter stays below 6, and logs `Disabled
  -- : ` where the switch is 0, or else `Enabled : `, and the counter, or an empty text when it
  -- comes to 0; one of property 2 sets the switch to the number that atoi reads in the value up to
  -- its first NUL; and other updates change nothing.
  pub button_callback-button_round :
      (f : ℕ) (module_id : ℤ) (us : List (ℤ × Text)) (k : ℕ) (enabled : ℤ) (w : World J)
      → k < 6
      → answer
          (button_callback true)
          (call_back f module_id us)
          (record { counter = k; enabled = enabled; g_mgr = some w })
        ≡ button_round module_id us k enabled w
  unfolding button_callback add_entry call_back read_array
  button_callback-button_round f module_id [] k enabled w h = refl
  button_callback-button_round f module_id ((i, value) ∷ []) k enabled w h =
      elim (Bool-cases (i ==ℤ pos 1)) [
        | inl e ↦ rw (e, add_entry-no_lib module_id k enabled w h) refl
        | inr e ↦ elim (Bool-cases (i ==ℤ pos 2)) [
          | inl e₂ ↦ rw (e, e₂, c_str-c_buffer value) refl
          | inr e₂ ↦ rw (e, e₂) refl
        ]
      ]
  button_callback-button_round f module_id (u ∷ v ∷ us) k enabled w h = ground arith
