-- ===== src/ServerImpl/Listeners.antt =====
-- What a message for the web pages does to the listeners, and to whom it goes.
use sacs.Prelude.{List, Text, [], arith, if◌then◌else◌, refl, some, ℕ, ◌++◌, ◌∷◌, ◌≡◌}
use sacs.Maps.{Map}
use sacs.Json.{JsonLib}
use sacs.ServerImpl.{push_each_listener, push_to_pages}
use sacs.State.{Event, Net, World, ws_sent}

-- The listeners that are still there, in order.
abbrev pub living : Net → Map ℕ → Map ℕ
living net [] = []
living net ((id, client) ∷ rest) =
    if net.alive client then (id, client) ∷ living net rest else living net rest

pub living-living : (net : Net) (l : Map ℕ) → living net (living net l) ≡ living net l
living-living net [] = refl
living-living net ((id, client) ∷ rest) = ground (arith, living-living net rest)

-- One copy of a message for each of a list of listeners.
abbrev pub copies : Text → Map ℕ → List Event
copies msg [] = []
copies msg ((id, client) ∷ rest) = ws_sent client msg ∷ copies msg rest

push_each_listener_lem :
    (net : Net) (msg : Text) (listeners : Map ℕ)
    → push_each_listener net msg listeners
      ≡ (living net listeners, copies msg (living net listeners))
unfolding push_each_listener
push_each_listener_lem net msg [] = refl
push_each_listener_lem net msg ((id, client) ∷ rest) =
    ground (arith, push_each_listener_lem net msg rest)

module _ {J : JsonLib} where
  -- A message goes once to each listener that is still there, in the order of their ids, and the
  -- others are forgotten. Nothing else changes.
  pub push_to_pages_lem :
      (msg : Text) (listeners : Map ℕ) (w : World J)
      → push_to_pages msg listeners w ≡ record w {
        server_impl = some (living w.net listeners);
        events = w.events ++ copies msg (living w.net listeners);
      }
  unfolding push_to_pages
  push_to_pages_lem msg listeners w = rw (push_each_listener_lem w.net msg listeners) refl
