-- ===== src/Page/Reconnection.antt =====
-- webapp/reconnect.info.js, and what messenger.js and web.app.js do with it: the countdown behind a
-- connection that has gone. The timers are the browser's.
use sacs.Prelude.{
  Bool, List, Option, [], false, if◌then◌else◌, none, some, suc, true, zero, ℕ, ◌++◌, ◌+◌, ◌==◌,
  ◌∷◌, ◌≡◌, ◌⊎◌,
}

pub record ReconnectInfo : Type 0 where
  -- The handles of setTimeout
  pub next_timer : ℕ
  -- The timers that run: the handle, and the counter that the function of the timer has
  pub timers : List (ℕ × ℕ)
  pub reconnect_timeout : Option ℕ
  pub is_shown : Bool
  -- How many sockets Messenger.createWs has made
  pub sockets : ℕ

-- The page behind WebApp.init
abbrev pub new_info : ReconnectInfo
new_info = record {
  next_timer = 0;
  timers = [];
  reconnect_timeout = none;
  is_shown = false;
  sockets = 1;
}

-- Messenger.createWs
abbrev pub create_ws : ReconnectInfo → ReconnectInfo
create_ws r = record r { sockets = suc r.sockets }

-- clearTimeout
unfoldable pub clear_timeout : ℕ → List (ℕ × ℕ) → List (ℕ × ℕ)
clear_timeout h [] = []
clear_timeout h ((i, n) ∷ ts) =
    let rest = clear_timeout h ts in if i == h then rest else (i, n) ∷ rest

-- ReconnectInfo.releseTimeout
unfoldable pub relese_timeout : ReconnectInfo → ReconnectInfo
unfolding clear_timeout
relese_timeout r = elim r.reconnect_timeout [
  | none ↦ r
  | some h ↦ record r { timers = clear_timeout h r.timers; reconnect_timeout = none }
]

-- The end of ReconnectInfo.updateReconnectionCounter
unfoldable pub count_on : ℕ → ReconnectInfo → ReconnectInfo
count_on zero r = create_ws r
count_on (suc n) r = record r {
  next_timer = suc r.next_timer;
  timers = r.timers ++ (r.next_timer, n) ∷ [];
  reconnect_timeout = some r.next_timer;
}

-- ReconnectInfo.updateReconnectionCounter
unfoldable pub update_reconnection_counter : ℕ → ReconnectInfo → ReconnectInfo
unfolding relese_timeout count_on
update_reconnection_counter counter r = count_on counter (relese_timeout r)

-- ReconnectInfo.enable, where a socket closes
unfoldable pub enable : ReconnectInfo → ReconnectInfo
unfolding update_reconnection_counter
enable r = update_reconnection_counter 10 (record r { is_shown = true })

-- ReconnectInfo.disable, where a socket opens
unfoldable pub disable : ReconnectInfo → ReconnectInfo
unfolding relese_timeout
disable r = record (relese_timeout r) { is_shown = false }

-- The first timer runs out, if one runs.
unfoldable pub tick : ReconnectInfo → ReconnectInfo
unfolding update_reconnection_counter
tick r = elim r.timers [
  | [] ↦ r
  | (h, n) ∷ ts ↦ update_reconnection_counter n (record r { timers = ts })
]

-- ReconnectInfo.onClicked
unfoldable pub on_clicked : ReconnectInfo → ReconnectInfo
on_clicked r = create_ws r

-- What happens to a page that counts down.
pub data Act : Type 0 where
  ticks clicks : Act

unfoldable pub act : Act → ReconnectInfo → ReconnectInfo
unfolding tick on_clicked
act ticks r = tick r
act clicks r = on_clicked r

unfoldable pub act_each : List Act → ReconnectInfo → ReconnectInfo
unfolding act
act_each [] r = r
act_each (a ∷ acts) r = act_each acts (act a r)

abbrev pub ticks_in : List Act → ℕ
ticks_in [] = 0
ticks_in (ticks ∷ acts) = ticks_in acts + 1
ticks_in (clicks ∷ acts) = ticks_in acts

abbrev pub clicks_in : List Act → ℕ
clicks_in [] = 0
clicks_in (ticks ∷ acts) = clicks_in acts
clicks_in (clicks ∷ acts) = clicks_in acts + 1

-- No timer runs, or one that relese_timeout would stop.
abbrev pub OneTimer : ReconnectInfo → Type 0
OneTimer r =
    (r.timers ≡ [])
    ⊎ ((h : ℕ) × (n : ℕ) × (r.timers ≡ (h, n) ∷ []) × (r.reconnect_timeout ≡ some h))
