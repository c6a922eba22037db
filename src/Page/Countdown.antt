-- ===== src/Page/Countdown.antt =====
-- The countdown of the page, whatever the user does meanwhile.
use sacs.Prelude.{
  List, Option-cases, [], ap, arith, if◌then◌else◌, inl, inr, leb, refl, some, suc, true, zero, ℕ,
  ◌+◌, ◌∙◌, ◌∷◌, ◌≡◌,
}
use sacs.Page.Reconnection.{
  Act, OneTimer, ReconnectInfo, act, act_each, clear_timeout, clicks, clicks_in, count_on, disable,
  enable, on_clicked, relese_timeout, tick, ticks, ticks_in, update_reconnection_counter,
}

clear_only : (h n : ℕ) → clear_timeout h ((h, n) ∷ []) ≡ []
unfolding clear_timeout
clear_only h n = ground arith

relese_timeout-timers : (r : ReconnectInfo) → OneTimer r → (relese_timeout r).timers ≡ []
unfolding relese_timeout clear_timeout
relese_timeout-timers r (inl e) = elim (Option-cases r.reconnect_timeout) [
  | inl t ↦ rw t e
  | inr (h, t) ↦ rw (t, e) refl
]
relese_timeout-timers r (inr (h, n, e, t)) = rw (t, e) (clear_only h n)

relese_timeout-sockets : (r : ReconnectInfo) → (relese_timeout r).sockets ≡ r.sockets
unfolding relese_timeout
relese_timeout-sockets r = elim (Option-cases r.reconnect_timeout) [
  | inl t ↦ rw t refl
  | inr (h, t) ↦ rw t refl
]

-- One timer runs, and counts on at `n`.
abbrev Counting : ℕ → ReconnectInfo → Type 0
Counting n r = (h : ℕ) × (r.timers ≡ (h, n) ∷ []) × (r.reconnect_timeout ≡ some h)

update_reconnection_counter-suc :
    (n : ℕ) (r : ReconnectInfo)
    → OneTimer r
    → Counting n (update_reconnection_counter (suc n) r)
      × ((update_reconnection_counter (suc n) r).sockets ≡ r.sockets)
unfolding update_reconnection_counter count_on
update_reconnection_counter-suc n r o = (
  ((relese_timeout r).next_timer, rw (relese_timeout-timers r o) refl, refl),
  relese_timeout-sockets r,
)

update_reconnection_counter-zero :
    (r : ReconnectInfo)
    → OneTimer r
    → ((update_reconnection_counter 0 r).timers ≡ [])
      × ((update_reconnection_counter 0 r).sockets ≡ suc r.sockets)
unfolding update_reconnection_counter count_on
update_reconnection_counter-zero r o =
    (relese_timeout-timers r o, ap suc (relese_timeout-sockets r))

tick-first :
    (h n : ℕ) (r : ReconnectInfo)
    → r.timers ≡ (h, n) ∷ []
    → tick r ≡ update_reconnection_counter n (record r { timers = [] })
unfolding tick
tick-first h n r e = rw e refl

tick-none : (r : ReconnectInfo) → r.timers ≡ [] → tick r ≡ r
unfolding tick
tick-none r e = rw e refl

act_each-idle :
    (acts : List Act) (r : ReconnectInfo)
    → r.timers ≡ []
    → ((act_each acts r).timers ≡ []) × ((act_each acts r).sockets ≡ r.sockets + clicks_in acts)
unfolding act_each act on_clicked
act_each-idle [] r e = (e, omega arith)
act_each-idle (ticks ∷ acts) r e = rw (act_each, tick-none r e) (act_each-idle acts r e)
act_each-idle (clicks ∷ acts) r e =
    let (t, s) = act_each-idle acts (on_clicked r) e in (t, omega (arith, s))

abbrev ran_out : ℕ → ℕ → ℕ
ran_out n ticked = if leb (suc n) ticked then 1 else 0

act_each-Counting :
    (acts : List Act) (n : ℕ) (r : ReconnectInfo)
    → Counting n r
    → OneTimer (act_each acts r)
      × ((act_each acts r).sockets ≡ r.sockets + clicks_in acts + ran_out n (ticks_in acts))
unfolding act_each act on_clicked
act_each-Counting [] n r (h, e, t) = (inr (h, n, e, t), ground arith)
act_each-Counting (clicks ∷ acts) n r c =
    let (o, s) = act_each-Counting acts n (on_clicked r) c in (o, omega (arith, s))
act_each-Counting (ticks ∷ acts) zero r (h, e, t) =
    let r₁ = record r { timers = [] } in
    let (e₁, s₁) = update_reconnection_counter-zero r₁ (inl refl) in
    let (e₂, s₂) = act_each-idle acts (update_reconnection_counter 0 r₁) e₁ in
    rw (act_each, tick-first h 0 r e) (inl e₂, ground (arith, s₁, s₂))
act_each-Counting (ticks ∷ acts) (suc n) r (h, e, t) =
    let r₁ = record r { timers = [] } in
    let (c₁, s₁) = update_reconnection_counter-suc n r₁ (inl refl) in
    let (o, s₂) = act_each-Counting acts n (update_reconnection_counter (suc n) r₁) c₁ in
    rw (act_each, tick-first h (suc n) r e) (o, ground (arith, s₁, s₂))

-- A connection goes while one timer runs at most, which the page would stop. Whatever the order in
-- which timers run out and the user clicks on the button from there: no more than one timer runs,
-- and it is one that the page would stop; each click has made a socket, and the tenth time that a
-- timer runs out has made one more, however many clicks there were; and if a connection opens then,
-- no timer is left.
pub countdown_reconnects :
    (acts : List Act) (r : ReconnectInfo)
    → OneTimer r
    → OneTimer (act_each acts (enable r))
      × ((act_each acts (enable r)).sockets
          ≡ r.sockets + clicks_in acts + (if leb 10 (ticks_in acts) then 1 else 0))
      × ((disable (act_each acts (enable r))).timers ≡ [])
unfolding enable disable
countdown_reconnects acts r o =
    let (c, s) = update_reconnection_counter-suc 9 (record r { is_shown = true }) o in
    let (o', s') = act_each-Counting acts 9 (enable r) c in
    (o', s' ∙ rw s refl, relese_timeout-timers (act_each acts (enable r)) o')
