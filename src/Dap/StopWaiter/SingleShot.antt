-- ===== src/Dap/StopWaiter/SingleShot.antt =====
-- A registration gets the first outcome that is produced behind it, and no other.
use debug_mcp.Prelude.{ℤ, ◌≡◌, refl, ap, ◌∙◌, Option, none, some, List, [], ◌∷◌, ◌++◌}
use debug_mcp.Core.Types.{StopOutcome}
use debug_mcp.Dap.Wire.{StoppedEvent}
use debug_mcp.Dap.StopWaiter.{
  StopWaiter, Ticket, register, send, send_to, deliver, deliver_exit, cancel, stop_info_from_event,
}

-- The producers, and the outcome that each stands for.
pub data Producer : Type 0 where
  delivers : StoppedEvent → Producer
  exits : ℤ → Producer
  cancels : Producer

abbrev pub outcome_of : Producer → StopOutcome
outcome_of (delivers event) = StopOutcome.stopped (stop_info_from_event event)
outcome_of (exits code) = StopOutcome.exited (some code)
outcome_of cancels = StopOutcome.terminated

unfoldable pub produce : Producer → StopWaiter → StopWaiter
unfolding deliver deliver_exit cancel
produce (delivers event) w = deliver event w
produce (exits code) w = deliver_exit code w
produce cancels w = cancel w

unfoldable pub produce_all : List Producer → StopWaiter → StopWaiter
unfolding produce
produce_all [] w = w
produce_all (p ∷ ps) w = produce_all ps (produce p w)

produce-send : (p : Producer) (w : StopWaiter) → produce p w ≡ send (outcome_of p) w
unfolding produce deliver deliver_exit cancel
produce-send (delivers event) w = refl
produce-send (exits code) w = refl
produce-send cancels w = refl

produce-idle : (p : Producer) (w : StopWaiter) → w.slot ≡ none → produce p w ≡ w
unfolding send
produce-idle p w e = produce-send p w ∙ ap (λ s. send_to s (outcome_of p) w) e

-- With no registration the producers do nothing.
produce_all-idle : (ps : List Producer) (w : StopWaiter) → w.slot ≡ none → produce_all ps w ≡ w
unfolding produce_all
produce_all-idle [] w e = refl
produce_all-idle (p ∷ ps) w e = ap (produce_all ps) (produce-idle p w e) ∙ produce_all-idle ps w e

send_to-slot :
    (o : Option Ticket) (outcome : StopOutcome) (w : StopWaiter)
    → w.slot ≡ o
    → (send_to o outcome w).slot ≡ none
unfolding send_to
send_to-slot none outcome w e = e
send_to-slot (some t) outcome w e = refl

-- A producer leaves the slot empty.
pub send-slot : (outcome : StopOutcome) (w : StopWaiter) → (send outcome w).slot ≡ none
unfolding send
send-slot outcome w = send_to-slot w.slot outcome w refl

-- Behind a registration with the receiver `t`, the first producer sends its outcome to `t`, and all
-- later ones send nothing; before it the slot is taken by `t`.
pub register-produce_all :
    (p : Producer) (ps : List Producer) (w : StopWaiter)
    → ((produce_all (p ∷ ps) (register w).1).sent ≡ w.sent ++ ((register w).0, outcome_of p) ∷ [])
      × ((produce_all (p ∷ ps) (register w).1).slot ≡ none)
      × ((register w).1.slot ≡ some (register w).0)
unfolding produce_all register send
register-produce_all p ps w =
    let first = ap (produce_all ps) (produce-send p (register w).1) ∙ produce_all-idle ps _ refl in
    (ap (λ (x : StopWaiter). x.sent) first, ap (λ (x : StopWaiter). x.slot) first, refl)
