-- ===== src/Windbg/Thread/Served.antt =====
-- What the callers of the engine's thread get.
use debug_mcp.Prelude.{
  String, Bool, false, Result, Option, none, some, List, [], ◌∷◌, ◌++◌, ◌≡◌, refl, ap, ◌∙◌, arith,
  eqb, nat_eq,
}
use debug_mcp.Prelude.Maps
use debug_mcp.Windbg.Engine.{EngineOps}
use debug_mcp.Windbg.Thread.{
  EngineCmd, launch, attach_pid, detach, go, step, break_in, set_breakpoint, remove_breakpoint,
  list_breakpoints, threads, stack_trace, locals, evaluate, read_memory, disassemble, execute,
  modules, current_source_location, open_dump, attach_kernel, analyze, set_output_sink, Ticket,
  Answer, Reply, dispatch, continued, command_loop,
}

-- The receiver of a command.
abbrev pub ticket_of : EngineCmd → Option Ticket
ticket_of (launch req t) = some t
ticket_of (attach_pid pid t) = some t
ticket_of (detach terminate t) = some t
ticket_of (go timeout t) = some t
ticket_of (step kind t) = some t
ticket_of (break_in t) = some t
ticket_of (set_breakpoint loc condition t) = some t
ticket_of (remove_breakpoint id t) = some t
ticket_of (list_breakpoints t) = some t
ticket_of (threads t) = some t
ticket_of (stack_trace thread max t) = some t
ticket_of (locals frame t) = some t
ticket_of (evaluate expr t) = some t
ticket_of (read_memory address size t) = some t
ticket_of (disassemble address count t) = some t
ticket_of (execute command t) = some t
ticket_of (modules t) = some t
ticket_of (current_source_location t) = some t
ticket_of (open_dump path t) = some t
ticket_of (attach_kernel connection t) = some t
ticket_of (analyze t) = some t
ticket_of set_output_sink = none

abbrev is_ticket : Ticket → Option Ticket → Bool
is_ticket t none = false
is_ticket t (some u) = eqb u t

-- None of the commands has the receiver.
abbrev pub Foreign : Ticket → List EngineCmd → Type 0
Foreign t [] = Unit {0}
Foreign t (cmd ∷ cmds) = (is_ticket t (ticket_of cmd) ≡ false) × Foreign t cmds

module _ {S : Type 0} (ops : EngineOps S) where
  -- The answer as it is sent, with the engine behind it.
  abbrev sent :
      {A : Type 0} → (Result String A → Answer) → Option (Result String A × S) → Option (Answer × S)
  sent answer none = none
  sent answer (some (r, s)) = some (answer r, s)

  -- What each command asks of the engine, as its caller means it: the operation, its arguments and
  -- the type of its answer.
  abbrev pub meant : EngineCmd → S → Option (Answer × S)
  meant (launch req t) s = sent Answer.of_stop (ops.launch req s)
  meant (attach_pid pid t) s = sent Answer.of_stop (ops.attach_pid pid s)
  meant (detach terminate t) s = sent Answer.of_done (ops.detach terminate s)
  meant (go timeout t) s = sent Answer.of_run (ops.go timeout s)
  meant (step kind t) s = sent Answer.of_stop (ops.step kind s)
  meant (break_in t) s = sent Answer.of_stop (ops.break_in s)
  meant (set_breakpoint loc condition t) s =
      sent Answer.of_breakpoint (ops.set_breakpoint loc condition s)
  meant (remove_breakpoint id t) s = sent Answer.of_done (ops.remove_breakpoint id s)
  meant (list_breakpoints t) s = sent Answer.of_breakpoints (ops.list_breakpoints s)
  meant (threads t) s = sent Answer.of_threads (ops.threads s)
  meant (stack_trace thread max t) s = sent Answer.of_frames (ops.stack_trace thread max s)
  meant (locals frame t) s = sent Answer.of_locals (ops.locals frame s)
  meant (evaluate expr t) s = sent Answer.of_value (ops.evaluate expr s)
  meant (read_memory address size t) s = sent Answer.of_memory (ops.read_memory address size s)
  meant (disassemble address count t) s =
      sent Answer.of_instructions (ops.disassemble address count s)
  meant (execute command t) s = sent Answer.of_text (ops.execute command s)
  meant (modules t) s = sent Answer.of_modules (ops.modules s)
  meant (current_source_location t) s = sent Answer.of_place (ops.current_source_location s)
  meant (open_dump path t) s = sent Answer.of_dump (ops.open_dump path s)
  meant (attach_kernel connection t) s = sent Answer.of_stop (ops.attach_kernel connection s)
  meant (analyze t) s = sent Answer.of_text (ops.analyze s)
  meant set_output_sink s = none

  -- The engine that a command leaves: a sink is installed without an answer.
  abbrev engine_of : Option (Answer × S) → Option S
  engine_of none = none
  engine_of (some (a, s)) = some s

  abbrev pub moved : EngineCmd → S → Option S
  moved cmd s = elim (ticket_of cmd) [
    | none ↦ some (ops.set_output_sink s)
    | some t ↦ engine_of (meant cmd s)
  ]

  abbrev then_left : Option S → (S → Option S) → Option S
  then_left none rest = none
  then_left (some s) rest = rest s

  -- The engine behind some commands, where none of them panicked.
  abbrev pub left : List EngineCmd → S → Option S
  left [] s = some s
  left (cmd ∷ cmds) s = then_left (moved cmd s) (left cmds)

  abbrev answer_in : Option (Answer × S) → Option Answer
  answer_in none = none
  answer_in (some (a, s)) = some a

  -- The answer of a command that an engine is given.
  abbrev pub answer_on : EngineCmd → Option S → Option Answer
  answer_on cmd none = none
  answer_on cmd (some s) = answer_in (meant cmd s)

  abbrev first_answer : Option (List Reply × S) → Option Answer
  first_answer none = none
  first_answer (some ([], s)) = none
  first_answer (some ((t, a) ∷ rs, s)) = some a

  abbrev behind : Option (List Reply × S) → Option S
  behind none = none
  behind (some (rs, s)) = some s

  dispatch-moved : (cmd : EngineCmd) (s : S) → behind (dispatch ops cmd s) ≡ moved cmd s
  unfolding dispatch
  dispatch-moved cmd s = ground arith

  dispatch-answer :
      (t : Ticket) (cmd : EngineCmd) (s : S)
      → ticket_of cmd ≡ some t
      → first_answer (dispatch ops cmd s) ≡ answer_in (meant cmd s)
  unfolding dispatch
  dispatch-answer t cmd s h = ground (arith, h)

  -- What a reply list says of a receiver that a command does not have.
  abbrev Silent : Ticket → Option (List Reply × S) → Type 0
  Silent t none = Unit {0}
  Silent t (some (rs, s)) = Maps.get t rs ≡ none

  abbrev Spoken : Ticket → Option (List Reply × S) → Type 0
  Spoken t none = Unit {0}
  Spoken t (some (rs, s)) = Maps.get t rs ≡ first_answer (some (rs, s))

  dispatch-Silent :
      (t : Ticket) (cmd : EngineCmd) (s : S)
      → is_ticket t (ticket_of cmd) ≡ false
      → Silent t (dispatch ops cmd s)
  unfolding dispatch Maps.get
  dispatch-Silent t cmd s h = ground (arith, h)

  dispatch-Spoken :
      (t : Ticket) (cmd : EngineCmd) (s : S)
      → ticket_of cmd ≡ some t
      → Spoken t (dispatch ops cmd s)
  unfolding dispatch Maps.get
  dispatch-Spoken t cmd s h = ground (arith, h)

  get-append :
      (t : Ticket) (xs ys : List Reply)
      → Maps.get t xs ≡ none
      → Maps.get t (xs ++ ys) ≡ Maps.get t ys
  unfolding Maps.get
  get-append t [] ys h = refl
  get-append t ((u, a) ∷ xs) ys h = ground (arith, h, get-append t xs ys)

  append-get :
      (t : Ticket) (xs ys : List Reply)
      → Maps.get t ys ≡ none
      → Maps.get t (xs ++ ys) ≡ Maps.get t xs
  unfolding Maps.get
  append-get t [] ys h = h
  append-get t ((u, a) ∷ xs) ys h = ground (arith, append-get t xs ys h)

  continued-Silent :
      (t : Ticket) (o : Option (List Reply × S)) (rest : S → List Reply × Option S)
      → Silent t o
      → ((s : S) → Maps.get t (rest s).0 ≡ none)
      → Maps.get t (continued o rest).0 ≡ none
  unfolding Maps.get
  continued-Silent t none rest h later = refl
  continued-Silent t (some (rs, s)) rest h later = get-append t rs (rest s).0 h ∙ later s

  continued-Spoken :
      (t : Ticket) (o : Option (List Reply × S)) (rest : S → List Reply × Option S)
      → Spoken t o
      → ((s : S) → Maps.get t (rest s).0 ≡ none)
      → Maps.get t (continued o rest).0 ≡ first_answer o
  unfolding Maps.get
  continued-Spoken t none rest h later = refl
  continued-Spoken t (some (rs, s)) rest h later = append-get t rs (rest s).0 (later s) ∙ h

  continued-later :
      (t : Ticket) (cmd : EngineCmd) (o : Option (List Reply × S))
      (rest : S → List Reply × Option S) (engine : S → Option S)
      → Silent t o
      → ((s : S) → Maps.get t (rest s).0 ≡ answer_on cmd (engine s))
      → Maps.get t (continued o rest).0 ≡ answer_on cmd (then_left (behind o) engine)
  unfolding Maps.get
  continued-later t cmd none rest engine h later = refl
  continued-later t cmd (some (rs, s)) rest engine h later = get-append t rs (rest s).0 h ∙ later s

  loop-silent :
      (t : Ticket) (cmds : List EngineCmd) (s : S)
      → Foreign t cmds
      → Maps.get t (command_loop ops cmds s).0 ≡ none
  unfolding command_loop Maps.get
  loop-silent t [] s h = ground arith
  loop-silent t (cmd ∷ cmds) s h =
      continued-Silent t (dispatch ops cmd s) (command_loop ops cmds) (dispatch-Silent t cmd s h.0)
        λ s'. loop-silent t cmds s' h.1

  -- Whoever sent a command to the thread gets what the engine's operation of that command, with its
  -- arguments, answers on the engine as the operations of the commands before left it, whatever else
  -- was sent, and no answer exactly if the engine had panicked before or panics in it. The receiver is
  -- that of one command.
  pub command_loop-answer_on :
      (t : Ticket) (pre post : List EngineCmd) (cmd : EngineCmd) (s : S)
      → ticket_of cmd ≡ some t
      → Foreign t pre
      → Foreign t post
      → Maps.get t (command_loop ops (pre ++ cmd ∷ post) s).0 ≡ answer_on cmd (left pre s)
  unfolding command_loop Maps.get
  command_loop-answer_on t [] post cmd s h none_before none_behind =
      continued-Spoken t (dispatch ops cmd s) (command_loop ops post) (dispatch-Spoken t cmd s h)
        (λ s'. loop-silent t post s' none_behind)
      ∙ dispatch-answer t cmd s h
  command_loop-answer_on t (c ∷ pre) post cmd s h none_before none_behind =
      continued-later t cmd (dispatch ops c s) (command_loop ops (pre ++ cmd ∷ post)) (left pre)
        (dispatch-Silent t c s none_before.0)
        (λ s'. command_loop-answer_on t pre post cmd s' h none_before.1 none_behind)
      ∙ ap (λ o. answer_on cmd (then_left o (left pre))) (dispatch-moved c s)
