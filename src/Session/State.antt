-- ===== src/Session/State.antt =====
-- crates/mcp-session/src/state.rs and breakpoint.rs
use debug_mcp.Prelude.{ℕ, ℤ, String, Bool, true, ◌≡◌, ◌↔◌, arith, eqb, PartialEq}

pub data State : Type 0 where
  idle configuring stopped running terminated : State

-- `Display`
unfoldable pub state_name : State → String
state_name idle = "idle"
state_name configuring = "configuring"
state_name stopped = "stopped"
state_name running = "running"
state_name terminated = "terminated"

-- The derived `PartialEq`, by the discriminant.
abbrev discriminant : State → ℕ
discriminant idle = 0
discriminant configuring = 1
discriminant stopped = 2
discriminant running = 3
discriminant terminated = 4

abbrev pub eqb_State : State → State → Bool
eqb_State s t = eqb (discriminant s) (discriminant t)

pub eqb_State_iff : (s t : State) → (eqb_State s t ≡ true) ↔ (s ≡ t)
eqb_State_iff idle t = ground arith
eqb_State_iff configuring t = ground arith
eqb_State_iff stopped t = ground arith
eqb_State_iff running t = ground arith
eqb_State_iff terminated t = ground arith

instance abbrev pub state_eq : PartialEq State
state_eq = record { test = eqb_State; test_iff = eqb_State_iff }

pub record BreakpointInfo : Type 0 where
  pub id : ℤ
  pub ty : String
  pub file : String
  pub line : ℤ
  pub function : String
  pub condition : String
  pub verified : Bool
