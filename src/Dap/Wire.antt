-- ===== src/Dap/Wire.antt =====
-- crates/dap-client/src/wire.rs: the messages that the read loop dispatches. The framing and the
-- decoding of the JSON are not modelled; a message that was read is a value here.
use debug_mcp.Prelude.{ℤ, String, Bool, Option, List}
use debug_mcp.Tools.Json.{Value}

pub record Envelope : Type 0 where
  pub seq : ℤ
  pub ty : String
  pub command : Option String
  pub event : Option String

pub record Response : Type 0 where
  pub seq : ℤ
  pub ty : String
  pub request_seq : ℤ
  pub success : Bool
  pub command : String
  pub message : String
  pub body : Option Value

pub record StoppedBody : Type 0 where
  pub reason : String
  pub description : String
  pub thread_id : ℤ
  pub text : String
  pub all_threads_stopped : Bool
  pub hit_breakpoint_ids : List ℤ

pub record StoppedEvent : Type 0 where
  pub seq : ℤ
  pub ty : String
  pub event : String
  pub body : StoppedBody

pub record OutputBody : Type 0 where
  pub category : String
  pub output : String

pub record OutputEvent : Type 0 where
  pub seq : ℤ
  pub ty : String
  pub event : String
  pub body : OutputBody

pub record ExitedBody : Type 0 where
  pub exit_code : ℤ

pub record ExitedEvent : Type 0 where
  pub seq : ℤ
  pub ty : String
  pub event : String
  pub body : ExitedBody

pub data Event : Type 0 where
  initialized : Event
  stopped : StoppedEvent → Event
  output : OutputEvent → Event
  exited : ExitedEvent → Event
  terminated thread breakpoint process continued module_event capabilities : Event

pub data DapMessage : Type 0 where
  response : Response → DapMessage
  event : Event → DapMessage
  other : Envelope → DapMessage
