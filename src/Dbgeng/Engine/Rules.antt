-- ===== src/Dbgeng/Engine/Rules.antt =====
-- What holds where an operation of the engine ends, and the rule for a chain.
use debug_mcp.Prelude.{String, Option, none, some, Result, ok, err, map_err, ◌≡◌, refl}
use debug_mcp.Dbgeng.Error.{ComError, EngineError, op}
use debug_mcp.Dbgeng.Callbacks.{callbacks}
use debug_mcp.Dbgeng.Com.{Called}
use debug_mcp.Dbgeng.Engine.{Engine, Act, next, ◌>>=◌, attempt, call}

-- Nothing is said of a value.
abbrev pub Any : {A : Type 0} → A → Type 0
Any a = Unit {0}

abbrev pub Post : Type 0 → Type 0 → Type 1
Post C A = Result EngineError A → Engine C → Type 0

-- `N` is what is said of an operation that does not come back: `Unit` or `⊥`.
abbrev pub Ends :
    {C A : Type 0} → Type 0 → Post C A → Option (Result EngineError A × Engine C) → Type 0
Ends N Q none = N
Ends N Q (some (r, e)) = Q r e

module _ {C A B : Type 0} (N : Type 0) (Q : Post C A) (R : Post C B) where
  -- A chain: what holds of its first part leads to what holds of the whole.
  pub next-Ends :
      (o : Option (Result EngineError A × Engine C)) (k : A → Act C B)
      → Ends N Q o
      → ((a : A) (e : Engine C) → Q (ok a) e → Ends N R (k a e))
      → ((x : EngineError) (e : Engine C) → Q (err x) e → R (err x) e)
      → Ends N R (next o k)
  next-Ends none k h good bad = h
  next-Ends (some (err x, e)) k h good bad = bad x e h
  next-Ends (some (ok a, e)) k h good bad = good a e h

-- The engine behind a call.
abbrev pub after : {C A : Type 0} → Called C A → Engine C → Engine C
after called e = record e {
  world = (called e.world).1;
  callback_state = callbacks (called e.world).0.1 e.callback_state;
}

module _ {C A : Type 0} (N : Type 0) (Q : Post C A) where
  -- A call whose errors end the operation: what holds of its answer, and of its error.
  pub call-Ends :
      (context : String) (called : Called C A) (e : Engine C)
      → ((a : A) → (called e.world).0.0 ≡ ok a → Q (ok a) (after called e))
      → ((x : EngineError) → Q (err x) (after called e))
      → Ends N Q (call context called e)
  unfolding call attempt
  call-Ends context called e good bad = answered (called e.world).0.0 good
    where
      answered :
          (r : Result ComError A)
          → ((a : A) → r ≡ ok a → Q (ok a) (after called e))
          → Q (map_err (op context) r) (after called e)
      answered (ok a) good = good a refl
      answered (err x) good = bad (op context x)

-- An invariant that every part of an operation keeps, and what holds of the values.
module _ {C : Type 0} (Inv : Engine C → Type 0) where
  abbrev pub Holding : {A : Type 0} → (A → Type 0) → Post C A
  Holding P (err x) e = Inv e
  Holding P (ok a) e = Inv e × P a

-- What is said of an operation that does not come back: nothing, or that it does not happen.
abbrev pub Partly : Type 0
Partly = Unit {0}

abbrev pub Surely : Type 0
Surely = ⊥

module _ {C : Type 0} (N : Type 0) (Inv : Engine C → Type 0) where
  -- From where the invariant holds, and `N` of an operation that does not come back.
  abbrev pub Keeps : {A : Type 0} → (A → Type 0) → Act C A → Type 0
  Keeps P m = (e : Engine C) → Inv e → Ends N (Holding Inv P) (m e)

  module _ {A B : Type 0} (P : A → Type 0) (R : B → Type 0) where
    pub chain :
        (m : Act C A) (k : A → Act C B)
        → Keeps P m
        → ((a : A) → P a → Keeps R (k a))
        → Keeps R (m >>= k)
    chain m k kept then_ e h =
        next-Ends N (Holding Inv P) (Holding Inv R) (m e) k (kept e h)
          (λ a e' h'. then_ a h'.1 e' h'.0) λ x e' h'. h'

  pub call-Keeps :
      {A : Type 0} (P : A → Type 0) (context : String) (called : Called C A)
      → ((e : Engine C) → Inv e → Inv (after called e))
      → ((e : Engine C) (a : A) → Inv e → (called e.world).0.0 ≡ ok a → P a)
      → Keeps P (call context called)
  call-Keeps P context called stable value e h =
      call-Ends N (Holding Inv P) context called e (λ a eq. (stable e h, value e a h eq))
        λ x. stable e h
