-- ===== src/Session/Manager/Guard.antt =====
-- What `check_state` answers, on every branch.
use debug_mcp.Prelude.{
  ◌≡◌, ◌↔◌, ◌⊎◌, inl, inr, true, List, [], ◌∷◌, arith, any, ok, err, Bool-cases,
}
use debug_mcp.Session.State.{State, eqb_State, eqb_State_iff}
use debug_mcp.Session.Manager.{SessionManager, check_state, state_error}

-- The state is one of the list.
abbrev pub Among : State → List State → Type 0
Among st [] = ⊥
Among st (a ∷ allowed) = (a ≡ st) ⊎ Among st allowed

any_iff :
    (st : State) (allowed : List State)
    → (any (λ a. eqb_State a st) allowed ≡ true) ↔ Among st allowed
unfolding any
any_iff st [] = ground arith
any_iff st (a ∷ allowed) = ground (arith, eqb_State_iff a st, any_iff st allowed)

-- The guard passes in the allowed states, and refuses in the others with the text for the state.
check_state_lem :
    (allowed : List State) (s : SessionManager)
    → (Among s.state allowed × (check_state allowed s ≡ ok tt))
      ⊎ ((¬ Among s.state allowed) × (check_state allowed s ≡ err (state_error allowed s.state)))
unfolding check_state
check_state_lem allowed s = elim (Bool-cases (any (λ a. eqb_State a s.state) allowed)) [
  | inl found ↦ inl ((any_iff s.state allowed).0 found, rw found)
  | inr missing ↦ inr (ground (arith, any_iff s.state allowed), rw missing)
]
