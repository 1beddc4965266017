-- ===== src/Windbg/Breakpoints/Table.antt =====
-- What it means that the table of the backend stands for an account of the engine's breakpoints:
-- source lines by file, and functions.
use mathlib.Core.Path.{subst}
use debug_mcp.Prelude.{
  ℕ, ℤ, String, true, false, Option, none, some, List, [], ◌∷◌, Dict, map, ok, if◌then◌else◌, ◌≡◌,
  ◌≢◌, refl, sym, ap, ◌∙◌, ◌↔◌, ◌⊎◌, inl, inr, arith, ◌==◌, ==_iff, ==_refl, PartialEq, string_eq,
  nat_eq, Bool-cases, Option-cases,
}
use debug_mcp.Prelude.Maps
use debug_mcp.Core.Types.{SourceBp, BreakpointResult}
use debug_mcp.Windbg.Engine.{BpLoc, file_line, function, EngineOps, IsExact}
use debug_mcp.Windbg.Breakpoints.{
  Wanted, BreakpointTable, wanted_line, is_desired, lines_of, commit_lines, reconcile,
  set_source_breakpoints,
}
use debug_mcp.Windbg.Breakpoints.Removing.{seen}
use debug_mcp.Windbg.Breakpoints.Agreement.{Held, DistinctKeys, keys_of, Agree}
use debug_mcp.Windbg.Breakpoints.Refinement.{Removable, Carried, reconcile-Carried}

module _ {S : Type 0} (at : S → ℤ → Option BpLoc) where
  -- An id is in the engine at a location exactly when the table tracks the location with that id.
  pub record Refines (table : BreakpointTable) (e : Option S) : Type 0 where
    pub lines :
        (file : String) (line : ℕ) (id : ℤ)
        → (seen at e id ≡ some (file_line file line)) ↔ Held (lines_of file table) line id
    pub functions :
        (name : String) (id : ℤ)
        → (seen at e id ≡ some (function name)) ↔ Held table.function name id
    pub single_lines : (file : String) → Maps.Distinct (lines_of file table)
    pub single_functions : Maps.Distinct table.function

  module _ {K : Type 0} ⦃q : PartialEq K⦄ (loc_of : K → BpLoc) (m : Dict K BreakpointResult)
      (e : Option S) where
    agree_iff :
        Agree at loc_of m e → (k : K) (id : ℤ) → (seen at e id ≡ some (loc_of k)) ↔ Held m k id
    agree_iff h k id = (
      h.complete id k,
      λ held. ap (seen at e) (sym held.same) ∙ h.sound k held.result held.tracked,
    )

    iff-Agree :
        ((k : K) (id : ℤ) → (seen at e id ≡ some (loc_of k)) ↔ Held m k id) → Agree at loc_of m e
    iff-Agree h = record {
      sound = λ k r g. (h k r.id).1 (record { result = r; tracked = g; same = refl });
      complete = λ id k s. (h k id).0 s;
    }

module _ {K : Type 0} ⦃q : PartialEq K⦄ (desired : List K) (old new : Dict K BreakpointResult)
    (k : K) where
  -- A key that is not asked for has nothing; one that is and had something keeps it.
  abbrev pub Settled : Type 0
  Settled =
      ((is_desired k desired ≡ false) × (Maps.get k new ≡ none))
      ⊎ ((is_desired k desired ≡ true)
          × ((Maps.get k old ≡ none) ⊎ (Maps.get k new ≡ Maps.get k old)))

  settled :
      (is_desired k desired ≡ false → Maps.get k new ≡ none)
      → ((r : BreakpointResult)
          → Maps.get k old ≡ some r
          → is_desired k desired ≡ true
          → Maps.get k new ≡ some r)
      → Settled
  settled only kept = elim (Bool-cases (is_desired k desired)) [
    | inr unwanted ↦ inl (unwanted, only unwanted)
    | inl wanted ↦ elim (Option-cases (Maps.get k old)) [
      | inl absent ↦ inr (wanted, inl absent)
      | inr (r, had) ↦ inr (wanted, inr (kept r had wanted ∙ sym had))
    ]
  ]

line_injective : (file : String) (j k : ℕ) → file_line file j ≡ file_line file k → j ≡ k
line_injective file j k e = ground (arith, e)

function_injective : (j k : String) → function j ≡ function k → j ≡ k
function_injective j k e = ground (arith, e)

lines_of-commit :
    (file other : String) (m : Dict ℕ BreakpointResult) (table : BreakpointTable)
    → lines_of other (commit_lines file (some m) table)
      ≡ (if file == other then m else lines_of other table)
unfolding lines_of commit_lines
lines_of-commit file other [] table = ground (arith, Maps.get-remove file other table.source)
lines_of-commit file other (entry ∷ m) table =
    ground (arith, Maps.get-insert file other (entry ∷ m) table.source)

commit_lines-function :
    (file : String) (m : Dict ℕ BreakpointResult) (table : BreakpointTable)
    → (commit_lines file (some m) table).function ≡ table.function
unfolding commit_lines
commit_lines-function file [] table = refl
commit_lines-function file (entry ∷ m) table = refl

module _ {S : Type 0} (ops : EngineOps S) (at : S → ℤ → Option BpLoc)
    (lawful : IsExact ops at) where
  -- Locations of one kind are not those of another.
  not_file : (file other : String) (j k : ℕ) → file ≢ other → file_line file j ≢ file_line other k
  not_file file other j k n = λ e. n (ground (arith, e))

  not_function : (file name : String) (j : ℕ) → file_line file j ≢ function name
  not_function file name j = λ e. ground (arith, e)

  not_line : (file name : String) (j : ℕ) → function name ≢ file_line file j
  not_line file name j = λ e. ground (arith, e)

  through : {A B C : Type 0} → (A ↔ B) → (A ↔ C) → B ↔ C
  through f g = (λ b. g.0 (f.1 b), λ c. f.0 (g.1 c))

  -- Behind a request for the lines of one file.
  module _ (file : String) (table : BreakpointTable) (e e' : Option S)
      (refines : Refines at table e) (ws : List (Wanted ℕ)) (m : Dict ℕ BreakpointResult)
      (c : Carried ops at lawful
        (file_line file)
        (line_injective file)
        (lines_of file table)
        (refines.single_lines file)
        ws
        e
        m
        e') where
    of_this :
        (other : String)
        → (file == other) ≡ true
        → lines_of other (commit_lines file (some m) table) ≡ m
    of_this other same = ground (arith, lines_of-commit file other m table)

    of_others :
        (other : String)
        → (file == other) ≡ false
        → lines_of other (commit_lines file (some m) table) ≡ lines_of other table
    of_others other different = ground (arith, lines_of-commit file other m table)

    line_tracked :
        (other : String) (line : ℕ) (id : ℤ)
        → (seen at e' id ≡ some (file_line other line))
          ↔ Held (lines_of other (commit_lines file (some m) table)) line id
    line_tracked other line id = elim (Bool-cases (file == other)) [
      | inl same ↦
          subst (λ t. (seen at e' id ≡ some (file_line other line)) ↔ Held t line id)
            (sym (of_this other same))
            (subst (λ f. (seen at e' id ≡ some (file_line f line)) ↔ Held m line id)
              ((==_iff file other).0 same) (agree_iff at (file_line file) m e' c.agree line id))
      | inr different ↦
          subst (λ t. (seen at e' id ≡ some (file_line other line)) ↔ Held t line id)
            (sym (of_others other different))
            (through
              (c.elsewhere id (file_line other line)
                (λ k. not_file file other k line (λ p. ground (arith, ==_iff file other, p))))
              (refines.lines other line id))
    ]

    lines_single :
        (other : String) → Maps.Distinct (lines_of other (commit_lines file (some m) table))
    lines_single other = elim (Bool-cases (file == other)) [
      | inl same ↦ subst Maps.Distinct (sym (of_this other same)) c.single
      | inr different ↦
          subst Maps.Distinct (sym (of_others other different)) (refines.single_lines other)
    ]

    lines_refined : Refines at (commit_lines file (some m) table) e'
    lines_refined = record {
      lines = line_tracked;
      functions = λ name id.
          subst (λ f. (seen at e' id ≡ some (function name)) ↔ Held f name id)
            (sym (commit_lines-function file m table))
            (through (c.elsewhere id (function name) (λ k. not_function file name k))
              (refines.functions name id));
      single_lines = lines_single;
      single_functions =
          subst Maps.Distinct (sym (commit_lines-function file m table)) refines.single_functions;
    }

  -- The same with an exact account.
  pub set_source_exact :
      (file : String) (bps : List SourceBp) (table : BreakpointTable) (e : Option S)
      (results : List BreakpointResult) (line : ℕ)
      → Refines at table e
      → DistinctKeys (map (wanted_line file) bps) []
      → Removable (lines_of file table) (keys_of (map (wanted_line file) bps) [])
      → (set_source_breakpoints ops file bps table e).0 ≡ ok results
      → Refines at
          (set_source_breakpoints ops file bps table e).1
          (set_source_breakpoints ops file bps table e).2
        × Settled
            (keys_of (map (wanted_line file) bps) [])
            (lines_of file table)
            (lines_of file (set_source_breakpoints ops file bps table e).1)
            line
  unfolding set_source_breakpoints
  set_source_exact file bps table e results line refines d positive went =
      let ws = map (wanted_line file) bps in
      let (m, committed, c) =
        reconcile-Carried ops at lawful (file_line file) (line_injective file) (lines_of file table)
          (refines.single_lines file) ws e results
          (iff-Agree at (file_line file) (lines_of file table) e (refines.lines file)) d positive
          went in
      let answer = reconcile ops (file_line file) (lines_of file table) ws e in
      subst
        (λ o.
          Refines at (commit_lines file o table) answer.2
          × Settled (keys_of ws []) (lines_of file table)
              (lines_of file (commit_lines file o table)) line)
        (sym committed)
        (
          lines_refined file table e answer.2 refines ws m c,
          subst (λ t. Settled (keys_of ws []) (lines_of file table) t line)
              (sym (of_this file table e answer.2 refines ws m c file (==_refl file)))
              (settled (keys_of ws []) (lines_of file table) m line (c.only line) (c.kept line)),
        )
