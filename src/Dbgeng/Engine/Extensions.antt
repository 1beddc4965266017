-- ===== src/Dbgeng/Engine/Extensions.antt =====
-- crates/dbgeng-sys/src/engine.rs: `execute`, `analyze` and the load of the debugger extensions.
use debug_mcp.Prelude.{
  ℕ, zero, suc, pos, String, true, false, Option, none, some, List, [], ◌∷◌, ◌++◌, any, ltb,
  if◌then◌else◌, Result, ok, err, ◌==◌, string_eq,
}
use debug_mcp.Prelude.Text.{◌<>◌, join}
use debug_mcp.Core.Types.{EvalResult}
use debug_mcp.Dbgeng.Callbacks.{take_output}
use debug_mcp.Dbgeng.Error.{ComError, EngineError, op}
use debug_mcp.Dbgeng.Com.{Com, Texts}
use debug_mcp.Dbgeng.Engine.{Act, ◌>>=◌, ◌>>◌, pure, fail, asks, attempt, outside, changes}

-- `path.join(name)` of an absolute path.
abbrev joined : String → String → String
joined root name = root <> "\\" <> name

unfoldable pub push_unique : List String → String → List String
unfolding any
push_unique candidates candidate =
    if any (λ c. c == candidate) candidates then candidates else candidates ++ candidate ∷ []

abbrev push_root : List String → Option String → List String
unfolding push_unique
push_root candidates none = candidates
push_root candidates (some root) = push_unique candidates (joined (joined root "Debuggers") "x64")

-- An unset variable and an empty one are the same.
abbrev set_variable : Option String → Option String
set_variable none = none
set_variable (some text) = if text == "" then none else some text

-- The candidates, in their order: the two views of the registry, the environment, the default.
unfoldable pub candidates : Option String → Option String → Option String → List String
unfolding push_unique
candidates native wow sdk =
    push_unique (push_root (push_root (push_root [] native) wow) (set_variable sdk))
      "C:\\Program Files (x86)\\Windows Kits\\10\\Debuggers\\x64"

-- `truncate_output`: the cap is in bytes, the cut at the end of a character.
abbrev pub max_output_size : ℕ
max_output_size = 32768

-- The last boundary of a character up to `cut`.
unfoldable pub boundary_by : Texts → String → ℕ → ℕ
boundary_by texts output zero = 0
boundary_by texts output (suc cut) =
    let rest = boundary_by texts output cut in
    if texts.is_char_boundary output (suc cut) then suc cut else rest

unfoldable pub truncate_output : Texts → String → String
unfolding boundary_by
truncate_output texts output =
    if ltb max_output_size (texts.byte_length output)
    then texts.take (boundary_by texts output max_output_size) output
      <> "\n\n... (output truncated at 32KB)"
    else output

-- Nothing was captured, and the command failed.
abbrev execute_result : String → Result ComError (Unit {0}) → Result EngineError String
execute_result output (ok done) = ok output
execute_result output (err x) = if output == "" then err (op "Execute" x) else ok output

module _ (texts : Texts) {C : Type 0} (dbg : Com C) where
  unfoldable pub select_existing_root : List String → Act C (Option String)
  select_existing_root [] = pure none
  select_existing_root (path ∷ paths) = outside (dbg.exists path) >>= λ there. elim there [
    | true ↦ pure (some path)
    | false ↦ select_existing_root paths
  ]

  unfoldable pub discover_debuggers_root : Act C (Option String)
  unfolding candidates select_existing_root
  discover_debuggers_root = outside (dbg.kits_root false) >>= λ native.
      outside (dbg.kits_root true) >>= λ wow.
      outside dbg.sdk_dir >>= λ sdk. select_existing_root (candidates native wow sdk)

  unfoldable pub existing : List String → Act C (List String)
  existing [] = pure []
  existing (path ∷ paths) = outside (dbg.exists path) >>= λ there.
      existing paths >>= λ rest. pure (if there then path ∷ rest else rest)

  unfoldable pub extension_dirs : String → Act C (List String)
  unfolding existing
  extension_dirs root = existing (joined root "winext" ∷ joined root "winxp" ∷ root ∷ [])

  -- The two commands that load them, best effort.
  unfoldable pub load_extensions : List String → Act C (Unit {0})
  unfolding attempt join
  load_extensions [] = pure tt
  load_extensions (dir ∷ dirs) =
      (if texts.has_nul (".extpath " <> join ";" (dir ∷ dirs))
        then pure tt
        else (attempt (dbg.execute false (".extpath " <> join ";" (dir ∷ dirs))) >>= λ set.
            pure tt))
      >> (attempt (dbg.execute false ".load ext.dll") >>= λ loaded. pure tt)

  unfoldable pub ensure_extensions_loaded : Act C (Unit {0})
  unfolding discover_debuggers_root extension_dirs load_extensions
  ensure_extensions_loaded = asks (λ e. e.extensions_loaded) >>= λ done.
      if done
      then pure tt
      else (changes (λ e. record e { extensions_loaded = true })
          >> (discover_debuggers_root >>= λ found.
              elim found [ none ↦ pure [] | some root ↦ extension_dirs root ] >>= load_extensions))

  -- The output that was captured, which is forgotten.
  unfoldable pub drained : Act C String
  unfolding take_output
  drained e =
      let (output, st) = take_output e.callback_state in
      some (ok output, record e { callback_state = st })

  -- A command that fails but wrote something answers what it wrote.
  unfoldable pub execute : String → Act C String
  unfolding ensure_extensions_loaded drained attempt
  execute command =
      if texts.has_nul command
      then fail (EngineError.engine "execute: command contains an interior NUL byte")
      else (ensure_extensions_loaded
          >> (drained >>= λ stale. attempt (dbg.execute true command) >>= λ done.
              drained >>= λ output. λ e. some (execute_result output done, e)))

  unfoldable pub analyze : Act C String
  unfolding ensure_extensions_loaded execute truncate_output
  analyze =
      ensure_extensions_loaded
      >> (execute "!analyze -v" >>= λ output. pure (truncate_output texts output))

  unfoldable pub evaluate : String → Act C EvalResult
  unfolding execute
  evaluate expr = execute ("?? " <> expr) >>= λ output.
      pure (record { result = texts.trim output; ty = ""; variables_reference = pos 0 })
