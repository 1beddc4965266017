-- ===== src/Lldb/Stderr.antt =====
-- crates/lldb-backend/src/subprocess.rs: `StderrBuffer`, the tail of what the debugger wrote to its
-- standard error.
pub mod Tail
use debug_mcp.Prelude.{ℕ, ◌+◌, ◌-◌, List, [], ◌++◌, length, drop, ltb, leb, eqb, if◌then◌else◌}

pub record StderrBuffer : Type 0 where
  pub inner : List ℕ
  pub size : ℕ

abbrev pub default_stderr_cap : ℕ
default_stderr_cap = 4096

unfoldable pub new : ℕ → StderrBuffer
new size = record { inner = []; size = if eqb size 0 then default_stderr_cap else size }

-- Also the length of the input, which every write returns.
unfoldable pub write : List ℕ → StderrBuffer → ℕ × StderrBuffer
unfolding drop
write bytes b =
    let all = b.inner ++ bytes in
    (
      length bytes,
      record b {
        inner =
            if leb b.size (length bytes)
            then drop (length bytes - b.size) bytes
            else (if ltb b.size (length all) then drop (length all - b.size) all else all);
      },
    )
