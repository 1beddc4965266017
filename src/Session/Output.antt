-- ===== src/Session/Output.antt =====
-- crates/mcp-session/src/output_buffer.rs. A method runs under the buffer's own lock, so each is
-- one step. A length is a count of bytes; the sum of the lengths held in memory stays below 2 ^ 64,
-- so `usize` addition is that of ℕ.
pub mod Laws
use Prim.Native.String.{len}
use debug_mcp.Prelude.{
  ℕ, ◌+◌, ◌-◌, String, Bool, true, false, ◌&&◌, not, List, [], ◌∷◌, ◌++◌, ltb, is_empty,
  if◌then◌else◌,
}

pub record OutputEntry : Type 0 where
  pub category : String
  pub text : String

abbrev pub max_size : ℕ
max_size = 1048576

pub record Buffered : Type 0 where
  pub entries : List OutputEntry
  pub size : ℕ
  pub truncated : Bool

abbrev pub empty : Buffered
empty = record { entries = []; size = 0; truncated = false }

abbrev pub entry_size : OutputEntry → ℕ
entry_size e = len e.category + len e.text

-- The loop `while size > MAX_SIZE && !entries.is_empty()`: each round drops the oldest entry.
unfoldable pub evict : List OutputEntry → ℕ → Bool → Buffered
evict [] size truncated = record { entries = []; size = size; truncated = truncated }
evict (e ∷ es) size truncated =
    let rest = evict es (size - entry_size e) true in
    if ltb max_size size
    then rest
    else record { entries = e ∷ es; size = size; truncated = truncated }

unfoldable pub append : String → String → Buffered → Buffered
unfolding evict
append category text b =
    let e : OutputEntry = record { category = category; text = text } in
    evict (b.entries ++ e ∷ []) (b.size + entry_size e) b.truncated

abbrev pub marker : OutputEntry
marker = record { category = "console"; text = "[output truncated]" }

-- The entries that `drain` returns, and the buffer that it leaves.
unfoldable pub drain : Buffered → List OutputEntry × Buffered
drain b = if is_empty b.entries && not b.truncated then ([], b) else (
  (if b.truncated then marker ∷ b.entries else b.entries),
  record { entries = []; size = 0; truncated = false },
)
