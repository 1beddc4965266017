-- ===== src/Lldb/Stderr/Tail.antt =====
-- The buffer is the end of everything that was written.
use debug_mcp.Prelude.{
  ℕ, ◌+◌, ◌-◌, ◌≤◌, List, [], ◌∷◌, ◌++◌, length, drop, length-append, length-drop, drop-drop,
  drop_nil, drop-append_le, drop_past, ltb, leb, leb→le, eqb, if◌then◌else◌, Bool-cases, inl, inr,
  ◌≡◌, sym, ap, ◌∙◌, arith,
}
use mathlib.Core.List.{append_assoc, append-nil}
use debug_mcp.Lldb.Stderr.{StderrBuffer, default_stderr_cap, new, write}

-- The last `n` bytes.
abbrev pub last : ℕ → List ℕ → List ℕ
last n bytes = drop (length bytes - n) bytes

abbrev pub write_all : List (List ℕ) → StderrBuffer → StderrBuffer
write_all [] b = b
write_all (w ∷ ws) b = write_all ws (write w b).1

abbrev pub written : List (List ℕ) → List ℕ
written [] = []
written (w ∷ ws) = w ++ written ws

same_drop : (m n : ℕ) (xs : List ℕ) → m ≡ n → drop m xs ≡ drop n xs
same_drop m n xs e = ap (λ k. drop k xs) e

-- A write at or over the capacity.
large_write : (n : ℕ) (t w : List ℕ) → n ≤ length w → last n w ≡ last n (t ++ w)
large_write n t w h =
    sym (drop_past (length w - n) t w)
    ∙ same_drop (length t + (length w - n)) (length (t ++ w) - n) (t ++ w)
        (omega (arith, h, length-append t w))

-- A smaller write, behind the bytes that are kept.
small_write :
    (n : ℕ) (t w : List ℕ) → drop (length (last n t ++ w) - n) (last n t ++ w) ≡ last n (t ++ w)
small_write n t w =
    let j = length t - n in
    let kept = last n t ++ w in
    ap (drop (length kept - n)) (sym (drop-append_le j t w (omega arith)))
    ∙ drop-drop (length kept - n) j (t ++ w)
    ∙ same_drop (j + (length kept - n)) (length (t ++ w) - n) (t ++ w)
        (omega (arith, length-append (last n t) w, length-drop j t, length-append t w))

-- Nothing is dropped of what fits.
fits : (n : ℕ) (bytes : List ℕ) → length bytes ≤ n → last n bytes ≡ bytes
unfolding drop
fits n bytes h = same_drop (length bytes - n) 0 bytes (omega (arith, h))

-- The branches of a write, on the bytes kept so far.
branches :
    (n : ℕ) (t w : List ℕ)
    → (if leb n (length w)
        then last n w
        else (if ltb n (length (last n t ++ w)) then last n (last n t ++ w) else last n t ++ w))
      ≡ last n (t ++ w)
branches n t w = elim (Bool-cases (leb n (length w))) [
  | inl large ↦ ground (arith, large, large_write n t w (leb→le n (length w) large))
  | inr small ↦ elim (Bool-cases (ltb n (length (last n t ++ w)))) [
    | inl over ↦ ground (arith, small, over, small_write n t w)
    | inr under ↦
        ground
          (arith, small, under, small_write n t w, fits n (last n t ++ w) (ground (arith, under)))
  ]
]

write-last :
    (t w : List ℕ) (b : StderrBuffer)
    → b.inner ≡ last b.size t
    → (write w b).1.inner ≡ last b.size (t ++ w)
unfolding write
write-last t w b h =
    ap
      (λ kept.
        if leb b.size (length w)
        then last b.size w
        else (if ltb b.size (length (kept ++ w)) then last b.size (kept ++ w) else kept ++ w))
      h
    ∙ branches b.size t w

write_all-last :
    (ws : List (List ℕ)) (t : List ℕ) (b : StderrBuffer)
    → b.inner ≡ last b.size t
    → (write_all ws b).inner ≡ last b.size (t ++ written ws)
unfolding write
write_all-last [] t b h = h ∙ ap (last b.size) (sym (append-nil t))
write_all-last (w ∷ ws) t b h =
    write_all-last ws (t ++ w) (write w b).1 (write-last t w b h)
    ∙ ap (last b.size) (append_assoc t w (written ws))

-- Whatever is written in whatever pieces, the buffer holds the last bytes of all of it together, as
-- many as its capacity, which is 4096 where 0 was asked for.
pub write_all-new :
    (ws : List (List ℕ)) (size : ℕ)
    → (write_all ws (new size)).inner
      ≡ last (if eqb size 0 then default_stderr_cap else size) (written ws)
unfolding new
write_all-new ws size = write_all-last ws [] (new size) (sym (drop_nil (0 - (new size).size)))
