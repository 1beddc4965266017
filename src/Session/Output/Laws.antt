-- ===== src/Session/Output/Laws.antt =====
-- The output buffer against its history: what it holds after any appends, and what a drain returns.
use mathlib.Core.Path.{subst}
use debug_mcp.Prelude.{
  ℕ, ◌+◌, ◌≤◌, ◌≡◌, refl, sym, ap, ◌∙◌, String, Bool, true, List, [], ◌∷◌, ◌++◌, arith, ltb,
  if◌then◌else◌, Bool-cases, inl, inr,
}
use mathlib.Core.List.{append-nil, append_assoc}
use debug_mcp.Session.Output.{
  OutputEntry, Buffered, entry_size, max_size, empty, marker, evict, append, drain,
}

-- The bytes of a list of entries.
unfoldable pub total : List OutputEntry → ℕ
total [] = 0
total (e ∷ es) = entry_size e + total es

-- The longest tail that fits the cap.
unfoldable pub keep : List OutputEntry → List OutputEntry
keep [] = []
keep (e ∷ es) = let rest = keep es in if ltb max_size (total (e ∷ es)) then rest else e ∷ es

pub total-append : (xs ys : List OutputEntry) → total (xs ++ ys) ≡ total xs + total ys
unfolding total
total-append [] ys = omega arith
total-append (x ∷ xs) ys = omega (arith, total-append xs ys)

-- The buffer that a history of appended entries leaves.
unfoldable pub buffer_of : List OutputEntry → Buffered
buffer_of h = record { entries = keep h; size = total (keep h); truncated = ltb max_size (total h) }

evict-keep :
    (es : List OutputEntry) (t : Bool)
    → evict es (total es) t ≡ record {
      entries = keep es;
      size = total (keep es);
      truncated = if ltb max_size (total es) then true else t;
    }
unfolding evict keep total
evict-keep [] t = ground arith
evict-keep (e ∷ es) t = ground (arith, evict-keep es true)

keep-append :
    (h : List OutputEntry) (e : OutputEntry) → keep (keep h ++ e ∷ []) ≡ keep (h ++ e ∷ [])
unfolding keep total
keep-append [] e = refl
keep-append (x ∷ h) e = ground (arith, keep-append h e, total-append h (e ∷ []))

-- A history that fits is kept whole.
keep_fits : (h : List OutputEntry) → total h ≤ max_size → keep h ≡ h
unfolding keep total
keep_fits [] h = refl
keep_fits (e ∷ es) h = ground arith

-- What is kept fits the cap.
pub total-keep-le : (h : List OutputEntry) → total (keep h) ≤ max_size
unfolding keep total
total-keep-le [] = omega arith
total-keep-le (e ∷ es) = ground (arith, total-keep-le es)

module _ (h : List OutputEntry) (e : OutputEntry) where
  size-append : total (keep h) + entry_size e ≡ total (keep h ++ e ∷ [])
  unfolding total
  size-append = omega (arith, total-append (keep h) (e ∷ []))

  -- Entries have been dropped once the whole history no longer fits.
  truncated-append :
      (if ltb max_size (total (keep h ++ e ∷ [])) then true else ltb max_size (total h))
      ≡ ltb max_size (total (h ++ e ∷ []))
  unfolding total
  truncated-append =
      ground (
        arith,
        keep_fits h,
        total-append h (e ∷ []),
        total-append (keep h) (e ∷ []),
        total-keep-le h,
      )

-- An append to a buffer that a history left leaves what the history with the new entry leaves.
pub append-buffer_of :
    (h : List OutputEntry) (category text : String)
    → append category text (buffer_of h)
      ≡ buffer_of (h ++ record { category = category; text = text } ∷ [])
unfolding append buffer_of
append-buffer_of h category text =
    let e : OutputEntry = record { category = category; text = text } in
    rw (
      size-append h e,
      evict-keep (keep h ++ e ∷ []) (ltb max_size (total h)),
      truncated-append h e,
      keep-append h e,
    )

-- The events of a history, appended one after another to an empty buffer.
unfoldable pub append_all : List OutputEntry → Buffered → Buffered
append_all [] b = b
append_all (e ∷ es) b = append_all es (append e.category e.text b)

append_all-buffer_of : (h es : List OutputEntry) → append_all es (buffer_of h) ≡ buffer_of (h ++ es)
unfolding append_all
append_all-buffer_of h [] = ap buffer_of (sym (append-nil h))
append_all-buffer_of h (e ∷ es) =
    ap (append_all es) (append-buffer_of h e.category e.text)
    ∙ append_all-buffer_of (h ++ e ∷ []) es
    ∙ ap buffer_of (append_assoc h (e ∷ []) es)

pub empty-buffer_of : empty ≡ buffer_of []
unfolding buffer_of keep total
empty-buffer_of = refl

-- After any appends to a new buffer it holds the longest run of the newest entries that fits the
-- cap, counts their bytes, and has its flag set exactly when the whole history exceeds the cap.
pub append_all_lem : (es : List OutputEntry) → append_all es empty ≡ buffer_of es
append_all_lem es = ap (append_all es) empty-buffer_of ∙ append_all-buffer_of [] es

pub drain-buffer_of :
    (h : List OutputEntry)
    → drain (buffer_of h) ≡ ((if ltb max_size (total h) then marker ∷ keep h else keep h), empty)
unfolding drain buffer_of total
drain-buffer_of h = elim (Bool-cases (ltb max_size (total h))) [
  | inl big ↦ ground arith
  | inr fits ↦ ground arith
]

-- A drain after any appends to a new buffer returns the longest run of the newest entries that fits
-- the cap, behind the marker if the history exceeds the cap; it leaves a new buffer, and a second
-- drain returns nothing.
drain-append_all :
    (es : List OutputEntry)
    → (drain (append_all es empty)
        ≡ ((if ltb max_size (total es) then marker ∷ keep es else keep es), empty))
      × (drain empty ≡ ([], empty))
unfolding drain
drain-append_all es = (rw append_all_lem (drain-buffer_of es), refl)

longest :
    (dropped tail : List OutputEntry)
    → total tail ≤ max_size
    → (more : List OutputEntry) × (keep (dropped ++ tail) ≡ more ++ tail)
unfolding keep
longest [] tail h = ([], keep_fits tail h)
longest (d ∷ ds) tail h =
    let (more, e) = longest ds tail h in
    elim (Bool-cases (ltb max_size (total (d ∷ ds ++ tail)))) [
      | inl big ↦ (more, rw big e)
      | inr fits ↦ (d ∷ ds, rw fits)
    ]

suffix : (h : List OutputEntry) → (rest : List OutputEntry) × (rest ++ keep h ≡ h)
unfolding keep
suffix [] = ([], refl)
suffix (e ∷ es) =
    let (rest, p) = suffix es in
    elim (Bool-cases (ltb max_size (total (e ∷ es)))) [
      | inl big ↦ (e ∷ rest, rw big (ap (◌∷◌ e) p))
      | inr fits ↦ ([], rw fits)
    ]

keep_longest :
    (dropped tail : List OutputEntry)
    → total tail ≤ max_size
    → (total (keep (dropped ++ tail)) ≤ max_size)
      × ((rest : List OutputEntry) × (rest ++ keep (dropped ++ tail) ≡ dropped ++ tail))
      × ((more : List OutputEntry) × (keep (dropped ++ tail) ≡ more ++ tail))
keep_longest dropped tail fits =
    (total-keep-le (dropped ++ tail), suffix (dropped ++ tail), longest dropped tail fits)

-- What a buffer holds of a history: within the cap, with its size counted, a tail of the history, and
-- all of the given tail.
abbrev pub Longest : List OutputEntry → List OutputEntry → Buffered → Type 0
Longest history tail b =
    (b.size ≤ max_size)
    × (b.size ≡ total b.entries)
    × ((rest : List OutputEntry) × (rest ++ b.entries ≡ history))
    × ((more : List OutputEntry) × (b.entries ≡ more ++ tail))

-- A new buffer, behind any appends of which the last ones fit the cap together: its size is that of
-- its entries and within the cap, its entries are the newest of the history, and the given last ones
-- are all there.
pub append_all-Longest :
    (dropped tail : List OutputEntry)
    → total tail ≤ max_size
    → Longest (dropped ++ tail) tail (append_all (dropped ++ tail) empty)
unfolding buffer_of
append_all-Longest dropped tail fits =
    let (within, newest, all) = keep_longest dropped tail fits in
    subst (Longest (dropped ++ tail) tail) (sym (append_all_lem (dropped ++ tail)))
      (within, refl, newest, all)
