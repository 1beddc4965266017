-- ===== src/Session/Manager/Tracked.antt =====
-- The breakpoints that are listed and removed, against the lookup by id.
use debug_mcp.Prelude.{
  suc, ◌+◌, ◌<◌, ℤ, pos_part, neg_part, String, ◌≡◌, ◌≢◌, refl, ap, ◌∙◌, Bool, none, some, List, [],
  ◌∷◌, arith, Dict, int_eq, string_eq, ◌==◌, eqb_ℤ, eqb_ℤ_iff, err, remove_first, find, length,
  if◌then◌else◌,
}
use text.Mathlib.TextEquality.{eq_iff}
use debug_mcp.Prelude.Text.{◌<>◌, show_ℤ}
use debug_mcp.Prelude.Maps
use debug_mcp.Prelude.Maps.{Distinct}
use debug_mcp.Session.State.{BreakpointInfo}
use debug_mcp.Session.Manager.{SessionManager}
use debug_mcp.Session.Manager.Tracking.{
  remove_breakpoint_by_id, breakpoint_info, place, sort_by_id, list_breakpoints, same_line,
  same_name, source_breakpoints_for_file, all_function_breakpoints, remove_found,
}
use debug_mcp.Session.Manager.Valid.{IsValid, KeyedById}

infix 50 ◌<ℤ◌
abbrev pub ◌<ℤ◌ : ℤ → ℤ → Type 0
a <ℤ b = pos_part a + neg_part b < pos_part b + neg_part a

abbrev pub AllAbove : ℤ → List BreakpointInfo → Type 0
AllAbove i [] = Unit {0}
AllAbove i (y ∷ ys) = (i <ℤ y.id) × AllAbove i ys

-- Strictly ascending by id.
abbrev pub Ascending : List BreakpointInfo → Type 0
Ascending [] = Unit {0}
Ascending (x ∷ xs) = AllAbove x.id xs × Ascending xs

abbrev pub has_id : ℤ → BreakpointInfo → Bool
has_id id info = eqb_ℤ info.id id

AllAbove-mono : (i j : ℤ) (xs : List BreakpointInfo) → i <ℤ j → AllAbove j xs → AllAbove i xs
AllAbove-mono i j [] h a = tt
AllAbove-mono i j (x ∷ xs) h a = (omega arith, AllAbove-mono i j xs h a.1)

place-AllAbove :
    (i : ℤ) (x : BreakpointInfo) (xs : List BreakpointInfo)
    → i <ℤ x.id
    → AllAbove i xs
    → AllAbove i (place x xs)
unfolding place
place-AllAbove i x [] h a = (h, tt)
place-AllAbove i x (y ∷ ys) h a = ground (arith, place-AllAbove i x ys h a.1)

place-Ascending :
    (x : BreakpointInfo) (xs : List BreakpointInfo)
    → find (has_id x.id) xs ≡ none
    → Ascending xs
    → Ascending (place x xs)
unfolding place find
place-Ascending x [] h a = (tt, tt)
place-Ascending x (y ∷ ys) h a = ground (
  arith,
  eqb_ℤ_iff y.id x.id,
  AllAbove-mono x.id y.id ys,
  place-AllAbove y.id x ys,
  place-Ascending x ys,
)

find-place :
    (id : ℤ) (x : BreakpointInfo) (xs : List BreakpointInfo)
    → find (has_id id) (place x xs) ≡ (if has_id id x then some x else find (has_id id) xs)
unfolding place find
find-place id x [] = refl
find-place id x (y ∷ ys) = ground (arith, eqb_ℤ_iff y.id id, eqb_ℤ_iff x.id id, find-place id x ys)

find-sort_by_id :
    (id : ℤ) (xs : List BreakpointInfo) → find (has_id id) (sort_by_id xs) ≡ find (has_id id) xs
unfolding sort_by_id find
find-sort_by_id id [] = refl
find-sort_by_id id (x ∷ xs) = rw (find-place, find-sort_by_id id xs)

length-place :
    (x : BreakpointInfo) (xs : List BreakpointInfo) → length (place x xs) ≡ suc (length xs)
unfolding place
length-place x [] = refl
length-place x (y ∷ ys) = ground (arith, length-place x ys)

length-sort_by_id : (xs : List BreakpointInfo) → length (sort_by_id xs) ≡ length xs
unfolding sort_by_id
length-sort_by_id [] = refl
length-sort_by_id (x ∷ xs) = length-place x (sort_by_id xs) ∙ ap suc (length-sort_by_id xs)

find-values :
    (id : ℤ) (m : Dict ℤ BreakpointInfo)
    → KeyedById m
    → find (has_id id) (Maps.values m) ≡ Maps.get id m
unfolding find Maps.get
find-values id [] h = refl
find-values id ((k, x) ∷ m) h = ground (arith, find-values id m h.1)

sort_by_id-Ascending :
    (m : Dict ℤ BreakpointInfo) → KeyedById m → Distinct m → Ascending (sort_by_id (Maps.values m))
unfolding sort_by_id
sort_by_id-Ascending [] h d = tt
sort_by_id-Ascending ((k, x) ∷ m) h d =
    place-Ascending x _
      (find-sort_by_id x.id (Maps.values m)
        ∙ find-values x.id m h.1
        ∙ rw h.0 (Maps.get_absent k m d.0))
      (sort_by_id-Ascending m h.1 d.1)

length-values : (m : Dict ℤ BreakpointInfo) → length (Maps.values m) ≡ length m
length-values [] = refl
length-values (p ∷ m) = ap suc (length-values m)

-- In a valid session the list is strictly ascending by id, has one entry for each tracked
-- breakpoint, and finds under an id what the session has under it.
pub list_breakpoints_lem :
    (s : SessionManager) (id : ℤ)
    → IsValid s
    → Ascending (list_breakpoints s)
      × (length (list_breakpoints s) ≡ length s.bp_responses)
      × (find (has_id id) (list_breakpoints s) ≡ breakpoint_info id s)
unfolding list_breakpoints breakpoint_info
list_breakpoints_lem s id v = (
  sort_by_id-Ascending s.bp_responses v.keyed v.responses,
  length-sort_by_id (Maps.values s.bp_responses) ∙ length-values s.bp_responses,
  find-sort_by_id id (Maps.values s.bp_responses) ∙ find-values id s.bp_responses v.keyed,
)

-- An unknown id is an error that changes nothing.
pub remove_unknown :
    (id : ℤ) (s : SessionManager)
    → breakpoint_info id s ≡ none
    → remove_breakpoint_by_id id s ≡ (err ("breakpoint ID " <> show_ℤ id <> " not found"), s)
unfolding remove_breakpoint_by_id breakpoint_info
remove_unknown id s e = rw e

-- The two kinds differ.
pub source_ne_function : ◌≢◌ {A = String} "source" "function"
source_ne_function = ground (arith, eq_iff "source" "function")

-- The removal of an id that the session has forgets it and no other id. Of the active lists only the
-- one of its kind, and for a source breakpoint of its file, changes, by its first entry with the
-- line or the name.
pub remove_known :
    (id j : ℤ) (file : String) (s : SessionManager) (info : BreakpointInfo)
    → breakpoint_info id s ≡ some info
    → (breakpoint_info j (remove_breakpoint_by_id id s).1
        ≡ (if id == j then none else breakpoint_info j s))
      × (source_breakpoints_for_file file (remove_breakpoint_by_id id s).1 ≡ (
          if info.ty == "source"
          then (if info.file == file
              then remove_first (same_line info) (source_breakpoints_for_file file s)
              else source_breakpoints_for_file file s)
          else source_breakpoints_for_file file s))
      × (all_function_breakpoints (remove_breakpoint_by_id id s).1 ≡ (
          if info.ty == "function"
          then remove_first (same_name info) (all_function_breakpoints s)
          else all_function_breakpoints s))
unfolding remove_breakpoint_by_id breakpoint_info source_breakpoints_for_file remove_first
remove_known id j file s info e =
    rw (e, remove_found)
      (ground (
        arith,
        Maps.get-remove id j s.bp_responses,
        Maps.get_list-modify info.file file (remove_first (same_line info)) s.source_bps refl,
        eq_iff info.ty "source",
        eq_iff info.ty "function",
        source_ne_function,
      ))
