-- ===== src/Context/Summary.antt =====
-- os/context/compress.py: `trim_completed_summary_items`, on the lines of a summary. The text is split
-- into lines before, and joined and stripped after.
pub mod Trim
mod Local
mod Examples
use text.Mathlib.Text.{starts_with}
use turtlemap.Prelude.{
  ℕ, zero, suc, ◌+◌, ◌-◌, Bool, Option, none, some, List, [], ◌∷◌, ◌++◌, String, length, take, drop,
  leb, if◌then◌else◌,
}
use turtlemap.Prelude.Eq.{◌==◌, string_eq}
use turtlemap.Prelude.Text.{strip}

abbrev pub is_completed_heading : String → Bool
is_completed_heading line = strip line == "### Completed"

abbrev pub is_heading : String → Bool
is_heading line = starts_with line "### "

abbrev pub is_item : String → Bool
is_item line = starts_with line "- "

-- `_find_completed_section_start`, from position `i`
unfoldable pub find_completed_section_start : ℕ → List String → Option ℕ
find_completed_section_start i [] = none
find_completed_section_start i (line ∷ lines) =
    let rest = find_completed_section_start (suc i) lines in
    if is_completed_heading line then some i else rest

-- `_find_next_summary_section_start`: the loop over the lines from position `i` on
unfoldable pub find_next_summary_section_start : ℕ → List String → ℕ
find_next_summary_section_start i [] = i
find_next_summary_section_start i (line ∷ lines) =
    let rest = find_next_summary_section_start (suc i) lines in if is_heading line then i else rest

-- the head lines and the blocks of the loop in `_trim_markdown_list_items`
abbrev pub Blocks : Type 0
Blocks = List String × List (List String)

-- `current_block.append(line)`: the current block is the last one
abbrev pub append_to_last : String → List (List String) → List (List String)
append_to_last line [] = []
append_to_last line (b ∷ []) = (b ++ line ∷ []) ∷ []
append_to_last line (b ∷ c ∷ bs) = b ∷ append_to_last line (c ∷ bs)

abbrev pub add_other : String → Blocks → Blocks
add_other line (head, []) = (head ++ line ∷ [], [])
add_other line (head, b ∷ bs) = (head, append_to_last line (b ∷ bs))

abbrev pub add_line : String → Blocks → Blocks
add_line line (head, bs) =
    if is_item line then (head, bs ++ (line ∷ []) ∷ []) else add_other line (head, bs)

unfoldable pub collect_blocks : List String → Blocks → Blocks
collect_blocks [] bs = bs
collect_blocks (line ∷ lines) bs = collect_blocks lines (add_line line bs)

-- `xs[-k:]`, which is all of `xs` for `k = 0`
abbrev pub last_blocks : ℕ → List (List String) → List (List String)
last_blocks zero bs = bs
last_blocks (suc k) bs = drop (length bs - suc k) bs

abbrev pub concat : List (List String) → List String
concat [] = []
concat (b ∷ bs) = b ++ concat bs

abbrev pub trim_blocks : ℕ → List String → Blocks → List String
trim_blocks k lines (head, bs) =
    if leb (length bs) k then lines else head ++ concat (last_blocks k bs)

-- `_trim_markdown_list_items`
unfoldable pub trim_markdown_list_items : ℕ → List String → List String
trim_markdown_list_items k lines = trim_blocks k lines (collect_blocks lines ([], []))

abbrev pub trim_section : ℕ → List String → Option ℕ → List String
trim_section k lines none = lines
trim_section k lines (some start) =
    let end = find_next_summary_section_start (start + 1) (drop (start + 1) lines) in
    take start lines ++ trim_markdown_list_items k (drop start (take end lines)) ++ drop end lines

-- `trim_completed_summary_items`, on lines
unfoldable pub trim_completed_summary_items : ℕ → List String → List String
trim_completed_summary_items k lines = trim_section k lines (find_completed_section_start 0 lines)
