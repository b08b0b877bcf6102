-- ===== src/Context/Summary/Local.antt =====
-- os/context/compress.py `trim_completed_summary_items`: the section that is trimmed, and the rest.
use turtlemap.Prelude.{
  ℕ, suc, ◌+◌, ◌≡◌, refl, ap, sym, ◌∙◌, true, false, none, some, List, [], ◌∷◌, ◌++◌, String, arith,
  length, length-append, take, drop, drop-append, append_assoc, Bool-cases, inl, inr, ◌⊎◌, All,
}
use turtlemap.Context.Summary.{
  is_completed_heading, is_heading, find_next_summary_section_start, find_completed_section_start,
  trim_section, trim_markdown_list_items, trim_completed_summary_items,
}
use turtlemap.Context.Summary.Trim.{IsTrimmed, trim-IsTrimmed}

-- no line, or a heading first
abbrev pub BeginsHeading : List String → Type 0
BeginsHeading [] = Unit
BeginsHeading (line ∷ lines) = is_heading line ≡ true

-- `result` is `lines` with its first completed section, up to the next heading, trimmed to `n` items.
pub data IsLocal (n : ℕ) (lines result : List String) : Type 0 where
  untouched :
      All (λ line. is_completed_heading line ≡ false) lines
      → result ≡ lines
      → IsLocal n lines result
  local :
      (before : List String) (heading : String) (section after trimmed : List String)
      → lines ≡ before ++ ((heading ∷ section) ++ after)
      → All (λ line. is_completed_heading line ≡ false) before
      → is_completed_heading heading ≡ true
      → All (λ line. is_heading line ≡ false) section
      → BeginsHeading after
      → IsTrimmed n (heading ∷ section) trimmed
      → result ≡ before ++ (trimmed ++ after)
      → IsLocal n lines result

take-append : (xs ys : List String) → take (length xs) (xs ++ ys) ≡ xs
take-append [] ys = refl
take-append (x ∷ xs) ys = ap (λ zs. x ∷ zs) (take-append xs ys)

-- what the search for the completed section finds
record IsFound (i : ℕ) (lines : List String) : Type 0 where
  before : List String
  heading : String
  rest : List String
  whole : lines ≡ before ++ heading ∷ rest
  none_before : All (λ line. is_completed_heading line ≡ false) before
  is_completed : is_completed_heading heading ≡ true
  position : find_completed_section_start i lines ≡ some (i + length before)

find-cases :
    (i : ℕ) (lines : List String)
    → ((find_completed_section_start i lines ≡ none)
        × All (λ line. is_completed_heading line ≡ false) lines)
      ⊎ IsFound i lines
unfolding find_completed_section_start
find-cases i [] = inl (refl, tt)
find-cases i (line ∷ lines) = elim (Bool-cases (is_completed_heading line)) [
  | inl here ↦ inr (record {
    before = [];
    heading = line;
    rest = lines;
    whole = refl;
    none_before = tt;
    is_completed = here;
    position = rw here (ap some (omega arith));
  })
  | inr other ↦ elim (find-cases (suc i) lines) [
    | inl (absent, all) ↦ inl (rw other absent, (other, all))
    | inr f ↦ inr (record {
      before = line ∷ f.before;
      heading = f.heading;
      rest = f.rest;
      whole = ap (λ zs. line ∷ zs) f.whole;
      none_before = (other, f.none_before);
      is_completed = f.is_completed;
      position = rw other (f.position ∙ ap some (omega arith));
    })
  ]
]

-- what the search for the next heading finds
record IsNext (i : ℕ) (lines : List String) : Type 0 where
  section : List String
  after : List String
  whole : lines ≡ section ++ after
  no_heading : All (λ line. is_heading line ≡ false) section
  next : BeginsHeading after
  position : find_next_summary_section_start i lines ≡ i + length section

found_end-IsNext : (i : ℕ) (lines : List String) → IsNext i lines
unfolding find_next_summary_section_start
found_end-IsNext i [] = record {
  section = [];
  after = [];
  whole = refl;
  no_heading = tt;
  next = tt;
  position = omega arith;
}
found_end-IsNext i (line ∷ lines) = elim (Bool-cases (is_heading line)) [
  | inl here ↦ record {
    section = [];
    after = line ∷ lines;
    whole = refl;
    no_heading = tt;
    next = here;
    position = rw here (omega arith);
  }
  | inr other ↦
      let n = found_end-IsNext (suc i) lines in
      record {
        section = line ∷ n.section;
        after = n.after;
        whole = ap (λ zs. line ∷ zs) n.whole;
        no_heading = (other, n.no_heading);
        next = n.next;
        position = rw other (n.position ∙ omega arith);
      }
]

-- the slices of `lines` around `mid`
slices :
    (k : ℕ) (before mid after : List String)
    → take (length before) (before ++ (mid ++ after))
        ++ trim_markdown_list_items k
            (drop (length before) (take (length before + length mid) (before ++ (mid ++ after))))
        ++ drop (length before + length mid) (before ++ (mid ++ after))
      ≡ before ++ (trim_markdown_list_items k mid ++ after)
slices k before mid after =
    let lines : List String = before ++ (mid ++ after) in
    let whole : (before ++ mid) ++ after ≡ lines = append_assoc before mid after in
    let size : length before + length mid ≡ length (before ++ mid) =
      sym (length-append before mid) in
    let front : take (length before + length mid) lines ≡ before ++ mid =
      ap (λ n. take n lines) size
      ∙ ap (take (length (before ++ mid))) (sym whole)
      ∙ take-append (before ++ mid) after in
    let back : drop (length before + length mid) lines ≡ after =
      ap (λ n. drop n lines) size
      ∙ ap (drop (length (before ++ mid))) (sym whole)
      ∙ drop-append (before ++ mid) after in
    rw (take-append before (mid ++ after), front, drop-append before mid, back)
      (append_assoc before (trim_markdown_list_items k mid) after)

found-IsLocal :
    (k : ℕ) (lines : List String) (f : IsFound 0 lines)
    → IsLocal (suc k) lines (trim_section (suc k) lines (some (length f.before)))
found-IsLocal k lines f =
    let s : ℕ = length f.before in
    let n : IsNext (s + 1) f.rest = found_end-IsNext (s + 1) f.rest in
    let mid : List String = f.heading ∷ n.section in
    let whole : lines ≡ f.before ++ (mid ++ n.after) =
      f.whole ∙ ap (λ r. f.before ++ f.heading ∷ r) n.whole in
    let rest : drop (s + 1) lines ≡ f.rest =
      ap (drop (s + 1)) (f.whole ∙ sym (append_assoc f.before (f.heading ∷ []) f.rest))
      ∙ ap (λ m. drop m ((f.before ++ f.heading ∷ []) ++ f.rest))
          (sym (length-append f.before (f.heading ∷ [])))
      ∙ drop-append (f.before ++ f.heading ∷ []) f.rest in
    let end : find_next_summary_section_start (s + 1) (drop (s + 1) lines) ≡ s + length mid =
      ap (find_next_summary_section_start (s + 1)) rest ∙ n.position ∙ omega arith in
    local f.before f.heading n.section n.after (trim_markdown_list_items (suc k) mid) whole
      f.none_before f.is_completed n.no_heading n.next (trim-IsTrimmed k mid)
      (ap
          (λ e.
            take s lines
            ++ trim_markdown_list_items (suc k) (drop s (take e lines))
            ++ drop e lines)
          end
        ∙ ap
            (λ l.
              take s l
              ++ trim_markdown_list_items (suc k) (drop s (take (s + length mid) l))
              ++ drop (s + length mid) l)
            whole
        ∙ slices (suc k) f.before mid n.after)

-- A summary that is trimmed to some number of items, which is not 0, stays as it is if no line is
-- a heading of completed items; otherwise the first such heading, with the lines up to the next
-- heading, is trimmed to that many, and every line before and after these stays.
pub trim_completed-IsLocal :
    (k : ℕ) (lines : List String)
    → IsLocal (suc k) lines (trim_completed_summary_items (suc k) lines)
unfolding trim_completed_summary_items
trim_completed-IsLocal k lines = elim (find-cases 0 lines) [
  | inl (absent, all) ↦ untouched all (ap (trim_section (suc k) lines) absent)
  | inr f ↦
      let start : find_completed_section_start 0 lines ≡ some (length f.before) =
        f.position ∙ ap some (omega arith) in
      rw start (found-IsLocal k lines f)
]
