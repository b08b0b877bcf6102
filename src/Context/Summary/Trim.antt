-- ===== src/Context/Summary/Trim.antt =====
-- os/context/compress.py `_trim_markdown_list_items`: what it keeps of a section.
use turtlemap.Prelude.{
  ℕ, suc, ◌+◌, ◌-◌, ◌≡◌, refl, ap, sym, ◌∙◌, true, false, List, [], ◌∷◌, ◌++◌, String, arith,
  length, take, drop, leb, min, if◌then◌else◌, Bool-cases, inl, inr, All, All-append, All-drop,
  length-drop, take-append-drop, append-nil, append_assoc, subst,
}
use turtlemap.Context.Summary.{
  is_item, Blocks, append_to_last, add_other, add_line, collect_blocks, concat, trim_blocks,
  trim_markdown_list_items,
}

abbrev pub count_items : List String → ℕ
count_items [] = 0
count_items (line ∷ lines) = let rest = count_items lines in if is_item line then suc rest else rest

count_items-append :
    (xs ys : List String) → count_items (xs ++ ys) ≡ count_items xs + count_items ys
count_items-append [] ys = omega arith
count_items-append (x ∷ xs) ys = elim (Bool-cases (is_item x)) [
  | inl item ↦ rw item (omega (arith, count_items-append xs ys))
  | inr other ↦ rw other (count_items-append xs ys)
]

concat-append : (xs ys : List (List String)) → concat (xs ++ ys) ≡ concat xs ++ concat ys
concat-append [] ys = refl
concat-append (x ∷ xs) ys =
    ap (λ z. x ++ z) (concat-append xs ys) ∙ sym (append_assoc x (concat xs) (concat ys))

-- the first line is an item
abbrev Begins : List String → Type 0
Begins [] = ⊥
Begins (line ∷ lines) = is_item line ≡ true

-- Each block begins with its item, and has no other; the head has none.
abbrev IsBlock : List String → Type 0
IsBlock b = (count_items b ≡ 1) × Begins b

Begins-append : (xs ys : List String) → Begins xs → Begins (xs ++ ys)
Begins-append [] ys h = absurd h
Begins-append (x ∷ xs) ys h = h

-- The lines read so far, in their order.
record IsSplit (read : List String) (bs : Blocks) : Type 0 where
  whole : bs.0 ++ concat bs.1 ≡ read
  blocks : All IsBlock bs.1
  no_item : count_items bs.0 ≡ 0

append_to_last-concat :
    (line : String) (b : List String) (bs : List (List String))
    → concat (append_to_last line (b ∷ bs)) ≡ concat (b ∷ bs) ++ line ∷ []
append_to_last-concat line b [] =
    append-nil (b ++ line ∷ []) ∙ ap (λ z. z ++ line ∷ []) (sym (append-nil b))
append_to_last-concat line b (c ∷ bs) =
    ap (λ z. b ++ z) (append_to_last-concat line c bs)
    ∙ sym (append_assoc b (concat (c ∷ bs)) (line ∷ []))

append_to_last-blocks :
    (line : String) (bs : List (List String))
    → is_item line ≡ false
    → All IsBlock bs
    → All IsBlock (append_to_last line bs)
append_to_last-blocks line [] other h = tt
append_to_last-blocks line (b ∷ []) other h = (
  (
    rw (count_items-append b (line ∷ []), other) (omega (arith, h.0.0)),
    Begins-append b (line ∷ []) h.0.1,
  ),
  tt,
)
append_to_last-blocks line (b ∷ c ∷ bs) other h =
    (h.0, append_to_last-blocks line (c ∷ bs) other h.1)

add_other-IsSplit :
    (line : String) (read : List String) (bs : Blocks)
    → is_item line ≡ false
    → IsSplit read bs
    → IsSplit (read ++ line ∷ []) (add_other line bs)
add_other-IsSplit line read (head, []) other w = record {
  whole =
      append-nil (head ++ line ∷ []) ∙ ap (λ z. z ++ line ∷ []) (sym (append-nil head) ∙ w.whole);
  blocks = tt;
  no_item = rw (count_items-append head (line ∷ []), other) (omega (arith, w.no_item));
}
add_other-IsSplit line read (head, b ∷ bs) other w = record {
  whole =
      ap (λ z. head ++ z) (append_to_last-concat line b bs)
      ∙ sym (append_assoc head (concat (b ∷ bs)) (line ∷ []))
      ∙ ap (λ z. z ++ line ∷ []) w.whole;
  blocks = append_to_last-blocks line (b ∷ bs) other w.blocks;
  no_item = w.no_item;
}

add_item-IsSplit :
    (line : String) (read : List String) (bs : Blocks)
    → is_item line ≡ true
    → IsSplit read bs
    → IsSplit (read ++ line ∷ []) (bs.0, bs.1 ++ (line ∷ []) ∷ [])
add_item-IsSplit line read (head, bs) item w = record {
  whole =
      ap (λ z. head ++ z) (concat-append bs ((line ∷ []) ∷ []))
      ∙ sym (append_assoc head (concat bs) (line ∷ []))
      ∙ ap (λ z. z ++ line ∷ []) w.whole;
  blocks = All-append IsBlock bs ((line ∷ []) ∷ []) w.blocks ((rw item refl, item), tt);
  no_item = w.no_item;
}

add_line-IsSplit :
    (line : String) (read : List String) (bs : Blocks)
    → IsSplit read bs
    → IsSplit (read ++ line ∷ []) (add_line line bs)
add_line-IsSplit line read bs w = elim (Bool-cases (is_item line)) [
  | inl item ↦ rw item (add_item-IsSplit line read bs item w)
  | inr other ↦ rw other (add_other-IsSplit line read bs other w)
]

collect-IsSplit :
    (lines read : List String) (bs : Blocks)
    → IsSplit read bs
    → IsSplit (read ++ lines) (collect_blocks lines bs)
unfolding collect_blocks
collect-IsSplit [] read bs w = rw (append-nil read) w
collect-IsSplit (line ∷ lines) read bs w =
    rw (sym (append_assoc read (line ∷ []) lines)) (
      collect-IsSplit lines (read ++ line ∷ []) (add_line line bs)
        (add_line-IsSplit line read bs w))

count_items-blocks :
    (bs : List (List String)) → All IsBlock bs → count_items (concat bs) ≡ length bs
count_items-blocks [] h = refl
count_items-blocks (b ∷ bs) h =
    rw (count_items-append b (concat bs)) (omega (arith, h.0.0, count_items-blocks bs h.1))

trim_blocks-eq :
    (k : ℕ) (lines head : List String) (bs : List (List String))
    → lines ≡ head ++ concat bs
    → trim_blocks (suc k) lines (head, bs) ≡ head ++ concat (drop (length bs - suc k) bs)
trim_blocks-eq k lines head bs whole = elim (Bool-cases (leb (length bs) (suc k))) [
  | inr many ↦ rw many refl
  | inl few ↦
      let none_dropped : 0 ≡ length bs - suc k = ground arith in
      rw few (whole ∙ ap (λ n. head ++ concat (drop n bs)) none_dropped)
]

-- no line, or an item first
abbrev pub BeginsOrNil : List String → Type 0
BeginsOrNil [] = Unit
BeginsOrNil (line ∷ lines) = is_item line ≡ true

blocks-begin : (bs : List (List String)) → All IsBlock bs → BeginsOrNil (concat bs)
blocks-begin [] h = tt
blocks-begin ([] ∷ bs) h = absurd h.0.1
blocks-begin ((line ∷ b) ∷ bs) h = h.0.1

-- `trimmed` is `lines` without a run of lines after the head: the head is what stands before the first item,
-- and what is kept begins with an item and has `n` items, or all that the lines have if they are fewer.
pub record IsTrimmed (n : ℕ) (lines trimmed : List String) : Type 0 where
  pub head : List String
  pub dropped : List String
  pub kept : List String
  pub whole : lines ≡ head ++ (dropped ++ kept)
  pub rest : trimmed ≡ head ++ kept
  pub no_item : count_items head ≡ 0
  pub first_item : BeginsOrNil (dropped ++ kept)
  pub kept_item : BeginsOrNil kept
  pub items : count_items kept ≡ min n (count_items lines)

trim_blocks-IsTrimmed :
    (k : ℕ) (lines : List String) (bs : Blocks)
    → IsSplit lines bs
    → IsTrimmed (suc k) lines (trim_blocks (suc k) lines bs)
trim_blocks-IsTrimmed k lines (head, bs) w =
    let n = length bs - suc k in
    let split : concat (take n bs) ++ concat (drop n bs) ≡ concat bs =
      sym (concat-append (take n bs) (drop n bs)) ∙ ap concat (take-append-drop n bs) in
    let counted : count_items lines ≡ count_items head + count_items (concat bs) =
      ap count_items (sym w.whole) ∙ count_items-append head (concat bs) in
    let left : count_items (concat (drop n bs)) ≡ length bs - n =
      count_items-blocks (drop n bs) (All-drop IsBlock n bs w.blocks) ∙ length-drop n bs in
    record {
      head = head;
      dropped = concat (take n bs);
      kept = concat (drop n bs);
      whole = sym w.whole ∙ ap (λ z. head ++ z) (sym split);
      rest = trim_blocks-eq k lines head bs (sym w.whole);
      no_item = w.no_item;
      first_item = subst BeginsOrNil (sym split) (blocks-begin bs w.blocks);
      kept_item = blocks-begin (drop n bs) (All-drop IsBlock n bs w.blocks);
      items = omega (arith, left, counted, w.no_item, count_items-blocks bs w.blocks);
    }

-- Trimming a section to some number of items, which is not 0, leaves out a run of lines: what
-- stands before the first item stays, the lines that are kept behind it are the last ones, begin
-- with an item and have that number of items, or all of the section's if it has fewer.
pub trim-IsTrimmed :
    (k : ℕ) (lines : List String) → IsTrimmed (suc k) lines (trim_markdown_list_items (suc k) lines)
unfolding trim_markdown_list_items
trim-IsTrimmed k lines =
    trim_blocks-IsTrimmed k lines (collect_blocks lines ([], []))
      (collect-IsSplit lines [] ([], []) (record { whole = refl; blocks = tt; no_item = refl }))
