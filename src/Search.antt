-- ===== src/Search.antt =====
-- search.c: scan_buffer, find_next_newline and skip_chars.
pub mod Scan
pub mod SkipChars
use holomacs.Prelude.{
  ℕ, zero, suc, ◌+◌, ◌-◌, ◌≡◌, Bool, true, false, not, ◌&&◌, ◌||◌, Option, none, some, List, [],
  ◌∷◌, ltb, leb, ◌==◌, if◌then◌else◌, ℤ, pos, negsuc, ◌+ℤ◌, ◌-ℤ◌, min, ltb_ℤ,
}
use holomacs.Editor.{Editor, Run, ok, fault, Cmd, and_then, ◌>>=◌, pure, char_at, char_address}

-- BUFFER_CEILING_OF and BUFFER_FLOOR_OF
abbrev pub buffer_ceiling_of : Editor → ℕ → ℕ
buffer_ceiling_of e n = (if ltb n e.gpt && ltb e.gpt e.zv then e.gpt else e.zv) - 1

abbrev pub buffer_floor_of : Editor → ℕ → ℕ
buffer_floor_of e n = if leb e.begv e.gpt && leb e.gpt n then e.gpt else e.begv

abbrev pub is_zero : ℤ → Bool
is_zero (pos n) = n == 0
is_zero (negsuc n) = false

-- `while (*cursor != target && ++cursor != limit);`
unfoldable pub seek_right : (rounds : ℕ) → (ℕ → ℕ) → (target limit cursor : ℕ) → ℕ
seek_right zero m target limit c = c
seek_right (suc k) m target limit c =
    let rest = seek_right k m target limit (c + 1) in
    if m c == target then c else if c + 1 == limit then limit else rest

-- What the scan of a block of bytes comes to: the last occurrence that was asked for, or the end of
-- the block with what is left of the count.
pub data Block : Type 0 where
  hit : (cursor : ℕ) → Block
  miss : (cursor : ℕ) → (cnt : ℤ) → Block
  lost : Block

-- The inner `while (1)` of scan_buffer to the right.
unfoldable pub block_right : (rounds : ℕ) → (ℕ → ℕ) → (target limit cursor : ℕ) → (cnt : ℤ) → Block
unfolding seek_right
block_right zero m target limit c cnt = lost
block_right (suc k) m target limit c cnt =
    let at = seek_right (limit - c) m target limit c in
    let rest = block_right k m target limit (at + 1) (cnt -ℤ pos 1) in
    if at == limit
    then miss at cnt
    else if is_zero (cnt -ℤ pos 1)
    then hit at
    else if at + 1 == limit
    then miss limit (cnt -ℤ pos 1)
    else rest

-- The scan to the left has its addresses one up, as its limit may lie one before the text:
-- `while (--cursor != limit && *cursor != target);`
unfoldable pub seek_left : (rounds : ℕ) → (ℕ → ℕ) → (target limit cursor : ℕ) → ℕ
seek_left zero m target limit c = c
seek_left (suc k) m target limit c =
    let rest = seek_left k m target limit (c - 1) in
    if c - 1 == limit then limit else if m (c - 1 - 1) == target then c - 1 else rest

-- The inner `while (1)` of scan_buffer to the left.
unfoldable pub block_left : (rounds : ℕ) → (ℕ → ℕ) → (target limit cursor : ℕ) → (cnt : ℤ) → Block
unfolding seek_left
block_left zero m target limit c cnt = lost
block_left (suc k) m target limit c cnt =
    let at = seek_left (c - limit) m target limit c in
    let rest = block_left k m target limit at (cnt +ℤ pos 1) in
    if at == limit then miss at cnt else if is_zero (cnt +ℤ pos 1) then hit at else rest

module _ (ceiling floor : Editor → ℕ → ℕ) where
  -- The outer loops of scan_buffer, with the position and the shortage that it comes to; `none` is
  -- a loop out of rounds.
  unfoldable pub scan_right :
      (rounds : ℕ) → Editor → (target pos lim : ℕ) → (cnt : ℤ) → Option (ℕ × ℤ)
  unfolding block_right
  scan_right zero e target at lim cnt = none
  scan_right (suc k) e target at lim cnt =
      if at == lim + 1
      then some (at, cnt)
      else (let limit = char_address e (min lim (ceiling e at)) + 1 in
          let base = char_address e at in
          elim (block_right (suc (limit - base)) e.beg target limit base cnt) [
            | hit c ↦ some (at + c - base + 1, pos 0)
            | miss c cnt' ↦ scan_right k e target (at + c - base) lim cnt'
            | lost ↦ none
          ])

  -- `at` is one behind the first character of the scan.
  unfoldable pub scan_left :
      (rounds : ℕ) → Editor → (target pos lim : ℕ) → (cnt : ℤ) → Option (ℕ × ℤ)
  unfolding block_left
  scan_left zero e target at lim cnt = none
  scan_left (suc k) e target at lim cnt =
      if leb at lim
      then some (at, pos 0 -ℤ cnt)
      else (let low = floor e (at - 1) in
          let limit = char_address e (if ltb low lim then lim else low) in
          let base = char_address e (at - 1) in
          elim (block_left (suc (base + 1 - limit)) e.beg target limit (base + 2) cnt) [
            | hit c ↦ some (at - 1 + c - base, pos 0)
            | miss c cnt' ↦ scan_left k e target (at + c - (base + 1)) lim cnt'
            | lost ↦ none
          ])

  -- scan_buffer, with the position and *shortage.
  unfoldable pub scan_buffer : (target pos : ℕ) → (cnt : ℤ) → Cmd (ℕ × ℤ)
  unfolding scan_right scan_left
  scan_buffer target at cnt e =
      elim (if ltb_ℤ (pos 0) cnt
        then scan_right (suc (e.zv - at)) e target at (e.zv - 1) cnt
        else scan_left (suc (at - e.begv)) e target at e.begv cnt) [
          | none ↦ fault
          | some r ↦ ok r e
        ]

  unfoldable pub find_next_newline : (from : ℕ) → (cnt : ℤ) → Cmd ℕ
  unfolding scan_buffer
  find_next_newline from cnt = do (at, shortage) ← scan_buffer b'\n' from cnt; pure at
