-- ===== src/Insdel.antt =====
-- The second half of insdel.c: insertion and deletion in the current buffer.
pub mod Insert
pub mod Delete
pub mod BeforeMarkers
use holomacs.Prelude.{
  ℕ, zero, suc, ◌+◌, ◌-◌, ◌%◌, ◌^◌, ◌≡◌, Bool, true, false, not, ◌&&◌, ◌||◌, Option, none, some,
  List, [], ◌∷◌, ltb, leb, ◌==◌, if◌then◌else◌, ℤ, pos, negsuc, sub_ℕ, length, take,
}
use holomacs.Editor.{
  Editor, Signal, buffer_read_only, file_supersession, buffer_too_large, Run, ok, signal, fault,
  Cmd, and_then, ◌>>=◌, ◌>>◌, skip, modify, when, poke, Host,
}
use holomacs.Gap.{adjust_markers, gap_left, gap_right, move_gap, make_gap, with_bytes}
use holomacs.UndoList.{record_insert, record_delete}

-- XINT of XSET: a Lisp integer keeps 55 bits of a number, the highest its sign.
abbrev pub xint : ℕ → ℤ
xint w = let v = w % 2 ^ 55 in if ltb v (2 ^ 54) then pos v else negsuc (2 ^ 55 - v - 1)

abbrev pub same_int : ℕ → ℤ → Bool
same_int n (pos m) = n == m
same_int n (negsuc m) = false

module _ (host : Host) where
  unfoldable pub prepare_to_modify_buffer : Cmd (Unit {0})
  prepare_to_modify_buffer e =
      if e.read_only
      then signal buffer_read_only e
      else if e.visiting && leb e.modiff e.save_modified && not (host.may_modify e)
      then signal file_supersession e
      else ok tt e

-- bcopy of a string to an address.
unfoldable pub bcopy : (room : ℕ) → (ℕ → ℕ) → ℕ → List ℕ → Option (ℕ → ℕ)
bcopy room m a [] = some m
bcopy room m a (c ∷ cs) = elim (poke room m a c) [
  | none ↦ none
  | some m' ↦ bcopy room m' (a + 1) cs
]

-- The counts after `n` characters have come to stand before the gap.
unfoldable pub advance : ℕ → Editor → Editor
advance n e = record e {
  gap_size = e.gap_size - n;
  gpt = e.gpt + n;
  zv = e.zv + n;
  z = e.z + n;
  pt = e.pt + n;
}

-- MODIFF++
abbrev pub count_change : Editor → Editor
count_change e = record e { modiff = e.modiff + 1 }

module _ (host : Host) where
  unfoldable pub insert : List ℕ → Cmd (Unit {0})
  unfolding prepare_to_modify_buffer bcopy advance
  insert string e =
      if ltb (length string) 1
      then ok tt e
      else (do
        λ e.
            if same_int (length string + e.z) (xint (length string + e.z))
            then ok tt e
            else signal buffer_too_large e
        prepare_to_modify_buffer host
        λ e. when (not (e.pt == e.gpt)) (move_gap e.pt) e
        λ e. when (ltb e.gap_size (length string)) (make_gap host (length string - e.gap_size)) e
        modify (λ e. record_insert e.pt (length string) e)
        modify count_change
        λ e. with_bytes (bcopy e.room e.beg (e.gpt - 1) string) e
        modify (advance (length string)))
          e

  unfoldable pub insert_char : ℕ → Cmd (Unit {0})
  unfolding insert
  insert_char c = insert (c ∷ [])

  -- The bytes come from the beginning of the string, whatever `position` says.
  unfoldable pub insert_from_string : List ℕ → (position length : ℕ) → Cmd (Unit {0})
  unfolding insert
  insert_from_string string position n e =
      if ltb (length string) n then fault else insert (take n string) e

  unfoldable pub insert_before_markers : List ℕ → Cmd (Unit {0})
  unfolding insert
  insert_before_markers string e =
      (do insert string; modify (adjust_markers (e.pt - 1) e.pt (pos (length string)))) e

  unfoldable pub insert_from_string_before_markers : List ℕ → (position length : ℕ) → Cmd (Unit {0})
  unfolding insert_from_string
  insert_from_string_before_markers string position n e =
      (do insert_from_string string position n; modify (adjust_markers (e.pt - 1) e.pt (pos n))) e

-- Relocate point as if it were a marker.
abbrev pub relocate : (from to numdel p : ℕ) → ℕ
relocate from to numdel p = if ltb from p then if ltb p to then from else p - numdel else p

abbrev at_most : ℕ → ℕ → ℕ
at_most a b = if ltb a b then a else b

-- The arguments of del_range, made valid.
abbrev pub clip_low : Editor → ℕ → ℕ
clip_low e from = if ltb from e.begv then e.begv else from

abbrev pub clip_high : Editor → ℕ → ℕ
clip_high e to = if ltb e.zv to then e.zv else to

-- The text from `from` to `to` becomes part of the gap, which lies in it or beside it.
unfoldable pub close_over : (from to : ℕ) → Editor → Editor
unfolding adjust_markers
close_over from to e =
    let numdel = to - from in
    let e1 = record e { pt = relocate from to numdel e.pt } in
    let e2 =
      adjust_markers (to + e1.gap_size) (to + e1.gap_size) (sub_ℕ 0 (numdel + e1.gap_size)) e1 in
    let e3 = record e2 {
      gap_size = e2.gap_size + numdel;
      zv = e2.zv - numdel;
      z = e2.z - numdel;
      gpt = from;
    } in
    record e3 {
      beg_unchanged = at_most (e3.gpt - 1) e3.beg_unchanged;
      end_unchanged = at_most (e3.z - e3.gpt) e3.end_unchanged;
    }

module _ (host : Host) where
  -- del_range on arguments that have been made valid.
  unfoldable pub delete_clipped : (from to : ℕ) → Cmd (Unit {0})
  unfolding prepare_to_modify_buffer close_over
  delete_clipped from to e =
      if leb to from
      then ok tt e
      else (do
        λ e. when (ltb e.gpt from) (gap_right from) e
        λ e. when (ltb to e.gpt) (gap_left to false) e
        prepare_to_modify_buffer host
        record_delete from (to - from)
        modify count_change
        modify (close_over from to))
          e

  unfoldable pub del_range : (from to : ℕ) → Cmd (Unit {0})
  unfolding delete_clipped
  del_range from to e = delete_clipped (clip_low e from) (clip_high e to) e

  unfoldable pub modify_region : (start end : ℕ) → Cmd (Unit {0})
  unfolding prepare_to_modify_buffer
  modify_region start end = do
    prepare_to_modify_buffer host
    modify (λ e. record e {
      beg_unchanged =
          if ltb (start - 1) e.beg_unchanged || e.unchanged_modified == e.modiff
          then start - 1
          else e.beg_unchanged;
      end_unchanged =
          if ltb (e.z - end) e.end_unchanged || e.unchanged_modified == e.modiff
          then e.z - end
          else e.end_unchanged;
      modiff = e.modiff + 1;
    })
