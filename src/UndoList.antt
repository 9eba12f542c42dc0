-- ===== src/UndoList.antt =====
-- The recording half of undo.c: what goes on `buffer-undo-list`.
use holomacs.Prelude.{
  ℕ, ◌+◌, ◌/◌, ◌%◌, ◌^◌, Bool, true, false, List, [], ◌∷◌, leb, ◌==◌, if◌then◌else◌, ℤ, pos, sub_ℕ,
}
use holomacs.Editor.{
  Editor, UndoEntry, boundary, insertion, deletion, first_change, UndoList, disabled, entries, Cmd,
  ok, and_then, ◌>>◌, modify,
}
use holomacs.Editfns.{buffer_substring}

-- Fundo_boundary on the list: the car of an empty list is nil, as a boundary is.
unfoldable pub undo_boundary : UndoList → UndoList
undo_boundary disabled = disabled
undo_boundary (entries []) = entries []
undo_boundary (entries (boundary ∷ l)) = entries (boundary ∷ l)
undo_boundary (entries (insertion a b ∷ l)) = entries (boundary ∷ insertion a b ∷ l)
undo_boundary (entries (deletion t a ∷ l)) = entries (boundary ∷ deletion t a ∷ l)
undo_boundary (entries (first_change a b ∷ l)) = entries (boundary ∷ first_change a b ∷ l)

unfoldable pub record_first_change : ℕ → UndoList → UndoList
record_first_change modtime disabled = disabled
record_first_change modtime (entries l) =
    entries (first_change (modtime / 2 ^ 16 % 2 ^ 16) (modtime % 2 ^ 16) ∷ l)

-- What record_insert and record_delete do before they record: a boundary where the last change
-- was in another buffer, and the first change since the file was saved.
unfoldable pub prepare_list : Editor → UndoList
unfolding undo_boundary record_first_change
prepare_list e =
    let l = if e.self == e.last_undo_buffer then e.undo_list else undo_boundary e.undo_list in
    if leb e.modiff e.save_modified then record_first_change e.modtime l else l

-- An insertion that follows on another one is joined to it.
unfoldable pub add_insertion : (first length : ℕ) → List UndoEntry → List UndoEntry
add_insertion first n [] = insertion first (first + n) ∷ []
add_insertion first n (insertion a b ∷ l) =
    if b == first
    then insertion a (first + n) ∷ l
    else insertion first (first + n) ∷ insertion a b ∷ l
add_insertion first n (x ∷ l) = insertion first (first + n) ∷ x ∷ l

unfoldable pub with_insertion : (first length : ℕ) → UndoList → UndoList
unfolding add_insertion
with_insertion first n disabled = disabled
with_insertion first n (entries l) = entries (add_insertion first n l)

unfoldable pub record_insert : (first length : ℕ) → Editor → Editor
unfolding prepare_list with_insertion
record_insert first n e = record e {
  undo_list = with_insertion first n (prepare_list e);
  last_undo_buffer = e.self;
}

unfoldable pub with_deletion : List ℕ → ℤ → UndoList → UndoList
with_deletion text at disabled = disabled
with_deletion text at (entries l) = entries (deletion text at ∷ l)

abbrev pub is_disabled : UndoList → Bool
is_disabled disabled = true
is_disabled (entries l) = false

-- Nothing is copied where nothing is recorded. The position is negative where point was behind
-- the text.
unfoldable pub record_delete : (first length : ℕ) → Cmd (Unit {0})
unfolding prepare_list with_deletion
record_delete first n e =
    let e' = record e { undo_list = prepare_list e; last_undo_buffer = e.self } in
    let at = if e.pt == first + n then sub_ℕ 0 first else pos first in
    if is_disabled e.undo_list
    then ok tt e'
    else and_then (buffer_substring first (first + n) e')
        (λ text e''. ok tt (record e'' { undo_list = with_deletion text at e''.undo_list }))

unfoldable pub record_change : (first length : ℕ) → Cmd (Unit {0})
unfolding record_delete record_insert
record_change first n = do record_delete first n; modify (record_insert first n)
