-- ===== src/Undo.antt =====
-- The undoing half of undo.c: primitive-undo.
pub mod Insertion
pub mod Deletion
pub mod RoundTrip
use holomacs.Prelude.{
  ℕ, zero, suc, ◌+◌, ◌-◌, ◌*◌, ◌^◌, Bool, true, false, ◌||◌, List, [], ◌∷◌, ltb, ◌==◌,
  if◌then◌else◌, ℤ, pos, negsuc,
}
use holomacs.Editor.{
  Editor, Signal, outside_visible, Run, ok, signal, fault, Cmd, and_then, ◌>>=◌, ◌>>◌, modify,
  UndoEntry, boundary, insertion, deletion, first_change, Host,
}
use holomacs.Editfns.{goto_char}
use holomacs.Editfns.Edit.{string, finsert, finsert_before_markers, delete_region}

-- SET_PT
abbrev pub set_pt : ℕ → Editor → Editor
set_pt p e = record e { pt = p }

-- A position that cannot be changed as it is not visible.
abbrev hidden : Editor → ℕ → Bool
hidden e p = ltb p e.begv || ltb e.zv p

module _ (host : Host) where
  unfoldable pub undo_insertion : (first end : ℕ) → Cmd (Unit {0})
  undo_insertion first end e =
      if ltb first e.begv || ltb e.zv end
      then signal outside_visible e
      else (do delete_region host first end; modify (goto_char (pos first))) e

  unfoldable pub undo_deletion : List ℕ → ℤ → Cmd (Unit {0})
  undo_deletion text (negsuc n) e =
      if hidden e (suc n)
      then signal outside_visible e
      else finsert host (string text ∷ []) (set_pt (suc n) e)
  undo_deletion text (pos p) e =
      if hidden e p
      then signal outside_visible e
      else (do finsert_before_markers host (string text ∷ []); modify (set_pt p)) (set_pt p e)

  -- The inner loop: the entries up to a boundary, the end of the list, or a first change that is
  -- not of the file as it is. What remains is returned.
  unfoldable pub undo_unit : List UndoEntry → Cmd (List UndoEntry)
  unfolding undo_insertion undo_deletion
  undo_unit [] e = ok [] e
  undo_unit (boundary ∷ list) e = ok list e
  undo_unit (first_change high low ∷ list) e =
      let rest = undo_unit list (record e { save_modified = e.modiff }) in
      if high * 2 ^ 16 + low == e.modtime then rest else ok list e
  undo_unit (insertion first end ∷ list) e =
      and_then (undo_insertion first end e) (λ _. undo_unit list)
  undo_unit (deletion text at ∷ list) e = and_then (undo_deletion text at e) (λ _. undo_unit list)

  unfoldable pub primitive_undo : ℕ → List UndoEntry → Cmd (List UndoEntry)
  unfolding undo_unit
  primitive_undo zero list e = ok list e
  primitive_undo (suc count) list e =
      and_then (undo_unit list e) (λ list'. primitive_undo count list')
