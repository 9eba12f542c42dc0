-- ===== src/Tests.antt =====
-- A small buffer, and each theorem applied to it.
pub mod Others
pub mod Lisp
pub mod Motion
pub mod Binding
pub mod Copies
use holomacs.Prelude.{
  ℕ, ◌+◌, ◌-◌, ◌*◌, ◌/◌, ◌%◌, ◌^◌, ◌≤◌, ◌<◌, ◌≡◌, refl, ◌⊎◌, inl, inr, true, false, not, ◌||◌, none,
  some, List, [], ◌∷◌, arith, ltb, leb, ◌==◌, if◌then◌else◌, pos, negsuc, has, get_or, take,
  Bool-cases,
}
use holomacs.Editor.{
  UndoEntry, boundary, insertion, deletion, first_change, UndoList, entries, Editor, Signal, quit,
  args_out_of_range, memory_full, Run, ok, signal, fault, Host, char_at,
}
use holomacs.Editor.View.{IsValid, Ends, Arrived, Stopped}
use holomacs.Gap.{adjust_pos, adjust_chain, gap_left, gap_right, move_gap, make_gap}
use holomacs.Gap.Adjust.{adjust_chain_lem}
use holomacs.Gap.Grow.{Grown, make_gap_grows}
use holomacs.Gap.Move.{move_gap_keeps}
use holomacs.Gap.Move.Left.{gap_left_keeps}
use holomacs.Gap.Move.Right.{gap_right_keeps}
use holomacs.Editfns.{goto_char, save_restriction_restore, narrow_to_region, widen}
use holomacs.Editfns.Edit.{erase_buffer}
use holomacs.Editfns.Edit.Erase.{Empty}
use holomacs.Strings.{string, string_equal, string_lessp, precedes, string_lessp-precedes}
use holomacs.Editfns.Restriction.{goto_char-IsValid, restore-IsValid}
use holomacs.Editfns.Substring.{substring}
use holomacs.UndoList.{record_delete}
use holomacs.Insdel.{insert, insert_before_markers, del_range, clip_low, clip_high, same_int, xint}
use holomacs.Insdel.Insert.{Inserted, insert_inserts, same_int-xint}
use holomacs.Insdel.Insert.Prepare.{NotDone}
use holomacs.Insdel.BeforeMarkers.{InsertedBefore, insert_before_markers_inserts}
use holomacs.Insdel.Delete.{del_range_deletes}
use holomacs.Insdel.Delete.Close.{Deleted}
use holomacs.Insdel.Delete.Record.{NotDeleted, Recorded, record_delete_lem}
use holomacs.Undo.RoundTrip.{
  Fresh, Interrupted, insert_then_undo, delete_then_undo, insert_then_undo_restores,
  delete_then_undo_restores, Reopened,
}
use holomacs.Undo.Insertion.{Restored, RestoredAll}
use holomacs.Marker.{World, done, unchain_marker}
use holomacs.Marker.Chains.{WellChained, unchain_marker_lem}
use holomacs.Truncate.{truncate_undo_list, IsCut, truncate_undo_list_lem}
use holomacs.Casefiddle.{
  case_capitalize, CaseTables, casify_chars, starts_inword, region_loop, casify_region,
}
use holomacs.Casefiddle.Region.{region_chars, region_loop_lem}
use holomacs.FileMode.{ModeBits, is_set, ftypelet, filemodestring, filemodestring_lem}

-- "hello" with a gap of three bytes after "he", point at the gap and a marker in front of it.
abbrev pub hello : Editor
hello = record {
  beg = λ a. get_or (104 ∷ 101 ∷ 0 ∷ 0 ∷ 0 ∷ 108 ∷ 108 ∷ 111 ∷ []) a 0;
  room = 8;
  begv = 1;
  pt = 3;
  gpt = 3;
  zv = 6;
  z = 6;
  gap_size = 3;
  modiff = 5;
  save_modified = 3;
  auto_save_modified = 3;
  modtime = 0;
  visiting = false;
  read_only = false;
  markers = 7 ∷ [];
  bufpos = λ m. 2;
  undo_list = entries (boundary ∷ []);
  self = 1;
  last_undo_buffer = 1;
  unchanged_modified = 4;
  beg_unchanged = 2;
  end_unchanged = 1;
  quit_flag = false;
  inhibit_quit = false;
  arrivals = false ∷ false ∷ [];
}

-- A system whose memory is never short, with a user who lets every change go on.
abbrev pub willing : Host
willing = record {
  realloc = λ m old new. some m;
  realloc_keeps = λ m old new e a h k. ground arith;
  may_modify = λ e. true;
}

pub hello-IsValid : IsValid hello
hello-IsValid = record {
  begv_low = omega arith;
  pt_low = omega arith;
  pt_high = omega arith;
  zv_high = omega arith;
  gpt_low = omega arith;
  gpt_high = omega arith;
  allocated = refl;
  chain = (refl, tt);
  placed = λ m h. (omega arith, omega arith, inl (omega arith));
}

hello-Fresh : Fresh [] hello
hello-Fresh = record { undo_list = refl; here = refl; changed = omega arith }

abbrev pub word : List ℕ
word = 97 ∷ 98 ∷ 99 ∷ 100 ∷ []

insert_then_undo_restores_example :
    Ends
      (λ rest e2. (rest ≡ []) × RestoredAll hello e2)
      (λ _. Interrupted (Inserted word hello) hello)
      (insert_then_undo willing word hello)
insert_then_undo_restores_example =
    insert_then_undo_restores willing word [] hello hello-IsValid (omega arith) hello-Fresh

delete_then_undo_restores_example :
    Ends
      (λ rest e2. (rest ≡ []) × (Restored hello e2 × (e2.pt ≡ (if hello.pt == 5 then 5 else 2))))
      (λ _. Interrupted (Reopened 2 5 hello) hello)
      (delete_then_undo willing 2 5 hello)
delete_then_undo_restores_example =
    delete_then_undo_restores willing 2 5 [] hello hello-IsValid (omega arith) (omega arith)
      (omega arith) hello-Fresh

insert_inserts_example :
    Ends (λ _. Inserted word hello) (NotDone willing 4 hello) (insert willing word hello)
insert_inserts_example = insert_inserts willing word hello hello-IsValid (omega arith)

del_range_deletes_example :
    Ends
      (λ _. Deleted (clip_low hello 2) (clip_high hello 5) hello)
      (NotDeleted willing hello)
      (del_range willing 2 5 hello)
del_range_deletes_example = del_range_deletes willing 2 5 hello hello-IsValid (ground arith)

move_gap_keeps_example : Ends (Arrived 1 6 5 hello) (Stopped 1 6 hello) (move_gap 5 hello)
move_gap_keeps_example = move_gap_keeps hello 5 hello-IsValid (omega arith) (omega arith)

make_gap_grows_example :
    Ends
      (λ _ e'. Grown (10 + 2000) hello e')
      (λ s e'. (s ≡ memory_full) × (e' ≡ hello))
      (make_gap willing 10 hello)
make_gap_grows_example = make_gap_grows willing 10 hello hello-IsValid

insert_before_markers_inserts_example :
    Ends
      (λ _. InsertedBefore word hello)
      (NotDone willing 4 hello)
      (insert_before_markers willing word hello)
insert_before_markers_inserts_example =
    insert_before_markers_inserts willing word hello hello-IsValid (omega arith)

record_delete_lem_example :
    Ends (λ _. Recorded 2 5 hello) (NotDeleted willing hello) (record_delete 2 (5 - 2) hello)
record_delete_lem_example =
    record_delete_lem willing 2 5 hello hello-IsValid (omega arith) (omega arith) (omega arith)
      (omega arith) (omega arith)

restore-IsValid_example : IsValid (save_restriction_restore (4, 9) hello)
restore-IsValid_example = restore-IsValid (4, 9) hello-IsValid
