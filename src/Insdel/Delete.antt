-- ===== src/Insdel/Delete.antt =====
-- What deletion does: the text, point, the visible part, the markers and the undo list.
pub mod Record
pub mod Close
use holomacs.Prelude.{
  ℕ, zero, suc, ◌+◌, ◌-◌, ◌≤◌, ◌<◌, ◌≡◌, refl, ◌∙◌, sym, ap, ◌⊎◌, inl, inr, Bool, true, false, not,
  ◌&&◌, List, [], ◌∷◌, arith, ltb, leb, ◌==◌, if◌then◌else◌, Bool-cases, ℤ, pos, negsuc, sub_ℕ, has,
  Distinct,
}
use holomacs.Editor.{
  Editor, Signal, quit, args_out_of_range, Run, ok, signal, and_then, when, char_at, Host, UndoList,
  disabled, entries, deletion, boundary,
}
use holomacs.Editor.View.{
  IsValid, IsPlaced, SameFields, SameText, SameMarks, SameBuffer, Ends, Ends-bind, Ends-mono,
  Arrived, Stopped, marker_at, place, Kept,
}
use holomacs.Editor.View.Same.{SameBuffer-refl, SameBuffer-trans, Shown, Shown-of, Shown-after}
use holomacs.Gap.{gap_left, gap_right, adjust_markers, adjust_chain, adjust_pos}
use holomacs.Gap.Adjust.{adjust_chain_lem}
use holomacs.Gap.Move.Left.{gap_left_keeps}
use holomacs.Gap.Move.Right.{gap_right_keeps}
use holomacs.Editfns.{buffer_substring}
use holomacs.Editfns.Substring.{
  substring, substring-same, low, high, Read, NotRead, buffer_substring_lem,
}
use holomacs.UndoList.{
  record_delete, prepare_list, with_deletion, is_disabled, undo_boundary, record_first_change,
}
use holomacs.Insdel.{
  prepare_to_modify_buffer, relocate, close_over, count_change, clip_low, clip_high, delete_clipped,
  del_range,
}
use holomacs.Insdel.Insert.{prepare_list-same}
use holomacs.Insdel.Insert.Prepare.{NotDone, Refused, Refused-same, prepare_lem}
use Record.{NotDeleted, Recorded, deletion_at, record_delete_lem}
use Close.{closed, Deleted, close_Deleted}

-- The gap lies in the text from `from` to `to`, or at an end of it.
abbrev Beside : (from to : ℕ) → Editor → Unit {0} → Editor → Type 0
Beside from to e _ e' = IsValid e' × SameBuffer e e' × (from ≤ e'.gpt) × (e'.gpt ≤ to)

abbrev AtLeast : (from : ℕ) → Editor → Unit {0} → Editor → Type 0
AtLeast from e _ e' = IsValid e' × SameBuffer e e' × (from ≤ e'.gpt)

raise :
    (host : Host) (from : ℕ) (e : Editor)
    → IsValid e
    → from ≤ e.z
    → Ends (AtLeast from e) (NotDeleted host e) (when (ltb e.gpt from) (gap_right from) e)
raise host from e v h = elim (Bool-cases (ltb e.gpt from)) [
  | inr k ↦ rw k (v, SameBuffer-refl e, ground arith)
  | inl k ↦ rw k (
      Ends-mono (Arrived e.gpt from from e) (AtLeast from e) (Stopped e.gpt from e)
        (NotDeleted host e) (gap_right from e) (gap_right_keeps e from v (ground arith) h)
        (λ _ e' t. (t.0.valid, t.0.same, omega (arith, t.1)))
        (λ s e' t. rw t.0 (Shown-of t.1.valid t.1.same, t.2)))
]

lower :
    (host : Host) (from to : ℕ) (e e1 : Editor)
    → 1 ≤ to
    → from ≤ to
    → AtLeast from e tt e1
    → Ends (Beside from to e) (NotDeleted host e) (when (ltb to e1.gpt) (gap_left to false) e1)
lower host from to e e1 h1 h2 a = elim (Bool-cases (ltb to e1.gpt)) [
  | inr k ↦ rw k (a.0, a.1, a.2, ground arith)
  | inl k ↦ rw k (
      Ends-mono (Arrived to e1.gpt to e1) (Beside from to e) (Stopped to e1.gpt e1)
        (NotDeleted host e) (gap_left to false e1)
        (gap_left_keeps e1 to false a.0 h1 (ground arith))
        (λ _ e' t.
          (t.0.valid, SameBuffer-trans a.1 t.0.same, omega (arith, t.1), omega (arith, t.1)))
        (λ s e' t.
          rw t.0 (
            Shown-of t.1.valid (SameBuffer-trans a.1 t.1.same),
            sym a.1.fields.inhibit_quit ∙ t.2,
          )))
]

-- A deletion after the gap has moved.
Deleted-after :
    (from to : ℕ) {e e2 e' : Editor}
    → SameBuffer e e2
    → IsValid e2
    → 1 ≤ from
    → from < to
    → to ≤ e2.zv
    → Deleted from to e2 e'
    → Deleted from to e e'
Deleted-after from to {e} {e2} b v h1 h2 h3 d = record {
  valid = d.valid;
  z = d.z ∙ b.fields.z;
  begv = d.begv ∙ b.fields.begv;
  zv = d.zv ∙ b.fields.zv;
  pt = d.pt ∙ ap (closed from to) b.fields.pt;
  modiff = omega (arith, d.modiff, b.fields.modiff);
  markers = d.markers ∙ b.fields.markers;
  text = λ n b1 b2.
      d.text n b1 b2 ∙ ground (arith, b.text n, b.text (n + (to - from)), d.z, b.fields.z);
  marks = λ m i. d.marks m (ap (has m) b.fields.markers ∙ i) ∙ ap (closed from to) (b.marks m i);
  undo_list =
      d.undo_list
      ∙ rw (
        substring-same e e2 from (to - from) b.text h1 (omega (arith, v.zv_high, b.fields.z)),
        prepare_list-same e e2 b,
        b.fields.pt,
      );
  last_undo_buffer = d.last_undo_buffer ∙ b.fields.self;
  self = d.self ∙ b.fields.self;
  save_modified = d.save_modified ∙ b.fields.save_modified;
}

-- The steps of del_range on arguments that are valid.
delete_valid :
    (host : Host) (from to : ℕ) (e : Editor)
    → IsValid e
    → e.begv ≤ from
    → from < to
    → to ≤ e.zv
    → Ends (λ _. Deleted from to e) (NotDeleted host e) (delete_clipped host from to e)
unfolding delete_clipped
delete_valid host from to e v h1 h2 h3 =
    let nonempty : leb to from ≡ false = ground arith in
    let P : Unit {0} → Editor → Type 0 = λ _. Deleted from to e in
    let Q = NotDeleted host e in
    rw nonempty (
      Ends-bind (AtLeast from e) P Q (when (ltb e.gpt from) (gap_right from) e) _
        (raise host from e v (omega (arith, v.zv_high)))
        λ _ e1 a.
          Ends-bind (Beside from to e) P Q (when (ltb to e1.gpt) (gap_left to false) e1) _
            (lower host from to e e1 (omega (arith, v.begv_low)) (omega arith) a)
            λ _ e2 b.
              Ends-bind (λ _ e'. e' ≡ e2) P Q (prepare_to_modify_buffer host e2) _
                (Ends-mono (λ _ e'. e' ≡ e2) (λ _ e'. e' ≡ e2) (NotDone host 0 e2) Q
                  (prepare_to_modify_buffer host e2) (prepare_lem host 0 e2 b.0) (λ _ _ same. same)
                  (λ s e' d.
                    (Shown-of d.0 (SameBuffer-trans b.1 d.1), Refused-same host 0 s b.1 d.2)))
                λ _ e3 same. rw same (
                  Ends-bind (λ _. Recorded from to e2) P Q (record_delete from (to - from) e2) _
                    (Ends-mono (λ _. Recorded from to e2) (λ _. Recorded from to e2)
                      (NotDeleted host e2) Q (record_delete from (to - from) e2)
                      (record_delete_lem host from to e2 b.0 (omega (arith, b.1.fields.begv)) h2
                        (omega (arith, b.1.fields.zv)) b.2 b.3)
                      (λ _ _ r. r) (λ s e' d. (Shown-after b.1 d.0, Refused-same host 0 s b.1 d.1)))
                    λ _ e4 r.
                      Deleted-after from to b.1 b.0 (omega (arith, b.1.fields.begv, v.begv_low)) h2
                        (omega (arith, b.1.fields.zv))
                        (close_Deleted from to e2 e4 (omega (arith, v.begv_low))
                          (omega (arith, b.1.fields.begv)) h2 (omega (arith, b.1.fields.zv)) r)))

-- In a valid buffer, where some of the text between the arguments of del_range is visible,
-- del_range deletes that part, or it signals with a reason and the buffer shows what it did. It
-- ends in no fault.
pub del_range_deletes :
    (host : Host) (from to : ℕ) (e : Editor)
    → IsValid e
    → clip_low e from < clip_high e to
    → Ends
        (λ _. Deleted (clip_low e from) (clip_high e to) e)
        (NotDeleted host e)
        (del_range host from to e)
unfolding del_range
del_range_deletes host from to e v h =
    delete_valid host (clip_low e from) (clip_high e to) e v (ground arith) h (ground arith)
