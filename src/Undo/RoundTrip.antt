-- ===== src/Undo/RoundTrip.antt =====
-- A change and primitive-undo of what it has recorded.
use holomacs.Prelude.{
  ℕ, ◌+◌, ◌-◌, ◌≤◌, ◌<◌, ◌≡◌, refl, ◌∙◌, ap, ◌⊎◌, inl, inr, true, false, List, [], ◌∷◌, arith, leb,
  ◌==◌, if◌then◌else◌, length,
}
use holomacs.Editor.{
  Editor, Signal, Run, ok, signal, fault, Cmd, and_then, Host, UndoEntry, boundary, insertion,
  deletion, UndoList, disabled, entries,
}
use holomacs.Editor.View.{IsValid, Ends, Ends-bind, Ends-mono}
use holomacs.Editor.View.Same.{Shown, Shown-of}
use holomacs.Editfns.Substring.{substring}
use holomacs.UndoList.{prepare_list, with_insertion, with_deletion}
use holomacs.Insdel.{insert, del_range, clip_low, clip_high}
use holomacs.Insdel.Insert.{Inserted, insert_inserts}
use holomacs.Insdel.Insert.Prepare.{NotDone}
use holomacs.Insdel.Delete.{del_range_deletes}
use holomacs.Insdel.Delete.Close.{Deleted}
use holomacs.Insdel.Delete.Record.{NotDeleted, deletion_at}
use holomacs.Undo.{set_pt, undo_insertion, undo_deletion, primitive_undo}
use holomacs.Undo.Insertion.{Restored, RestoredAll, undo_insertion_restores}
use holomacs.Undo.Deletion.{undo_deletion_restores}

-- The elements of `buffer-undo-list`.
abbrev pub list_of : UndoList → List UndoEntry
list_of disabled = []
list_of (entries l) = l

-- The state at the beginning of a command: a boundary stands on the list, the last change was in
-- this buffer and the buffer has been changed since it was saved.
pub record Fresh (l : List UndoEntry) (e : Editor) : Type 0 where
  pub undo_list : e.undo_list ≡ entries (boundary ∷ l)
  pub here : e.self ≡ e.last_undo_buffer
  pub changed : e.save_modified < e.modiff

Fresh-list : (l : List UndoEntry) (e : Editor) → Fresh l e → prepare_list e ≡ entries (boundary ∷ l)
unfolding prepare_list
Fresh-list l e f =
    let a : (e.self == e.last_undo_buffer) ≡ true = ground (arith, f.here) in
    let b : leb e.modiff e.save_modified ≡ false = ground (arith, f.changed) in
    simp (a, b) f.undo_list

abbrev pub insert_then_undo : Host → List ℕ → Cmd (List UndoEntry)
insert_then_undo host s e =
    and_then (insert host s e) (λ _ e1. primitive_undo host 1 (list_of e1.undo_list) e1)

-- A signal came before the change, or between the change and the end of undoing it.
abbrev pub Interrupted : (Editor → Type 0) → Editor → Editor → Type 0
Interrupted Changed e e' = Shown e e' ⊎ ((e1 : Editor) × Changed e1 × Shown e1 e')

-- One entry and the boundary behind it are undone by one call.
undo_one :
    (host : Host) (x : UndoEntry) (l : List UndoEntry) (e1 : Editor) (undone : Run (Unit {0}))
    (P : Editor → Type 0) (Q : Signal → Editor → Type 0)
    → primitive_undo host 1 (x ∷ boundary ∷ l) e1 ≡ and_then (and_then undone (λ _ e2. ok l e2)) ok
    → Ends (λ _. P) Q undone
    → Ends (λ rest e2. (rest ≡ l) × P e2) Q (primitive_undo host 1 (x ∷ boundary ∷ l) e1)
undo_one host x l e1 undone P Q e h = rw e (outcome undone h)
  where
    outcome :
        (r : Run (Unit {0}))
        → Ends (λ _. P) Q r
        → Ends (λ rest e2. (rest ≡ l) × P e2) Q (and_then (and_then r (λ _ e2. ok l e2)) ok)
    outcome (ok a e') h = (refl, h)
    outcome (signal s e') h = h
    outcome fault h = h

-- The entry of an insertion at the beginning of a command.
added_insertion :
    (s : List ℕ) (l : List UndoEntry) (e e1 : Editor)
    → Fresh l e
    → Inserted s e e1
    → list_of e1.undo_list ≡ insertion e.pt (e.pt + length s) ∷ boundary ∷ l
unfolding with_insertion
added_insertion s l e e1 f r =
    ap list_of r.undo_list ∙ ap (λ u. list_of (with_insertion e.pt (length s) u)) (Fresh-list l e f)

added_deletion :
    (from to : ℕ) (l : List UndoEntry) (e e1 : Editor)
    → Fresh l e
    → Deleted from to e e1
    → list_of e1.undo_list
      ≡ deletion (substring e from (to - from)) (deletion_at from to e.pt) ∷ boundary ∷ l
unfolding with_deletion
added_deletion from to l e e1 f r =
    ap list_of r.undo_list
    ∙ ap (λ u. list_of (with_deletion (substring e from (to - from)) (deletion_at from to e.pt) u))
        (Fresh-list l e f)

-- In a valid buffer where a boundary heads the undo list, the last change was in this buffer and
-- the buffer has been changed since it was saved, insert of a text that is not empty and
-- primitive-undo of what it recorded give back the text, the visible part, point and the
-- markers, and leave the rest of the undo list; if either signals, the buffer shows what it did
-- before that step.
pub insert_then_undo_restores :
    (host : Host) (s : List ℕ) (l : List UndoEntry) (e : Editor)
    → IsValid e
    → 1 ≤ length s
    → Fresh l e
    → Ends
        (λ rest e2. (rest ≡ l) × RestoredAll e e2)
        (λ _. Interrupted (Inserted s e) e)
        (insert_then_undo host s e)
unfolding primitive_undo
insert_then_undo_restores host s l e v size f =
    let P : List UndoEntry → Editor → Type 0 = λ rest e2. (rest ≡ l) × RestoredAll e e2 in
    let Q : Signal → Editor → Type 0 = λ _. Interrupted (Inserted s e) e in
    Ends-bind (λ _. Inserted s e) P Q (insert host s e) _
      (Ends-mono (λ _. Inserted s e) (λ _. Inserted s e) (NotDone host (length s) e) Q
        (insert host s e) (insert_inserts host s e v size) (λ _ _ r. r)
        (λ _ e' d. inl (Shown-of d.0 d.1)))
      λ _ e1 r. rw (added_insertion s l e e1 f r) (
        undo_one host (insertion e.pt (e.pt + length s)) l e1
          (undo_insertion host e.pt (e.pt + length s) e1) (RestoredAll e) Q refl
          (Ends-mono (λ _. RestoredAll e) (λ _. RestoredAll e) (NotDeleted host e1) Q
            (undo_insertion host e.pt (e.pt + length s) e1)
            (undo_insertion_restores host s e e1 v size r) (λ _ _ h. h)
            (λ _ e' d. inr (e1, r, d.0))))

abbrev pub delete_then_undo : Host → (from to : ℕ) → Cmd (List UndoEntry)
delete_then_undo host from to e =
    and_then (del_range host from to e) (λ _ e1. primitive_undo host 1 (list_of e1.undo_list) e1)

-- The buffer after the deletion, with point where the text is to go.
abbrev pub Reopened : (from to : ℕ) → Editor → Editor → Type 0
Reopened from to e x = (e1 : Editor) × Deleted from to e e1 × (x ≡ set_pt from e1)

-- In a valid buffer where a boundary heads the undo list, the last change was in this buffer and
-- the buffer has been changed since it was saved, deletion of visible text and primitive-undo of
-- what it recorded give back the text and the visible part, with point at the end of the text if
-- it was there and else at its beginning, and leave the rest of the undo list; if either
-- signals, the buffer shows what it did before that step.
pub delete_then_undo_restores :
    (host : Host) (from to : ℕ) (l : List UndoEntry) (e : Editor)
    → IsValid e
    → e.begv ≤ from
    → from < to
    → to ≤ e.zv
    → Fresh l e
    → Ends
        (λ rest e2. (rest ≡ l) × (Restored e e2 × (e2.pt ≡ (if e.pt == to then to else from))))
        (λ _. Interrupted (Reopened from to e) e)
        (delete_then_undo host from to e)
unfolding primitive_undo
delete_then_undo_restores host from to l e v h1 h2 h3 f =
    let R : Editor → Type 0 = λ e2. Restored e e2 × (e2.pt ≡ (if e.pt == to then to else from)) in
    let P : List UndoEntry → Editor → Type 0 = λ rest e2. (rest ≡ l) × R e2 in
    let Q : Signal → Editor → Type 0 = λ _. Interrupted (Reopened from to e) e in
    let text = substring e from (to - from) in
    let at = deletion_at from to e.pt in
    let c1 : clip_low e from ≡ from = ground arith in
    let c2 : clip_high e to ≡ to = ground arith in
    let size : clip_low e from < clip_high e to = ground arith in
    Ends-bind (λ _. Deleted from to e) P Q (del_range host from to e) _
      (Ends-mono (λ _. Deleted from to e) (λ _. Deleted from to e) (NotDeleted host e) Q
        (del_range host from to e) (rw (c1, c2) at (del_range_deletes host from to e v size))
        (λ _ _ r. r) (λ _ e' d. inl d.0))
      λ _ e1 r. rw (added_deletion from to l e e1 f r) (
        undo_one host (deletion text at) l e1 (undo_deletion host text at e1) R Q refl (
          Ends-mono (λ _. R) (λ _. R) (NotDone host (length text) (set_pt from e1)) Q
            (undo_deletion host text at e1) (undo_deletion_restores host from to e e1 v h1 h2 h3 r)
            (λ _ _ h. h) (λ _ e' d. inr (set_pt from e1, (e1, r, refl), Shown-of d.0 d.1))))
