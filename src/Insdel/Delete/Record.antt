-- ===== src/Insdel/Delete/Record.antt =====
-- What record_delete does on the way of a deletion.
use holomacs.Prelude.{
  ℕ, zero, suc, ◌+◌, ◌-◌, ◌≤◌, ◌<◌, ◌≡◌, refl, ◌∙◌, sym, ap, inl, inr, true, List, [], ◌∷◌, arith,
  ◌==◌, if◌then◌else◌, Bool-cases, ℤ, pos, sub_ℕ,
}
use holomacs.Editor.{Editor, Signal, char_at, Host, UndoList, disabled, entries, boundary}
use holomacs.Editor.View.{IsValid, SameBuffer, Ends, Ends-bind, Ends-mono}
use holomacs.Editor.View.Same.{SameBuffer-refl, Shown}
use holomacs.Editfns.{buffer_substring}
use holomacs.Editfns.Substring.{substring, low, high, Read, NotRead, buffer_substring_lem}
use holomacs.UndoList.{
  record_delete, prepare_list, with_deletion, is_disabled, undo_boundary, record_first_change,
}
use holomacs.Insdel.Insert.Prepare.{Refused}

-- Why a deletion was refused; the buffer shows what it did, though a boundary or a first change
-- may have been recorded.
abbrev pub NotDeleted : Host → Editor → Signal → Editor → Type 0
NotDeleted host e s e' = Shown e e' × Refused host 0 e s

-- The entry that record_delete makes.
abbrev pub deletion_at : (from to pt : ℕ) → ℤ
deletion_at from to pt = if pt == to then sub_ℕ 0 from else pos from

pub record Recorded (from to : ℕ) (e e' : Editor) : Type 0 where
  pub shown : Shown e e'
  pub gpt_low : from ≤ e'.gpt
  pub gpt_high : e'.gpt ≤ to
  pub undo_list :
      e'.undo_list
      ≡ with_deletion (substring e from (to - from)) (deletion_at from to e.pt) (prepare_list e)
  pub last_undo_buffer : e'.last_undo_buffer ≡ e.self

boundary-disabled : (l : UndoList) → is_disabled (undo_boundary l) ≡ is_disabled l
unfolding undo_boundary
boundary-disabled disabled = refl
boundary-disabled (entries []) = refl
boundary-disabled (entries (boundary ∷ l)) = refl
boundary-disabled (entries (x ∷ l)) = refl

first_change-disabled :
    (t : ℕ) (l : UndoList) → is_disabled (record_first_change t l) ≡ is_disabled l
unfolding record_first_change
first_change-disabled t disabled = refl
first_change-disabled t (entries l) = refl

prepare_list-disabled : (e : Editor) → is_disabled (prepare_list e) ≡ is_disabled e.undo_list
unfolding prepare_list
prepare_list-disabled e =
    let l = if e.self == e.last_undo_buffer then e.undo_list else undo_boundary e.undo_list in
    ground (arith, boundary-disabled e.undo_list, first_change-disabled e.modtime l)

with_deletion-disabled :
    (text : List ℕ) (at : ℤ) (l : UndoList) → is_disabled l ≡ true → with_deletion text at l ≡ l
unfolding with_deletion
with_deletion-disabled text at disabled h = refl
with_deletion-disabled text at (entries l) h = cc

-- The buffer as record_delete has prepared its undo list.
abbrev prepared : Editor → Editor
prepared e = record e { undo_list = prepare_list e; last_undo_buffer = e.self }

prepared-IsValid : {e : Editor} → IsValid e → IsValid (prepared e)
prepared-IsValid v = record {
  begv_low = v.begv_low;
  pt_low = v.pt_low;
  pt_high = v.pt_high;
  zv_high = v.zv_high;
  gpt_low = v.gpt_low;
  gpt_high = v.gpt_high;
  allocated = v.allocated;
  chain = v.chain;
  placed = v.placed;
}

-- What is shown after the undo list has been prepared is what was shown before.
Shown-prepared : {e e' : Editor} → IsValid e' → SameBuffer (prepared e) e' → Shown e e'
Shown-prepared v s = record {
  valid = v;
  z = s.fields.z;
  begv = s.fields.begv;
  zv = s.fields.zv;
  pt = s.fields.pt;
  modiff = s.fields.modiff;
  save_modified = s.fields.save_modified;
  modtime = s.fields.modtime;
  self = s.fields.self;
  markers = s.fields.markers;
  text = s.text;
  marks = s.marks;
}

substring-prepared :
    (e : Editor) (first n : ℕ) → substring (prepared e) first n ≡ substring e first n
substring-prepared e first zero = refl
substring-prepared e first (suc n) =
    ap (λ l. char_at e first ∷ l) (substring-prepared e (first + 1) n)

-- The undo list is not shown.
relisted : {e e' : Editor} (l : UndoList) → Shown e e' → Shown e (record e' { undo_list = l })
relisted {e} {e'} l s = record {
  valid = record {
    begv_low = s.valid.begv_low;
    pt_low = s.valid.pt_low;
    pt_high = s.valid.pt_high;
    zv_high = s.valid.zv_high;
    gpt_low = s.valid.gpt_low;
    gpt_high = s.valid.gpt_high;
    allocated = s.valid.allocated;
    chain = s.valid.chain;
    placed = s.valid.placed;
  };
  z = s.z;
  begv = s.begv;
  zv = s.zv;
  pt = s.pt;
  modiff = s.modiff;
  save_modified = s.save_modified;
  modtime = s.modtime;
  self = s.self;
  markers = s.markers;
  text = s.text;
  marks = s.marks;
}

low-of : (from to : ℕ) → from < to → (low from to ≡ from) × (high from to ≡ to)
low-of from to h = ground arith

unread :
    (host : Host) (from to : ℕ) (e : Editor)
    → e.begv ≤ from
    → from < to
    → to ≤ e.zv
    → (s : Signal) (e' : Editor) → NotRead from to (prepared e) s e'
    → NotDeleted host e s e'
unread host from to e h1 h2 h3 s e' (inl h) = rw h.0 (Shown-prepared h.1.valid h.1.same, h.2)
unread host from to e h1 h2 h3 s e' (inr h) = absurd (ground (arith, h.2, low-of from to h2))

recorded :
    (from to : ℕ) (e : Editor) (text : List ℕ) (e' : Editor)
    → from < to
    → from ≤ e.gpt
    → e.gpt ≤ to
    → Read from to (prepared e) text e'
    → Recorded from to e
        (record e' { undo_list = with_deletion text (deletion_at from to e.pt) e'.undo_list })
recorded from to e text e' h2 h4 h5 (k, copied, _, _, moved) =
    let shown = Shown-prepared k.valid k.same in
    record {
      shown = relisted _ shown;
      gpt_low = ground (arith, moved, low-of from to h2);
      gpt_high = ground (arith, moved, low-of from to h2);
      undo_list = rw (
        copied,
        (low-of from to h2).0,
        (low-of from to h2).1,
        substring-prepared e from (to - from),
        k.same.fields.undo_list,
      );
      last_undo_buffer = k.same.fields.last_undo_buffer;
    }

-- In a valid buffer with the gap in or beside the visible text from `from` to `to`,
-- record_delete puts that text on the undo list, where one is kept, and the gap stays there; or
-- it signals and the buffer shows what it did.
pub record_delete_lem :
    (host : Host) (from to : ℕ) (e : Editor)
    → IsValid e
    → e.begv ≤ from
    → from < to
    → to ≤ e.zv
    → from ≤ e.gpt
    → e.gpt ≤ to
    → Ends (λ _. Recorded from to e) (NotDeleted host e) (record_delete from (to - from) e)
unfolding record_delete
record_delete_lem host from to e v h1 h2 h3 h4 h5 = elim (Bool-cases (is_disabled e.undo_list)) [
  | inl off ↦ rw off (record {
    shown = Shown-prepared (prepared-IsValid v) (SameBuffer-refl (prepared e));
    gpt_low = h4;
    gpt_high = h5;
    undo_list = sym (with_deletion-disabled _ _ (prepare_list e) (prepare_list-disabled e ∙ off));
    last_undo_buffer = refl;
  })
  | inr on ↦
      let whole : from + (to - from) ≡ to = omega arith in
      rw (on, whole)
        (Ends-bind (Read from to (prepared e)) (λ _. Recorded from to e) (NotDeleted host e)
          (buffer_substring from to (prepared e)) _
          (Ends-mono (Read from to (prepared e)) (Read from to (prepared e))
            (NotRead from to (prepared e)) (NotDeleted host e)
            (buffer_substring from to (prepared e))
            (buffer_substring_lem from to (prepared e) (prepared-IsValid v)) (λ _ _ r. r)
            (unread host from to e h1 h2 h3))
          (λ text e' r. recorded from to e text e' h2 h4 h5 r))
]
