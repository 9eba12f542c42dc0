-- ===== src/Undo/Deletion.antt =====
-- Undoing a deletion restores the text.
use holomacs.Prelude.{
  ℕ, zero, suc, ◌+◌, ◌-◌, ◌≤◌, ◌<◌, ◌≡◌, refl, ◌∙◌, ap, inl, inr, false, ◌||◌, arith, ltb, ◌==◌,
  if◌then◌else◌, Bool-cases, pos, negsuc, sub_ℕ, length, get_or,
}
use holomacs.Editor.{Editor, Signal, char_at, Host}
use holomacs.Editor.View.{IsValid, Ends, Ends-bind, Ends-mono}
use holomacs.Editfns.Substring.{substring}
use holomacs.Insdel.{insert, insert_before_markers}
use holomacs.Insdel.Insert.{Inserted, insert_inserts}
use holomacs.Insdel.Insert.Prepare.{NotDone}
use holomacs.Insdel.BeforeMarkers.{InsertedBefore, insert_before_markers_inserts}
use holomacs.Insdel.Delete.Close.{Deleted}
use holomacs.Insdel.Delete.Record.{deletion_at}
use holomacs.Undo.{set_pt, undo_deletion}
use holomacs.Undo.Insertion.{Restored, finsert-string, finsert_before-string}

length-substring : (e : Editor) (first n : ℕ) → length (substring e first n) ≡ n
length-substring e first zero = refl
length-substring e first (suc n) = ap suc (length-substring e (first + 1) n)

get_or-substring :
    (e : Editor) (first n i : ℕ) → i < n → get_or (substring e first n) i 0 ≡ char_at e (first + i)
get_or-substring e first zero i h = absurd (omega arith)
get_or-substring e first (suc n) zero h = ap (char_at e) (omega arith)
get_or-substring e first (suc n) (suc i) h =
    get_or-substring e (first + 1) n i (omega arith) ∙ ap (char_at e) (omega arith)

-- Point may be anywhere in the visible part.
pub set_pt-IsValid : (p : ℕ) {e : Editor} → IsValid e → e.begv ≤ p → p ≤ e.zv → IsValid (set_pt p e)
set_pt-IsValid p v h1 h2 = record {
  begv_low = v.begv_low;
  pt_low = h1;
  pt_high = h2;
  zv_high = v.zv_high;
  gpt_low = v.gpt_low;
  gpt_high = v.gpt_high;
  allocated = v.allocated;
  chain = v.chain;
  placed = v.placed;
}

-- A character after a deletion and the insertion of what was deleted.
text_again :
    (from d n x2 x1 y1 g c : ℕ)
    → x2 ≡ (if ltb n from then x1 else if ltb n (from + d) then g else y1)
    → (n < from → x1 ≡ c)
    → (from + d ≤ n → y1 ≡ c)
    → (from ≤ n → n < from + d → g ≡ c)
    → x2 ≡ c
text_again from d n x2 x1 y1 g c h1 h2 h3 h4 = elim (Bool-cases (ltb n from)) [
  | inl a ↦ ground (arith, h2 (ground arith))
  | inr a ↦ elim (Bool-cases (ltb n (from + d))) [
    | inl b ↦ ground (arith, h4 (ground arith) (ground arith))
    | inr b ↦ ground (arith, h3 (ground arith))
  ]
]

module _ (from to : ℕ) (e e1 : Editor) (v : IsValid e) (low : e.begv ≤ from) (size : from < to)
    (high : to ≤ e.zv) (r : Deleted from to e e1) where
  -- The deleted text put back at `from` gives the characters there were.
  put_back :
      (n x2 : ℕ)
      → 1 ≤ n
      → n < e.z
      → x2 ≡ (
          if ltb n from
          then char_at e1 n
          else if ltb n (from + length (substring e from (to - from)))
          then get_or (substring e from (to - from)) (n - from) 0
          else char_at e1 (n - length (substring e from (to - from))))
      → x2 ≡ char_at e n
  put_back n x2 h1 h2 t =
      let d = to - from in
      let t' = rw (length-substring e from d) at t in
      text_again from d n x2 (char_at e1 n) (char_at e1 (n - d))
        (get_or (substring e from d) (n - from) 0) (char_at e n) t'
        (λ below. ground (arith, r.text n h1 (omega (arith, r.z))))
        (λ above. r.text (n - d) (omega (arith, v.begv_low)) (omega (arith, r.z)) ∙ shifted above)
        (λ a b. get_or-substring e from d (n - from) (omega arith) ∙ ap (char_at e) (omega arith))
    where
      shifted :
          from + (to - from) ≤ n
          → (if ltb (n - (to - from)) from
              then char_at e (n - (to - from))
              else char_at e (n - (to - from) + (to - from)))
            ≡ char_at e n
      shifted above =
          let back : n - (to - from) + (to - from) ≡ n = omega arith in ground (arith, back)

  plain :
      (e2 : Editor) → Inserted (substring e from (to - from)) (set_pt from e1) e2 → Restored e e2
  plain e2 i = record {
    valid = i.valid;
    z = omega (arith, i.z, r.z, length-substring e from (to - from));
    begv = i.begv ∙ r.begv;
    zv = omega (arith, i.zv, r.zv, length-substring e from (to - from));
    text = λ n h1 h2.
        put_back n (char_at e2 n) h1 h2
          (i.text n h1 (omega (arith, i.z, r.z, length-substring e from (to - from))));
  }

  before :
      (e2 : Editor)
      → InsertedBefore (substring e from (to - from)) (set_pt from e1) e2
      → Restored e (set_pt from e2)
  before e2 i = record {
    valid =
        set_pt-IsValid from i.valid (omega (arith, i.begv, r.begv))
          (omega (arith, i.valid.pt_high, i.pt));
    z = omega (arith, i.z, r.z, length-substring e from (to - from));
    begv = i.begv ∙ r.begv;
    zv = omega (arith, i.zv, r.zv, length-substring e from (to - from));
    text = λ n h1 h2.
        put_back n (char_at e2 n) h1 h2
          (i.text n h1 (omega (arith, i.z, r.z, length-substring e from (to - from))));
  }

module _ (host : Host) (from to : ℕ) (e e1 : Editor) (v : IsValid e) (low : e.begv ≤ from)
    (size : from < to) (high : to ≤ e.zv) (r : Deleted from to e e1) where
  here : IsValid (set_pt from e1)
  here = set_pt-IsValid from r.valid (omega (arith, r.begv)) (omega (arith, r.zv))

  nonempty : 1 ≤ length (substring e from (to - from))
  nonempty = omega (arith, length-substring e from (to - from))

  abbrev Unrestored : Signal → Editor → Type 0
  Unrestored = NotDone host (length (substring e from (to - from))) (set_pt from e1)

  visible : (ltb from e1.begv || ltb e1.zv from) ≡ false
  visible = ground (arith, r.begv, r.zv)

  undo_behind :
      Ends
        (λ _ e2. Restored e e2 × (e2.pt ≡ to))
        Unrestored
        (undo_deletion host (substring e from (to - from)) (negsuc (from - 1)) e1)
  unfolding undo_deletion
  undo_behind =
      let whole : suc (from - 1) ≡ from = omega (arith, v.begv_low) in
      let text = substring e from (to - from) in
      rw (whole, visible, finsert-string host text (set_pt from e1))
        (Ends-mono (λ _. Inserted text (set_pt from e1)) (λ _ e2. Restored e e2 × (e2.pt ≡ to))
          Unrestored Unrestored (insert host text (set_pt from e1))
          (insert_inserts host text (set_pt from e1) here nonempty)
          (λ _ e2 i. (
            plain from to e e1 v low size high r e2 i,
            omega (arith, i.pt, length-substring e from (to - from)),
          ))
          (λ _ _ h. h))

  undo_before :
      Ends
        (λ _ e2. Restored e e2 × (e2.pt ≡ from))
        Unrestored
        (undo_deletion host (substring e from (to - from)) (pos from) e1)
  unfolding undo_deletion
  undo_before =
      let text = substring e from (to - from) in
      rw (visible, finsert_before-string host text (set_pt from e1))
        (Ends-bind (λ _. InsertedBefore text (set_pt from e1))
          (λ _ e2. Restored e e2 × (e2.pt ≡ from)) Unrestored
          (insert_before_markers host text (set_pt from e1)) _
          (insert_before_markers_inserts host text (set_pt from e1) here nonempty)
          λ _ e2 i. (before from to e e1 v low size high r e2 i, refl))

  -- Undoing a deletion right after it restores the text and the visible part, with point at the
  -- end of the text if it was there and else at its beginning; or it signals and the buffer shows
  -- what it did.
  pub undo_deletion_restores :
      Ends
        (λ _ e2. Restored e e2 × (e2.pt ≡ (if e.pt == to then to else from)))
        Unrestored
        (undo_deletion host (substring e from (to - from)) (deletion_at from to e.pt) e1)
  undo_deletion_restores = elim (Bool-cases (e.pt == to)) [
    | inl at ↦
        let minus : sub_ℕ 0 from ≡ negsuc (from - 1) = ground (arith, v.begv_low) in
        rw (at, minus) undo_behind
    | inr away ↦ rw away undo_before
  ]
