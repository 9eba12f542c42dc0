-- ===== src/Undo/Insertion.antt =====
-- Undoing an insertion restores the text, point and the markers.
use holomacs.Prelude.{
  ℕ, ◌+◌, ◌-◌, ◌≤◌, ◌<◌, ◌≡◌, refl, ◌∙◌, ap, true, false, ◌||◌, ◌&&◌, List, [], ◌∷◌, arith, ltb,
  leb, if◌then◌else◌, pos, length, get_or, take-length, has,
}
use holomacs.Editor.{Editor, Run, ok, signal, fault, and_then, char_at, Host}
use holomacs.Editor.View.{IsValid, SameText, SameMarks, Ends, Ends-bind, marker_at}
use holomacs.Editfns.{validate_region, goto_char, clip_to_bounds}
use holomacs.Editfns.Restriction.{goto_char-IsValid}
use holomacs.Editfns.Edit.{string, finsert, finsert_before_markers, delete_region}
use holomacs.Insdel.{
  insert, insert_from_string, insert_before_markers, insert_from_string_before_markers, clip_low,
  clip_high,
}
use holomacs.Insdel.Insert.{Inserted}
use holomacs.Insdel.Delete.{del_range_deletes}
use holomacs.Insdel.Delete.Close.{Deleted, closed}
use holomacs.Insdel.Delete.Record.{NotDeleted}
use holomacs.Undo.{undo_insertion}

and_then-skip : (r : Run (Unit {0})) → and_then r (λ _ e. ok tt e) ≡ r
and_then-skip (ok tt e) = refl
and_then-skip (signal s e) = refl
and_then-skip fault = refl

not-lt_self : (n : ℕ) → ltb n n ≡ false
not-lt_self n = ground arith

-- The whole of a string.
from_string :
    (host : Host) (s : List ℕ) (e : Editor)
    → insert_from_string host s 0 (length s) e ≡ insert host s e
unfolding insert_from_string
from_string host s e = simp (not-lt_self (length s), take-length s)

-- One string is inserted as it is.
pub finsert-string :
    (host : Host) (s : List ℕ) (e : Editor) → finsert host (string s ∷ []) e ≡ insert host s e
unfolding finsert
finsert-string host s e =
    and_then-skip (insert_from_string host s 0 (length s) e) ∙ from_string host s e

from_string_before :
    (host : Host) (s : List ℕ) (e : Editor)
    → insert_from_string_before_markers host s 0 (length s) e ≡ insert_before_markers host s e
unfolding insert_from_string_before_markers insert_before_markers
from_string_before host s e = rw (from_string host s e)

pub finsert_before-string :
    (host : Host) (s : List ℕ) (e : Editor)
    → finsert_before_markers host (string s ∷ []) e ≡ insert_before_markers host s e
unfolding finsert_before_markers
finsert_before-string host s e =
    and_then-skip (insert_from_string_before_markers host s 0 (length s) e)
    ∙ from_string_before host s e

-- delete_region of a visible region in order.
delete_region_deletes :
    (host : Host) (b f : ℕ) (e : Editor)
    → IsValid e
    → e.begv ≤ b
    → b < f
    → f ≤ e.zv
    → Ends (λ _. Deleted b f e) (NotDeleted host e) (delete_region host b f e)
unfolding delete_region validate_region
delete_region_deletes host b f e v h1 h2 h3 =
    let ordered : ltb f b ≡ false = ground arith in
    let visible : (leb e.begv b && leb f e.zv) ≡ true = ground arith in
    let c1 : clip_low e b ≡ b = ground arith in
    let c2 : clip_high e f ≡ f = ground arith in
    let size : clip_low e b < clip_high e f = ground arith in
    rw (ordered, visible) (rw (c1, c2) at (del_range_deletes host b f e v size))

-- The text and its bounds are those of `e`.
pub record Restored (e e' : Editor) : Type 0 where
  pub valid : IsValid e'
  pub z : e'.z ≡ e.z
  pub begv : e'.begv ≡ e.begv
  pub zv : e'.zv ≡ e.zv
  pub text : SameText e e'

-- So are point and the markers.
abbrev pub RestoredAll : Editor → Editor → Type 0
RestoredAll e e' = Restored e e' × (e'.pt ≡ e.pt) × SameMarks e e'

closed-insertion : (pt n m : ℕ) → 1 ≤ n → closed pt (pt + n) (if ltb pt m then m + n else m) ≡ m
closed-insertion pt n m h = ground arith

-- A character after an insertion and the deletion of what was inserted.
text_back :
    (c new : ℕ → ℕ) (pt len d n x2 x1 y1 : ℕ)
    → d ≡ len
    → x2 ≡ (if ltb n pt then x1 else y1)
    → x1 ≡ (if ltb n pt then c n else if ltb n (pt + len) then new n else c (n - len))
    → y1 ≡ (
        if ltb (n + d) pt
        then c (n + d)
        else if ltb (n + d) (pt + len)
        then new (n + d)
        else c (n + d - len))
    → x2 ≡ c n
text_back c new pt len d n x2 x1 y1 e h1 h2 h3 =
    let index : n + d - len ≡ n = omega arith in ground (arith, index)

-- The text of an insertion deleted again, and point at its beginning.
Inserted-Deleted :
    (s : List ℕ) (e e1 e2 : Editor)
    → IsValid e
    → 1 ≤ length s
    → Inserted s e e1
    → Deleted e.pt (e.pt + length s) e1 e2
    → RestoredAll e (goto_char (pos e.pt) e2)
unfolding goto_char clip_to_bounds
Inserted-Deleted s e e1 e2 v size r d = (
  record {
    valid = goto_char-IsValid (pos e.pt) d.valid;
    z = omega (arith, d.z, r.z);
    begv = d.begv ∙ r.begv;
    zv = omega (arith, d.zv, r.zv);
    text = λ n h1 h2.
        text_back (char_at e) (λ k. get_or s (k - e.pt) 0) e.pt (length s) (e.pt + length s - e.pt)
          n (char_at e2 n) (char_at e1 n) (char_at e1 (n + (e.pt + length s - e.pt))) (omega arith)
          (d.text n h1 (omega (arith, d.z, r.z))) (r.text n h1 (omega (arith, r.z)))
          (r.text (n + (e.pt + length s - e.pt)) (omega arith) (omega (arith, r.z)));
  },
  ground (arith, d.begv, r.begv, d.zv, r.zv, v.pt_low, v.pt_high),
  λ m i.
      d.marks m (ap (has m) r.markers ∙ i)
      ∙ ap (closed e.pt (e.pt + length s)) (r.marks m i)
      ∙ closed-insertion e.pt (length s) (marker_at e m) size,
)

-- Undoing an insertion right after it restores the text, the visible part, point and every
-- marker; or it signals and the buffer shows what it did.
pub undo_insertion_restores :
    (host : Host) (s : List ℕ) (e e1 : Editor)
    → IsValid e
    → 1 ≤ length s
    → Inserted s e e1
    → Ends (λ _. RestoredAll e) (NotDeleted host e1) (undo_insertion host e.pt (e.pt + length s) e1)
unfolding undo_insertion
undo_insertion_restores host s e e1 v size r =
    let low : e1.begv ≤ e.pt = omega (arith, r.begv, v.pt_low) in
    let high : e.pt + length s ≤ e1.zv = omega (arith, r.zv, v.pt_high) in
    let visible : (ltb e.pt e1.begv || ltb e1.zv (e.pt + length s)) ≡ false = ground arith in
    rw visible (
      Ends-bind (λ _. Deleted e.pt (e.pt + length s) e1) (λ _. RestoredAll e) (NotDeleted host e1)
        (delete_region host e.pt (e.pt + length s) e1) _
        (delete_region_deletes host e.pt (e.pt + length s) e1 r.valid low (omega arith) high)
        λ _ e2 d. Inserted-Deleted s e e1 e2 v size r d)
