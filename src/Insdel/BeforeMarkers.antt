-- ===== src/Insdel/BeforeMarkers.antt =====
-- insert_before_markers: as insert, but the markers at point move too.
use holomacs.Prelude.{
  ℕ, ◌+◌, ◌-◌, ◌≤◌, ◌<◌, ◌≡◌, sym, ◌∙◌, ap, ◌⊎◌, List, arith, ltb, leb, ◌==◌, if◌then◌else◌, pos,
  length, has, Distinct, get_or, true,
}
use holomacs.Editor.{Editor, Host, char_at}
use holomacs.Editor.View.{IsValid, IsPlaced, Ends, Ends-bind, marker_at, place}
use holomacs.Gap.{adjust_markers, adjust_chain, adjust_pos}
use holomacs.Gap.Adjust.{adjust_chain_lem}
use holomacs.Insdel.{insert, insert_before_markers}
use holomacs.Insdel.Insert.{Inserted, insert_inserts}
use holomacs.Insdel.Insert.Prepare.{NotDone}

-- Of the markers of a buffer with a new text before the gap, those at its beginning go to its end.
before_place :
    (pt n g gap z i : ℕ)
    → 1 ≤ pt
    → 1 ≤ n
    → g ≡ pt + n
    → IsPlaced g gap z i
    → (place g gap i ≤ pt) ⊎ (pt + n < place g gap i)
    → let i' = adjust_pos (pt - 1) pt (pos n) i in
      (place g gap i' ≡ (if place g gap i == pt then pt + n else place g gap i))
      × ((i' ≡ i) ⊎ (i' ≡ pt + n))
unfolding adjust_pos
before_place pt n g gap z i h1 h2 e h3 h4 = ground arith

-- The buffer with `string` inserted before point and before the markers there.
pub record InsertedBefore (string : List ℕ) (e e' : Editor) : Type 0 where
  pub valid : IsValid e'
  pub z : e'.z ≡ e.z + length string
  pub begv : e'.begv ≡ e.begv
  pub zv : e'.zv ≡ e.zv + length string
  pub pt : e'.pt ≡ e.pt + length string
  pub text :
      (n : ℕ)
      → 1 ≤ n
      → n < e'.z
      → char_at e' n ≡ (
          if ltb n e.pt
          then char_at e n
          else if ltb n (e.pt + length string)
          then get_or string (n - e.pt) 0
          else char_at e (n - length string))
  pub marks :
      (m : ℕ)
      → has m e.markers ≡ true
      → marker_at e' m
        ≡ (if leb e.pt (marker_at e m) then marker_at e m + length string else marker_at e m)

chain :
    (pt n m : ℕ) (e1 : Editor)
    → Distinct e1.markers
    → adjust_chain (pt - 1) pt (pos n) e1.markers e1.bufpos m
      ≡ (if has m e1.markers then adjust_pos (pt - 1) pt (pos n) (e1.bufpos m) else e1.bufpos m)
chain pt n m e1 d = adjust_chain_lem _ _ _ e1.markers e1.bufpos m d

module _ (string : List ℕ) (e e1 : Editor) (v : IsValid e) (size : 1 ≤ length string)
    (r : Inserted string e e1) where
  -- Where a marker is after the insertion proper.
  apart :
      (m : ℕ)
      → has m e.markers ≡ true
      → (marker_at e1 m ≤ e.pt) ⊎ (e.pt + length string < marker_at e1 m)
  apart m i = ground (arith, r.marks m i)

  moved :
      (m : ℕ)
      → has m e.markers ≡ true
      → let i' = adjust_pos (e.pt - 1) e.pt (pos (length string)) (e1.bufpos m) in
        (place e1.gpt e1.gap_size i'
          ≡ (if marker_at e1 m == e.pt then e.pt + length string else marker_at e1 m))
        × ((i' ≡ e1.bufpos m) ⊎ (i' ≡ e.pt + length string))
  moved m i =
      before_place e.pt (length string) e1.gpt e1.gap_size e1.z (e1.bufpos m)
        (omega (arith, v.begv_low, v.pt_low)) size r.gpt
        (r.valid.placed m (ap (has m) r.markers ∙ i)) (apart m i)

  before : InsertedBefore string e (adjust_markers (e.pt - 1) e.pt (pos (length string)) e1)
  unfolding adjust_markers
  before = record {
    valid = record {
      begv_low = r.valid.begv_low;
      pt_low = r.valid.pt_low;
      pt_high = r.valid.pt_high;
      zv_high = r.valid.zv_high;
      gpt_low = r.valid.gpt_low;
      gpt_high = r.valid.gpt_high;
      allocated = r.valid.allocated;
      chain = r.valid.chain;
      placed = λ m i.
          rw (chain e.pt (length string) m e1 r.valid.chain, i)
            (ground (
              arith,
              r.valid.placed m i,
              (moved m (ap (has m) (sym r.markers) ∙ i)).1,
              r.gpt,
              r.valid.gpt_high,
            ));
    };
    z = r.z;
    begv = r.begv;
    zv = r.zv;
    pt = r.pt;
    text = r.text;
    marks = λ m i.
        rw (chain e.pt (length string) m e1 r.valid.chain, ap (has m) r.markers ∙ i)
          ((moved m i).0 ∙ ground (arith, r.marks m i));
  }

-- In a valid buffer, insert_before_markers of a text that is not empty inserts it before point
-- and before the markers at point, or signals with a reason and the buffer shows what it did.
pub insert_before_markers_inserts :
    (host : Host) (string : List ℕ) (e : Editor)
    → IsValid e
    → 1 ≤ length string
    → Ends
        (λ _. InsertedBefore string e)
        (NotDone host (length string) e)
        (insert_before_markers host string e)
unfolding insert_before_markers
insert_before_markers_inserts host string e v h =
    Ends-bind (λ _. Inserted string e) (λ _. InsertedBefore string e)
      (NotDone host (length string) e) (insert host string e) _ (insert_inserts host string e v h)
      λ _ e1 r. before string e e1 v h r
