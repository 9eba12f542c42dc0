-- ===== src/Insdel/Delete/Close.antt =====
-- close_over makes a text part of the gap.
use holomacs.Prelude.{
  ℕ, zero, suc, ◌+◌, ◌-◌, ◌≤◌, ◌<◌, ◌≡◌, ◌∙◌, ap, ◌⊎◌, true, arith, ltb, leb, if◌then◌else◌, negsuc,
  sub_ℕ, has, Distinct,
}
use holomacs.Editor.{Editor, char_at}
use holomacs.Editor.View.{IsValid, IsPlaced, marker_at, place}
use holomacs.Gap.{adjust_chain, adjust_pos}
use holomacs.Gap.Adjust.{adjust_chain_lem}
use holomacs.Editfns.Substring.{substring}
use holomacs.UndoList.{prepare_list, with_deletion}
use holomacs.Insdel.{relocate, close_over, count_change}
use holomacs.Insdel.Delete.Record.{Recorded, deletion_at}

-- A marker into the text, where the text from `from` to `to` goes away.
abbrev pub closed : (from to p : ℕ) → ℕ
closed from to p = if leb p from then p else if leb to p then p - (to - from) else from

close_pos-suc :
    (from to g gap z k i : ℕ)
    → from < to
    → from ≤ g
    → g ≤ to
    → suc k ≡ to - from + gap
    → IsPlaced g gap z i
    → let i' = adjust_pos (to + gap) (to + gap) (negsuc k) i in
      (place from (gap + (to - from)) i' ≡ closed from to (place g gap i))
      × ((i' ≡ i) ⊎ (i' ≡ from))
      × ((i' ≤ from) ⊎ (to + gap < i'))
unfolding adjust_pos
close_pos-suc from to g gap z k i h1 h2 h3 h4 h5 = ground arith

minus : (n k : ℕ) → suc k ≡ n → sub_ℕ 0 n ≡ negsuc k
minus zero k h = absurd (omega arith)
minus (suc n) k h = ground arith

-- The position of a marker after close_over.
close_pos :
    (from to g gap z i : ℕ)
    → from < to
    → from ≤ g
    → g ≤ to
    → IsPlaced g gap z i
    → let i' = adjust_pos (to + gap) (to + gap) (sub_ℕ 0 (to - from + gap)) i in
      (place from (gap + (to - from)) i' ≡ closed from to (place g gap i))
      × ((i' ≡ i) ⊎ (i' ≡ from))
      × ((i' ≤ from) ⊎ (to + gap < i'))
close_pos from to g gap z i h1 h2 h3 h5 =
    let k = to - from + gap - 1 in
    let size : suc k ≡ to - from + gap = omega arith in
    rw (minus (to - from + gap) k size) (close_pos-suc from to g gap z k i h1 h2 h3 size h5)

-- The buffer without the text from `from` to `to`: what follows has moved down, and point and the
-- markers into that text are at `from`.
pub record Deleted (from to : ℕ) (e e' : Editor) : Type 0 where
  pub valid : IsValid e'
  pub z : e'.z + (to - from) ≡ e.z
  pub begv : e'.begv ≡ e.begv
  pub zv : e'.zv + (to - from) ≡ e.zv
  pub pt : e'.pt ≡ closed from to e.pt
  pub modiff : e'.modiff ≡ e.modiff + 1
  pub markers : e'.markers ≡ e.markers
  pub text :
      (n : ℕ)
      → 1 ≤ n
      → n < e'.z
      → char_at e' n ≡ (if ltb n from then char_at e n else char_at e (n + (to - from)))
  pub marks : (m : ℕ) → has m e.markers ≡ true → marker_at e' m ≡ closed from to (marker_at e m)
  pub undo_list :
      e'.undo_list
      ≡ with_deletion (substring e from (to - from)) (deletion_at from to e.pt) (prepare_list e)
  pub last_undo_buffer : e'.last_undo_buffer ≡ e.self
  pub self : e'.self ≡ e.self
  pub save_modified : e'.save_modified ≡ e.save_modified

relocate-closed : (from to p : ℕ) → from < to → relocate from to (to - from) p ≡ closed from to p
relocate-closed from to p h = ground arith

closed_chain :
    (from to : ℕ) (e : Editor) (m : ℕ)
    → Distinct e.markers
    → adjust_chain
        (to + e.gap_size)
        (to + e.gap_size)
        (sub_ℕ 0 (to - from + e.gap_size))
        e.markers
        e.bufpos
        m
      ≡ (if has m e.markers
          then adjust_pos
              (to + e.gap_size)
              (to + e.gap_size)
              (sub_ℕ 0 (to - from + e.gap_size))
              (e.bufpos m)
          else e.bufpos m)
closed_chain from to e m d = adjust_chain_lem _ _ _ e.markers e.bufpos m d

closed_text :
    (from to : ℕ) (e : Editor) (n : ℕ)
    → from < to
    → from ≤ e.gpt
    → e.gpt ≤ to
    → e.beg ((if leb from n then e.gap_size + (to - from) else 0) + n - 1)
      ≡ (if ltb n from then char_at e n else char_at e (n + (to - from)))
closed_text from to e n h1 h2 h3 =
    let moved : e.gap_size + (to - from) + n - 1 ≡ e.gap_size + (n + (to - from)) - 1 =
      omega arith in
    ground (arith, moved)

closed_range :
    (from to g gap z i : ℕ)
    → 1 ≤ from
    → from < to
    → from ≤ g
    → g ≤ to
    → to ≤ z
    → IsPlaced g gap z i
    → IsPlaced from
        (gap + (to - from))
        (z - (to - from))
        (adjust_pos (to + gap) (to + gap) (sub_ℕ 0 (to - from + gap)) i)
closed_range from to g gap z i h0 h1 h2 h3 h4 h5 = ground (arith, close_pos from to g gap z i)

pub close_Deleted :
    (from to : ℕ) (e e4 : Editor)
    → 1 ≤ from
    → e.begv ≤ from
    → from < to
    → to ≤ e.zv
    → Recorded from to e e4
    → Deleted from to e (close_over from to (count_change e4))
unfolding close_over
close_Deleted from to e e4 h0 h1 h2 h3 r =
    let s = r.shown in
    let v = s.valid in
    let at : relocate from to (to - from) e4.pt ≡ closed from to e4.pt =
      relocate-closed from to e4.pt h2 in
    record {
      valid = record {
        begv_low = v.begv_low;
        pt_low = rw at (ground (arith, s.begv, v.pt_low));
        pt_high = rw at (ground (arith, s.zv, v.pt_high));
        zv_high = omega (arith, v.zv_high);
        gpt_low = h0;
        gpt_high = omega (arith, s.zv, v.zv_high);
        allocated = omega (arith, v.allocated, s.zv, v.zv_high);
        chain = v.chain;
        placed = λ m i.
            rw (closed_chain from to e4 m v.chain, i)
              (closed_range from to e4.gpt e4.gap_size e4.z (e4.bufpos m) h0 h2 r.gpt_low r.gpt_high
                (omega (arith, s.zv, v.zv_high)) (v.placed m i));
      };
      z = omega (arith, s.z, s.zv, v.zv_high);
      begv = s.begv;
      zv = omega (arith, s.zv);
      pt = at ∙ ap (closed from to) s.pt;
      modiff = omega (arith, s.modiff);
      markers = s.markers;
      text = λ n b1 b2.
          closed_text from to e4 n h2 r.gpt_low r.gpt_high
          ∙ ground (arith, s.text n, s.text (n + (to - from)), s.z, s.zv, v.zv_high);
      marks = λ m i.
          rw (closed_chain from to e4 m v.chain, ap (has m) s.markers ∙ i)
            ((close_pos from to e4.gpt e4.gap_size e4.z (e4.bufpos m) h2 r.gpt_low r.gpt_high
                (v.placed m (ap (has m) s.markers ∙ i))).0
              ∙ ap (closed from to) (s.marks m i));
      undo_list = r.undo_list;
      last_undo_buffer = r.last_undo_buffer;
      self = s.self;
      save_modified = s.save_modified;
    }
