-- ===== src/Gap/Move/Right.antt =====
-- gap_right: whatever stops it, the buffer shows what it did.
use holomacs.Prelude.{
  ℕ, ◌+◌, ◌-◌, ◌≤◌, ◌≡◌, refl, ◌⊎◌, Bool, true, not, ◌&&◌, List, arith, ltb, leb, if◌then◌else◌,
  sub_ℕ, has, Distinct,
}
use holomacs.Editor.{Editor, check_quit}
use holomacs.Editor.View.{
  IsValid, Ends, Arrived, Stopped, Kept, with_quit, check_quit-Ends, moved-SameFields,
}
use holomacs.Gap.{
  gap_right, gap_right, note_right, note_right, adjust_markers, adjust_chain, adjust_pos,
}
use holomacs.Gap.Adjust.{
  adjust_chain_lem, place-adjust_right, adjust_right_range, place-adjust_right, adjust_right_range,
}
use holomacs.Gap.Move.Loop.{right_loop_lem}

-- The state at the QUIT that ends gap_right.
abbrev pub after_right : ℕ → (ℕ → ℕ) → Bool → List Bool → ℕ → Editor → Editor
after_right p bytes flag left stop e = record (note_right p e) {
  beg = bytes;
  quit_flag = flag;
  arrivals = left;
  bufpos =
      adjust_chain (e.gpt + e.gap_size) (stop + 1 + e.gap_size) (sub_ℕ 0 e.gap_size) e.markers
        e.bufpos;
  gpt = stop + 1;
}

pub record RightRun (e : Editor) (position : ℕ) : Type 0 where
  pub stop : ℕ
  pub bytes : ℕ → ℕ
  pub flag : Bool
  pub left : List Bool
  pub returns :
      gap_right position e ≡ check_quit (after_right (position - 1) bytes flag left stop e)
  pub low : e.gpt ≤ stop + 1
  pub high : stop + 1 ≤ position
  pub moved :
      (a : ℕ)
      → bytes a ≡ (if leb (e.gpt - 1) a && ltb a stop then e.beg (a + e.gap_size) else e.beg a)
  pub reached : (stop + 1 ≡ position) ⊎ ((flag && not e.inhibit_quit) ≡ true)

pub gap_right-RightRun :
    (e : Editor) (position : ℕ)
    → 1 ≤ e.gpt
    → e.gpt ≤ position
    → position - 1 + e.gap_size ≤ e.room
    → RightRun e position
unfolding gap_right note_right adjust_markers
gap_right-RightRun e position h1 h2 h3 =
    let p = position - 1 in
    let r =
      right_loop_lem (p - (e.gpt - 1) + 1) p (e.gpt - 1) (e.gpt - 1) (e.gpt + e.gap_size - 1)
        e.gap_size (note_right p e) (omega arith) (omega arith) refl (omega arith) (omega arith) in
    record {
      stop = r.stop;
      bytes = r.bytes;
      flag = r.flag;
      left = r.left;
      returns = rw r.returns;
      low = omega (arith, r.low);
      high = omega (arith, r.high);
      moved = λ a. r.moved a;
      reached = ground (arith, r.reached);
    }

chain :
    (e : Editor) (stop m : ℕ)
    → Distinct e.markers
    → adjust_chain
        (e.gpt + e.gap_size)
        (stop + 1 + e.gap_size)
        (sub_ℕ 0 e.gap_size)
        e.markers
        e.bufpos
        m
      ≡ (if has m e.markers
          then adjust_pos
              (e.gpt + e.gap_size)
              (stop + 1 + e.gap_size)
              (sub_ℕ 0 e.gap_size)
              (e.bufpos m)
          else e.bufpos m)
chain e stop m d = adjust_chain_lem _ _ _ e.markers e.bufpos m d

right-Kept :
    (e : Editor) (position : ℕ) (flag : Bool) (left : List Bool)
    → IsValid e
    → position ≤ e.z
    → (r : RightRun e position)
    → Kept e.gpt position e
        (with_quit flag left (after_right (position - 1) r.bytes r.flag r.left r.stop e))
unfolding note_right
right-Kept e position flag left v h r = record {
  valid = record {
    begv_low = v.begv_low;
    pt_low = v.pt_low;
    pt_high = v.pt_high;
    zv_high = v.zv_high;
    gpt_low = omega arith;
    gpt_high = omega (arith, r.high);
    allocated = v.allocated;
    chain = v.chain;
    placed = λ m i.
        rw (chain e r.stop m v.chain, i)
          (adjust_right_range (r.stop + 1) e.gpt e.gap_size e.z (e.bufpos m) v.gpt_low r.low
            (omega (arith, r.high)) (v.placed m i));
  };
  same = record {
    fields = moved-SameFields _ _ _ _ _ _ _ e;
    text = λ n h1 h2.
        ground (
          arith,
          r.moved ((if leb (r.stop + 1) n then e.gap_size else 0) + n - 1),
          r.low,
          v.gpt_low,
        );
    marks = λ m i.
        rw (chain e r.stop m v.chain, i)
          (place-adjust_right (r.stop + 1) e.gpt e.gap_size (e.bufpos m) r.low);
  };
  gap_size = refl;
  room = refl;
  gpt_low = r.low;
  gpt_high = r.high;
}

-- In a valid buffer, gap_right to a `position` of the text behind the gap moves it there, or a
-- quit stops it below and is signalled; in both cases the buffer shows what it did.
pub gap_right_keeps :
    (e : Editor) (position : ℕ)
    → IsValid e
    → e.gpt ≤ position
    → position ≤ e.z
    → Ends (Arrived e.gpt position position e) (Stopped e.gpt position e) (gap_right position e)
unfolding note_right
gap_right_keeps e position v h1 h2 =
    let r = gap_right-RightRun e position v.gpt_low h1 (omega (arith, v.allocated)) in
    rw r.returns (
      check_quit-Ends _ _ _ (λ going. (right-Kept e position _ _ v h2 r, ground (arith, r.reached)))
        (λ stops. (refl, right-Kept e position _ _ v h2 r, ground arith)))
