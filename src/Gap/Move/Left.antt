-- ===== src/Gap/Move/Left.antt =====
-- gap_left: whatever stops it, the buffer shows what it did.
use holomacs.Prelude.{
  ℕ, ◌+◌, ◌-◌, ◌≤◌, ◌≡◌, refl, ◌⊎◌, Bool, true, not, ◌&&◌, List, arith, ltb, leb, if◌then◌else◌,
  pos,
}
use holomacs.Editor.{Editor, check_quit}
use holomacs.Editor.View.{
  IsValid, Ends, Arrived, Stopped, Kept, with_quit, check_quit-Ends, moved-SameFields,
}
use holomacs.Gap.{gap_left, note_left, adjust_markers, adjust_chain}
use holomacs.Gap.Adjust.{adjust_chain_lem, place-adjust_left, adjust_left_range}
use holomacs.Gap.Move.Loop.{left_loop_lem}

-- The state at the QUIT that ends gap_left.
abbrev pub after_left : ℕ → Bool → (ℕ → ℕ) → Bool → List Bool → ℕ → Editor → Editor
after_left p newgap bytes flag left stop e = record (note_left newgap p e) {
  beg = bytes;
  quit_flag = flag;
  arrivals = left;
  bufpos = adjust_chain (stop + 1) e.gpt (pos e.gap_size) e.markers e.bufpos;
  gpt = stop + 1;
}

pub record LeftRun (e : Editor) (position : ℕ) (newgap : Bool) : Type 0 where
  pub stop : ℕ
  pub bytes : ℕ → ℕ
  pub flag : Bool
  pub left : List Bool
  pub returns :
      gap_left position newgap e
      ≡ check_quit (after_left (position - 1) newgap bytes flag left stop e)
  pub low : position ≤ stop + 1
  pub high : stop + 1 ≤ e.gpt
  pub moved :
      (a : ℕ)
      → bytes a ≡ (
          if leb (stop + e.gap_size) a && ltb a (e.gpt - 1 + e.gap_size)
          then e.beg (a - e.gap_size)
          else e.beg a)
  pub reached : (stop + 1 ≡ position) ⊎ ((flag && not e.inhibit_quit) ≡ true)

pub gap_left-LeftRun :
    (e : Editor) (position : ℕ) (newgap : Bool)
    → 1 ≤ position
    → position ≤ e.gpt
    → e.gpt - 1 + e.gap_size ≤ e.room
    → LeftRun e position newgap
unfolding gap_left note_left adjust_markers
gap_left-LeftRun e position newgap h1 h2 h3 =
    let p = position - 1 in
    let r =
      left_loop_lem (e.gpt - 1 - p + 1) p (e.gpt - 1) (e.gpt + e.gap_size - 1) (e.gpt - 1)
        e.gap_size (note_left newgap p e) (omega arith) (omega arith) (omega arith) refl
        (omega arith) in
    record {
      stop = r.stop;
      bytes = r.bytes;
      flag = r.flag;
      left = r.left;
      returns = rw r.returns;
      low = omega (arith, r.low);
      high = omega (arith, r.high);
      moved = λ a. r.moved a;
      reached = ground (arith, r.reached);
    }

left-Kept :
    (e : Editor) (position : ℕ) (newgap flag : Bool) (left : List Bool)
    → IsValid e
    → 1 ≤ position
    → (r : LeftRun e position newgap)
    → Kept position e.gpt e
        (with_quit flag left (after_left (position - 1) newgap r.bytes r.flag r.left r.stop e))
unfolding note_left
left-Kept e position newgap flag left v h r = record {
  valid = record {
    begv_low = v.begv_low;
    pt_low = v.pt_low;
    pt_high = v.pt_high;
    zv_high = v.zv_high;
    gpt_low = omega arith;
    gpt_high = omega (arith, v.gpt_high, r.high);
    allocated = v.allocated;
    chain = v.chain;
    placed = λ m i.
        rw (adjust_chain_lem (r.stop + 1) e.gpt (pos e.gap_size) e.markers e.bufpos m v.chain, i)
          (adjust_left_range (r.stop + 1) e.gpt e.gap_size e.z (e.bufpos m) r.high v.gpt_high
            (v.placed m i));
  };
  same = record {
    fields = moved-SameFields _ _ _ _ _ _ _ e;
    text = λ n h1 h2.
        ground (arith, r.moved ((if leb (r.stop + 1) n then e.gap_size else 0) + n - 1), r.high);
    marks = λ m i.
        rw (adjust_chain_lem (r.stop + 1) e.gpt (pos e.gap_size) e.markers e.bufpos m v.chain, i)
          (place-adjust_left (r.stop + 1) e.gpt e.gap_size (e.bufpos m) r.high);
  };
  gap_size = refl;
  room = refl;
  gpt_low = r.low;
  gpt_high = r.high;
}

-- In a valid buffer, gap_left to a `position` of the text before the gap moves it there, or a
-- quit stops it above and is signalled; in both cases the buffer shows what it did.
pub gap_left_keeps :
    (e : Editor) (position : ℕ) (newgap : Bool)
    → IsValid e
    → 1 ≤ position
    → position ≤ e.gpt
    → Ends
        (Arrived position e.gpt position e)
        (Stopped position e.gpt e)
        (gap_left position newgap e)
unfolding note_left
gap_left_keeps e position newgap v h1 h2 =
    let r = gap_left-LeftRun e position newgap h1 h2 (omega (arith, v.allocated, v.gpt_high)) in
    rw r.returns (
      check_quit-Ends _ _ _
        (λ going. (left-Kept e position newgap _ _ v h1 r, ground (arith, r.reached)))
        (λ stops. (refl, left-Kept e position newgap _ _ v h1 r, ground arith)))
