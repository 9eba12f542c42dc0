-- ===== src/Gap/Grow.antt =====
-- make_gap enlarges the gap where it is, and changes nothing else that the buffer shows.
use holomacs.Prelude.{
  ℕ, ◌+◌, ◌-◌, ◌≤◌, ◌≡◌, refl, inl, inr, true, some, arith, leb, if◌then◌else◌, Option-cases, pos,
}
use holomacs.Editor.{Editor, memory_full, ok, poll, check_quit, Host}
use holomacs.Editor.View.{IsPlaced, IsValid, SameBuffer, Ends, place}
use holomacs.Gap.{make_gap, more_space, new_space, combine, adjust_pos, note_left}
use holomacs.Gap.Adjust.{adjust_chain_lem}
use holomacs.Gap.Move.Left.{LeftRun, gap_left-LeftRun, after_left}

check_quit-inhibited : (e : Editor) → e.inhibit_quit ≡ true → check_quit e ≡ ok tt (poll e)
unfolding check_quit
check_quit-inhibited e h = ground arith

place-grown :
    (g gap more z i : ℕ)
    → g ≤ z
    → i ≤ z + gap
    → place g (more + gap) (adjust_pos (g + gap) (z + gap) (pos more) i) ≡ place g gap i
unfolding adjust_pos
place-grown g gap more z i h1 h2 = ground arith

grown_range :
    (g gap more z i : ℕ)
    → g ≤ z
    → IsPlaced g gap z i
    → IsPlaced g (more + gap) z (adjust_pos (g + gap) (z + gap) (pos more) i)
unfolding adjust_pos
grown_range g gap more z i h1 h2 = ground arith

-- The same buffer with `more` bytes added to its gap.
pub record Grown (more : ℕ) (e e' : Editor) : Type 0 where
  pub valid : IsValid e'
  pub same : SameBuffer e e'
  pub gap_size : e'.gap_size ≡ e.gap_size + more
  pub gpt : e'.gpt ≡ e.gpt

combined-Grown :
    (host : Host) (increment : ℕ) (e : Editor) (bytes : ℕ → ℕ)
    → host.realloc e.beg e.room (e.z - 1 + e.gap_size + more_space increment) ≡ some bytes
    → IsValid e
    → (r : LeftRun (new_space (more_space increment) bytes e) (e.gpt + e.gap_size) true)
    → Grown (increment + 2000) e (
        combine e (
          poll (
            after_left
              (e.gpt + e.gap_size - 1)
              true
              r.bytes
              r.flag
              r.left
              r.stop
              (new_space (more_space increment) bytes e))))
unfolding combine new_space note_left
combined-Grown host increment e bytes got v r =
    let there : r.stop + 1 ≡ e.gpt + e.gap_size = ground (arith, r.reached) in
    record {
      valid = record {
        begv_low = v.begv_low;
        pt_low = v.pt_low;
        pt_high = v.pt_high;
        zv_high = v.zv_high;
        gpt_low = v.gpt_low;
        gpt_high = v.gpt_high;
        allocated = omega (arith, v.allocated, v.gpt_low, v.gpt_high);
        chain = v.chain;
        placed = λ m i.
            rw
              (
                there,
                adjust_chain_lem (e.gpt + e.gap_size) (e.z + e.gap_size)
                    (pos (more_space increment)) e.markers e.bufpos m v.chain,
                i,
              )
              (grown_range e.gpt e.gap_size (more_space increment) e.z (e.bufpos m) v.gpt_high
                (v.placed m i));
      };
      same = record {
        fields = record {
          z = refl;
          begv = refl;
          zv = refl;
          pt = refl;
          modiff = refl;
          save_modified = refl;
          modtime = refl;
          markers = refl;
          undo_list = refl;
          read_only = refl;
          inhibit_quit = refl;
          self = refl;
          last_undo_buffer = refl;
        };
        text = λ n h1 h2. ground (
          arith,
          r.moved ((if leb e.gpt n then more_space increment + e.gap_size else 0) + n - 1),
          host.realloc_keeps e.beg e.room (e.z - 1 + e.gap_size + more_space increment) got
              ((if leb e.gpt n then e.gap_size else 0) + n - 1),
          there,
          v.allocated,
        );
        marks = λ m i.
            rw
              (
                there,
                adjust_chain_lem (e.gpt + e.gap_size) (e.z + e.gap_size)
                    (pos (more_space increment)) e.markers e.bufpos m v.chain,
                i,
              )
              (place-grown e.gpt e.gap_size (more_space increment) e.z (e.bufpos m) v.gpt_high
                (v.placed m i).1);
      };
      gap_size = omega arith;
      gpt = refl;
    }

-- In a valid buffer, make_gap makes the gap larger by what is asked for and 2000 more, in place,
-- whatever quits arrive; if there is no memory it says so and changes nothing.
pub make_gap_grows :
    (host : Host) (increment : ℕ) (e : Editor)
    → IsValid e
    → Ends
        (λ _ e'. Grown (increment + 2000) e e')
        (λ s e'. (s ≡ memory_full) × (e' ≡ e))
        (make_gap host increment e)
unfolding make_gap new_space note_left
make_gap_grows host increment e v =
    elim (Option-cases (host.realloc e.beg e.room (e.z - 1 + e.gap_size + more_space increment))) [
      | inl no_memory ↦ rw (no_memory, make_gap) (refl, refl)
      | inr (bytes, got) ↦
          let r =
            gap_left-LeftRun (new_space (more_space increment) bytes e) (e.gpt + e.gap_size) true
              (omega (arith, v.gpt_low)) (omega (arith, v.gpt_high))
              (omega (arith, v.gpt_low, v.gpt_high)) in
          rw
            (
              got,
              make_gap,
              r.returns,
              check_quit-inhibited
                  (after_left (e.gpt + e.gap_size - 1) true r.bytes r.flag r.left r.stop
                    (new_space (more_space increment) bytes e))
                  refl,
            )
            (combined-Grown host increment e bytes got v r)
    ]
