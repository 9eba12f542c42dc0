-- ===== src/Gap/Move/Loop.antt =====
-- The loops of gap_left and gap_right: how far they come, and what they have moved.
use holomacs.Prelude.{
  ℕ, zero, suc, ◌+◌, ◌-◌, ◌≤◌, ◌<◌, ◌≡◌, refl, ◌⊎◌, inl, inr, Bool, true, not, ◌&&◌, List, arith,
  ltb, leb, ◌==◌, if◌then◌else◌, Bool-cases,
}
use holomacs.Editor.{Editor, Run, ok, poll, quitp}
use holomacs.Gap.{left_loop, right_loop, chunk}
use holomacs.Gap.Copy.{copy_down_lem, copy_up_lem}

-- The loop returned `stop`, and the bytes from `stop` to `s1` now stand `gap` higher.
pub record MovedUp (e : Editor) (p s1 gap : ℕ) (r : Run ℕ) : Type 0 where
  pub stop : ℕ
  pub bytes : ℕ → ℕ
  pub flag : Bool
  pub left : List Bool
  pub returns : r ≡ ok stop (record e { beg = bytes; quit_flag = flag; arrivals = left })
  pub low : p ≤ stop
  pub high : stop ≤ s1
  pub moved :
      (a : ℕ)
      → bytes a ≡ (if leb (stop + gap) a && ltb a (s1 + gap) then e.beg (a - gap) else e.beg a)
  pub reached : (stop ≡ p) ⊎ ((flag && not e.inhibit_quit) ≡ true)

pub left_loop_lem :
    (k p s1 to from gap : ℕ) (e : Editor)
    → p ≤ s1
    → s1 - p < k
    → to ≡ s1 + gap
    → from ≡ s1
    → s1 + gap ≤ e.room
    → MovedUp e p s1 gap (left_loop k p s1 to from e)
unfolding left_loop
left_loop_lem zero p s1 to from gap e hp hk ht hf hr = elim hk [ ]
left_loop_lem (suc k) p s1 to from gap e hp hk ht hf hr = elim (Bool-cases (s1 == p)) [
  | inl done ↦ record {
    stop = p;
    bytes = e.beg;
    flag = e.quit_flag;
    left = e.arrivals;
    returns = rw done;
    low = omega arith;
    high = hp;
    moved = λ a. ground arith;
    reached = inl refl;
  }
  | inr more ↦ elim (Bool-cases (quitp (poll e))) [
    | inl quitting ↦ record {
      stop = s1;
      bytes = e.beg;
      flag = (poll e).quit_flag;
      left = (poll e).arrivals;
      returns = rw (more, quitting);
      low = hp;
      high = omega arith;
      moved = λ a. ground arith;
      reached = inr quitting;
    }
    | inr going ↦
        let i = chunk (s1 - p) in
        let step : (0 < i) × (i ≤ s1 - p) = ground arith in
        let (m, copied, all) =
          copy_down_lem e.room i to from e.beg (omega arith) (omega arith) (omega arith) in
        let rest =
          left_loop_lem k p (s1 - i) (to - i) (from - i) gap (record (poll e) { beg = m })
            (omega arith) (omega arith) (omega arith) (omega arith) (omega arith) in
        record {
          stop = rest.stop;
          bytes = rest.bytes;
          flag = rest.flag;
          left = rest.left;
          returns = rw (more, going, copied) rest.returns;
          low = rest.low;
          high = omega (arith, rest.high);
          moved =
              λ a. ground (arith, rest.moved a, all a, all (a - gap), rest.high, rest.low, ht, hf);
          reached = rest.reached;
        }
  ]
]

-- The loop returned `stop`, and the bytes from `s1` to `stop` now stand `gap` lower.
pub record MovedDown (e : Editor) (p s1 gap : ℕ) (r : Run ℕ) : Type 0 where
  pub stop : ℕ
  pub bytes : ℕ → ℕ
  pub flag : Bool
  pub left : List Bool
  pub returns : r ≡ ok stop (record e { beg = bytes; quit_flag = flag; arrivals = left })
  pub low : s1 ≤ stop
  pub high : stop ≤ p
  pub moved : (a : ℕ) → bytes a ≡ (if leb s1 a && ltb a stop then e.beg (a + gap) else e.beg a)
  pub reached : (stop ≡ p) ⊎ ((flag && not e.inhibit_quit) ≡ true)

pub right_loop_lem :
    (k p s1 to from gap : ℕ) (e : Editor)
    → s1 ≤ p
    → p - s1 < k
    → to ≡ s1
    → from ≡ s1 + gap
    → p + gap ≤ e.room
    → MovedDown e p s1 gap (right_loop k p s1 to from e)
unfolding right_loop
right_loop_lem zero p s1 to from gap e hp hk ht hf hr = elim hk [ ]
right_loop_lem (suc k) p s1 to from gap e hp hk ht hf hr = elim (Bool-cases (p == s1)) [
  | inl done ↦ record {
    stop = p;
    bytes = e.beg;
    flag = e.quit_flag;
    left = e.arrivals;
    returns = rw done;
    low = hp;
    high = omega arith;
    moved = λ a. ground arith;
    reached = inl refl;
  }
  | inr more ↦ elim (Bool-cases (quitp (poll e))) [
    | inl quitting ↦ record {
      stop = s1;
      bytes = e.beg;
      flag = (poll e).quit_flag;
      left = (poll e).arrivals;
      returns = rw (more, quitting);
      low = omega arith;
      high = hp;
      moved = λ a. ground arith;
      reached = inr quitting;
    }
    | inr going ↦
        let i = chunk (p - s1) in
        let step : (0 < i) × (i ≤ p - s1) = ground arith in
        let (m, copied, all) = copy_up_lem e.room i to from e.beg (omega arith) (omega arith) in
        let rest =
          right_loop_lem k p (s1 + i) (to + i) (from + i) gap (record (poll e) { beg = m })
            (omega arith) (omega arith) (omega arith) (omega arith) (omega arith) in
        record {
          stop = rest.stop;
          bytes = rest.bytes;
          flag = rest.flag;
          left = rest.left;
          returns = rw (more, going, copied) rest.returns;
          low = omega (arith, rest.low);
          high = rest.high;
          moved =
              λ a. ground (arith, rest.moved a, all a, all (a + gap), rest.high, rest.low, ht, hf);
          reached = rest.reached;
        }
  ]
]
