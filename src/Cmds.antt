-- ===== src/Cmds.antt =====
-- cmds.c: the commands that move point by characters and lines and delete characters. A prefix
-- argument of nil is `none`.
pub mod Lines
pub mod PointLine
pub mod Chars
use holomacs.Prelude.{
  ℕ, zero, suc, ◌+◌, ◌-◌, Bool, true, false, not, ◌&&◌, ◌||◌, Option, none, some, ltb, leb, ◌==◌,
  if◌then◌else◌, ℤ, pos, negsuc, ◌+ℤ◌, ◌-ℤ◌, ltb_ℤ,
}
use holomacs.Editor.{
  Editor, Signal, beginning_of_buffer, end_of_buffer, Run, ok, signal, fault, Cmd, and_then, ◌>>=◌,
  ◌>>◌, pure, when, char_at, Host,
}
use holomacs.Editfns.{newline}
use holomacs.Insdel.{del_range}
use holomacs.Search.{scan_buffer}
use holomacs.Lisp.Data.{to_int, to_lisp_int}

-- `if (NULL (n)) XFASTINT (n) = 1;`
abbrev pub prefix : Option ℤ → ℤ
prefix none = pos 1
prefix (some n) = n

-- A position that is not negative.
abbrev pub to_position : ℤ → ℕ
to_position (pos n) = n
to_position (negsuc n) = 0

unfoldable pub forward_char : Option ℤ → Cmd (Unit {0})
forward_char n e =
    let p = to_int (pos e.pt +ℤ prefix n) in
    if ltb_ℤ p (pos e.begv)
    then signal beginning_of_buffer (record e { pt = e.begv })
    else if ltb_ℤ (pos e.zv) p
    then signal end_of_buffer (record e { pt = e.zv })
    else ok tt (record e { pt = to_position p })

unfoldable pub backward_char : Option ℤ → Cmd (Unit {0})
unfolding forward_char
backward_char n = forward_char (some (to_lisp_int (pos 0 -ℤ prefix n)))

-- `while (pos < stop && FETCH_CHAR (pos) != '\n') pos++;`, in `stop - pos` rounds.
unfoldable pub line_end : (rounds : ℕ) → Editor → ℕ → ℕ
line_end zero e at = at
line_end (suc k) e at = if char_at e at == newline then at else line_end k e (at + 1)

-- What is left to move where the scan has come to a position with a shortage: a line that is not
-- empty counts.
abbrev pub lines_left : Editor → (negp : Bool) → ℕ × ℤ → ℤ
lines_left e negp (at, shortage) =
    let partial =
      ltb_ℤ (pos 0) shortage
      && (negp || ltb e.begv e.zv && not (at == e.pt) && not (char_at e (at - 1) == newline)) in
    let left = if partial then shortage -ℤ pos 1 else shortage in
    if negp then pos 0 -ℤ left else left

module _ (ceiling floor : Editor → ℕ → ℕ) where
  -- The lines that are left to move, and where point comes to lie.
  unfoldable pub forward_line : Option ℤ → Cmd ℤ
  unfolding scan_buffer
  forward_line n e =
      let count = to_int (prefix n) in
      let negp = not (ltb_ℤ (pos 0) count) in
      and_then
        (scan_buffer ceiling floor newline e.pt (if negp then to_int (count -ℤ pos 1) else count) e)
        (λ r s. ok (lines_left s negp r) (record s { pt = r.0 }))

  unfoldable pub beginning_of_line : Option ℤ → Cmd (Unit {0})
  unfolding forward_line
  beginning_of_line n e = and_then (forward_line (some (to_int (prefix n -ℤ pos 1))) e) (λ _. ok tt)

  unfoldable pub end_of_line : Option ℤ → Cmd (Unit {0})
  unfolding forward_line line_end
  end_of_line n e =
      and_then
        (when (not (is_one (prefix n)))
          (λ s. and_then (forward_line (some (to_int (prefix n -ℤ pos 1))) s) (λ _. ok tt)) e)
        (λ _ s. ok tt (record s { pt = line_end (s.zv - s.pt) s s.pt }))
    where
      is_one : ℤ → Bool
      is_one (pos n) = n == 1
      is_one (negsuc n) = false

-- The Lisp function `kill-forward-chars`, which is called with the number, is an argument.
unfoldable pub delete_char :
    Host → (kill_forward_chars : ℤ → Cmd (Unit {0})) → (n : ℤ) → (killflag : Bool) → Cmd (Unit {0})
delete_char host kill n killflag e =
    if killflag
    then kill n e
    else if ltb_ℤ n (pos 0)
    then (if ltb_ℤ (pos e.pt +ℤ n) (pos e.begv)
        then signal beginning_of_buffer e
        else del_range host (to_position (pos e.pt +ℤ n)) e.pt e)
    else (if ltb_ℤ (pos e.zv) (pos e.pt +ℤ n)
        then signal end_of_buffer e
        else del_range host e.pt (to_position (pos e.pt +ℤ n)) e)

unfoldable delete_backward_char :
    Host → (kill_forward_chars : ℤ → Cmd (Unit {0})) → (n : ℤ) → (killflag : Bool) → Cmd (Unit {0})
unfolding delete_char
delete_backward_char host kill n = delete_char host kill (to_int (pos 0 -ℤ n))
