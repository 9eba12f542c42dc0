-- ===== src/Gap.antt =====
-- The first half of insdel.c: the gap of the current buffer, and the markers that go with it.
-- `int` positions are numbers. Where the source subtracts, so does the model, and the state's
-- invariant keeps the difference from being negative.
pub mod Adjust
pub mod Copy
pub mod Move
pub mod Grow
use holomacs.Prelude.{
  ℕ, zero, suc, ◌+◌, ◌-◌, ◌^◌, ◌%◌, ◌≡◌, Bool, true, false, not, ◌&&◌, ◌||◌, Option, none, some,
  List, [], ◌∷◌, ltb, leb, ◌==◌, if◌then◌else◌, ℤ, pos, negsuc, sub_ℕ, length,
}
use holomacs.Editor.{
  Editor, Signal, quit, buffer_read_only, file_supersession, memory_full, buffer_too_large, Run, ok,
  signal, fault, Cmd, and_then, ◌>>=◌, ◌>>◌, skip, modify, when, poll, quitp, check_quit, peek,
  poke, write, Host,
}

-- mpos + amount
abbrev pub shift : ℕ → ℤ → ℕ
shift n (pos a) = n + a
shift n (negsuc a) = n - suc a

abbrev pub is_positive : ℤ → Bool
is_positive (pos a) = ltb 0 a
is_positive (negsuc a) = false

-- What adjust_markers makes of one marker.
unfoldable pub adjust_pos : (first last : ℕ) → ℤ → ℕ → ℕ
adjust_pos first last amount mpos =
    let mpos' =
      if is_positive amount
      then (if ltb last mpos && ltb mpos (shift last amount) then shift last amount else mpos)
      else (if ltb (shift first amount) mpos && leb mpos first then shift first amount else mpos) in
    if ltb first mpos' && leb mpos' last then shift mpos' amount else mpos'

-- The walk along the chain of markers.
unfoldable pub adjust_chain : (first last : ℕ) → ℤ → List ℕ → (ℕ → ℕ) → ℕ → ℕ
adjust_chain first last amount [] bufpos = bufpos
adjust_chain first last amount (m ∷ chain) bufpos =
    adjust_chain first last amount chain (write bufpos m (adjust_pos first last amount (bufpos m)))

unfoldable pub adjust_markers : (first last : ℕ) → ℤ → Editor → Editor
unfolding adjust_chain adjust_pos
adjust_markers first last amount e = record e {
  bufpos = adjust_chain first last amount e.markers e.bufpos;
}

-- while (--i >= 0) *--to = *--from;
unfoldable pub copy_down : (room i to from : ℕ) → (ℕ → ℕ) → Option (ℕ → ℕ)
copy_down room zero to from m = some m
copy_down room (suc i) to from m = elim (peek room m (from - 1)) [
  | none ↦ none
  | some v ↦ elim (poke room m (to - 1) v) [
    | none ↦ none
    | some m' ↦ copy_down room i (to - 1) (from - 1) m'
  ]
]

-- while (--i >= 0) *to++ = *from++;
unfoldable pub copy_up : (room i to from : ℕ) → (ℕ → ℕ) → Option (ℕ → ℕ)
copy_up room zero to from m = some m
copy_up room (suc i) to from m = elim (peek room m from) [
  | none ↦ none
  | some v ↦ elim (poke room m to v) [
    | none ↦ none
    | some m' ↦ copy_up room i (to + 1) (from + 1) m'
  ]
]

-- Puts the bytes that a copy left in place; `none` is an access outside of them.
abbrev pub with_bytes : Option (ℕ → ℕ) → Cmd (Unit {0})
with_bytes none e = fault
with_bytes (some m) e = ok tt (record e { beg = m })

abbrev pub chunk : ℕ → ℕ
chunk i = if ltb 32000 i then 32000 else i

-- The loop of gap_left: it stops at `p`, or at `s1` where it meets a quit, and returns where.
-- Each round that copies moves a byte, so `s1 - p + 1` rounds are enough.
unfoldable pub left_loop : (rounds p s1 to from : ℕ) → Cmd ℕ
unfolding copy_down
left_loop zero p s1 to from e = fault
left_loop (suc k) p s1 to from e =
    let e' = poll e in
    let i = chunk (s1 - p) in
    let copy =
      and_then (with_bytes (copy_down e.room i to from e.beg) e')
        (λ _. left_loop k p (s1 - i) (to - i) (from - i)) in
    if s1 == p then ok p e else if quitp e' then ok s1 e' else copy

abbrev pub unmodified : Editor → Bool
unmodified e = e.unchanged_modified == e.modiff

abbrev at_most : ℕ → ℕ → ℕ
at_most a b = if ltb a b then a else b

-- What gap_left tells redisplay, from `pos` after its decrement: nothing for a new gap.
unfoldable pub note_left : Bool → ℕ → Editor → Editor
note_left newgap p e = record e {
  beg_unchanged =
      if newgap then e.beg_unchanged else if unmodified e then p else at_most p e.beg_unchanged;
  end_unchanged =
      if newgap
      then e.end_unchanged
      else if unmodified e
      then e.z - p - 1
      else at_most (e.z - e.gpt) e.end_unchanged;
}

unfoldable pub gap_left : ℕ → Bool → Cmd (Unit {0})
unfolding left_loop note_left adjust_markers check_quit
gap_left position newgap = do
  let p = position - 1
  modify (note_left newgap p)
  stop ← λ e. left_loop (e.gpt - 1 - p + 1) p (e.gpt - 1) (e.gpt + e.gap_size - 1) (e.gpt - 1) e
  modify (λ e. adjust_markers (stop + 1) e.gpt (pos e.gap_size) e)
  modify (λ e. record e { gpt = stop + 1 })
  check_quit

-- The loop of gap_right.
unfoldable pub right_loop : (rounds p s1 to from : ℕ) → Cmd ℕ
unfolding copy_up
right_loop zero p s1 to from e = fault
right_loop (suc k) p s1 to from e =
    let e' = poll e in
    let i = chunk (p - s1) in
    let copy =
      and_then (with_bytes (copy_up e.room i to from e.beg) e')
        (λ _. right_loop k p (s1 + i) (to + i) (from + i)) in
    if p == s1 then ok p e else if quitp e' then ok s1 e' else copy

unfoldable pub note_right : ℕ → Editor → Editor
note_right p e = record e {
  beg_unchanged = if unmodified e then p else at_most (e.gpt - 1) e.beg_unchanged;
  end_unchanged = if unmodified e then e.z - p - 1 else at_most (e.z - p - 1) e.end_unchanged;
}

unfoldable pub gap_right : ℕ → Cmd (Unit {0})
unfolding right_loop note_right adjust_markers check_quit
gap_right position = do
  let p = position - 1
  modify (note_right p)
  stop ← λ e. right_loop (p - (e.gpt - 1) + 1) p (e.gpt - 1) (e.gpt - 1) (e.gpt + e.gap_size - 1) e
  modify (λ e. adjust_markers (e.gpt + e.gap_size) (stop + 1 + e.gap_size) (sub_ℕ 0 e.gap_size) e)
  modify (λ e. record e { gpt = stop + 1 })
  check_quit

unfoldable pub move_gap : ℕ → Cmd (Unit {0})
unfolding gap_left gap_right
move_gap position e =
    if ltb position e.gpt
    then gap_left position false e
    else if ltb e.gpt position
    then gap_right position e
    else ok tt e

-- The space added to a gap, with what is added "to last a while".
abbrev pub more_space : ℕ → ℕ
more_space increment = increment + 2000

-- The new space as a gap at the end of the whole space, with quits inhibited.
unfoldable pub new_space : ℕ → (ℕ → ℕ) → Editor → Editor
new_space increment bytes e = record e {
  beg = bytes;
  room = e.z - 1 + e.gap_size + increment;
  inhibit_quit = true;
  gpt = e.z + e.gap_size;
  gap_size = increment;
}

-- The two gaps combined, and the quits as they were.
unfoldable pub combine : Editor → Editor → Editor
combine old e = record e {
  gap_size = e.gap_size + old.gap_size;
  gpt = old.gpt;
  inhibit_quit = old.inhibit_quit;
}

unfoldable pub make_gap : Host → ℕ → Cmd (Unit {0})
unfolding gap_left new_space combine
make_gap host increment e =
    let space = more_space increment in
    elim (host.realloc e.beg e.room (e.z - 1 + e.gap_size + space)) [
      | none ↦ signal memory_full e
      | some bytes ↦
          and_then (gap_left (e.gpt + e.gap_size) true (new_space space bytes e))
            (λ _ e'. ok tt (combine e e'))
    ]
