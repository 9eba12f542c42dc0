-- ===== src/Editfns.antt =====
-- editfns.c: point, the characters around it, the visible part of the buffer, and substrings;
-- validate_region of buffer.c.
pub mod Substring
pub mod Restriction
pub mod Edit
pub mod SubstChar
pub mod Put
use holomacs.Prelude.{
  ℕ, zero, suc, ◌+◌, ◌-◌, Bool, true, ◌&&◌, ◌||◌, Option, none, some, List, [], ◌∷◌, ltb, leb, ◌==◌,
  if◌then◌else◌, ℤ, pos, negsuc,
}
use holomacs.Editor.{
  Editor, Signal, args_out_of_range, Run, ok, signal, fault, Cmd, and_then, ◌>>=◌, ◌>>◌, when, peek,
  char_at, char_address,
}
use holomacs.Gap.{move_gap}

unfoldable pub clip_to_bounds : ℕ → ℤ → ℕ → ℕ
clip_to_bounds lower (negsuc n) upper = lower
clip_to_bounds lower (pos num) upper =
    if ltb num lower then lower else if ltb upper num then upper else num

unfoldable pub goto_char : ℤ → Editor → Editor
unfolding clip_to_bounds
goto_char n e = record e { pt = clip_to_bounds e.begv n e.zv }

unfoldable pub following_char : Editor → ℕ
following_char e = if leb e.zv e.pt then 0 else char_at e e.pt

unfoldable pub preceding_char : Editor → ℕ
preceding_char e = if leb e.pt e.begv then 0 else char_at e (e.pt - 1)

unfoldable pub bobp : Editor → Bool
bobp e = e.pt == e.begv

unfoldable pub eobp : Editor → Bool
eobp e = e.pt == e.zv

abbrev pub newline : ℕ
newline = b'\n'

unfoldable pub bolp : Editor → Bool
bolp e = e.pt == e.begv || char_at e (e.pt - 1) == newline

unfoldable pub eolp : Editor → Bool
eolp e = e.pt == e.zv || char_at e e.pt == newline

-- `none` is nil.
unfoldable pub char_after : ℤ → Editor → Option ℕ
char_after (negsuc n) e = none
char_after (pos n) e = if ltb n e.begv || leb e.zv n then none else some (char_at e n)

unfoldable pub buffer_size : Editor → ℕ
buffer_size e = e.z - 1

-- The two ends in order, if the visible part holds them.
unfoldable pub validate_region : (b e : ℕ) → Cmd (ℕ × ℕ)
validate_region b e s =
    let low = if ltb e b then e else b in
    let high = if ltb e b then b else e in
    if leb s.begv low && leb high s.zv then ok (low, high) s else signal args_out_of_range s

-- `n` bytes from an address, as make_string copies them.
unfoldable pub read_bytes : (room : ℕ) → (ℕ → ℕ) → (address n : ℕ) → Option (List ℕ)
read_bytes room m a zero = some []
read_bytes room m a (suc n) = elim (peek room m a) [
  | none ↦ none
  | some v ↦ elim (read_bytes room m (a + 1) n) [ none ↦ none | some vs ↦ some (v ∷ vs) ]
]

unfoldable pub make_string : (first n : ℕ) → Cmd (List ℕ)
unfolding read_bytes
make_string first n e = elim (read_bytes e.room e.beg (char_address e first) n) [
  | none ↦ fault
  | some vs ↦ ok vs e
]

unfoldable pub buffer_substring : (b e : ℕ) → Cmd (List ℕ)
unfolding validate_region make_string move_gap
buffer_substring b e = do
  (first, end) ← validate_region b e
  λ s. when (ltb first s.gpt && ltb s.gpt end) (move_gap first) s
  make_string first (end - first)

unfoldable pub buffer_string : Cmd (List ℕ)
unfolding make_string move_gap
buffer_string = do
  λ s. when (ltb s.begv s.gpt && ltb s.gpt s.zv) (move_gap s.begv) s
  λ s. make_string s.begv (s.zv - s.begv) s

unfoldable pub widen : Editor → Editor
widen e = record e { begv = 1; zv = e.z }

unfoldable pub narrow_to_region : (b e : ℕ) → Cmd (Unit {0})
narrow_to_region b e s =
    let low = if ltb e b then e else b in
    let high = if ltb e b then b else e in
    if leb 1 low && leb high s.z
    then ok tt (record s {
      begv = low;
      zv = high;
      pt = let pt' = if ltb s.pt low then low else s.pt in if ltb high pt' then high else pt';
    })
    else signal args_out_of_range s

-- What save_restriction_save keeps: how much lies before and behind the visible part.
unfoldable pub save_restriction_save : Editor → ℕ × ℕ
save_restriction_save e = (e.begv - 1, e.z - e.zv)

unfoldable pub save_restriction_restore : ℕ × ℕ → Editor → Editor
unfolding clip_to_bounds
save_restriction_restore (head, rear) e =
    let over = ltb (e.z - 1) (head + rear) in
    let newhead = if over then 0 else head in
    let newtail = if over then 0 else rear in
    let begv' = 1 + newhead in
    let zv' = e.z - newtail in
    record e { begv = begv'; zv = zv'; pt = clip_to_bounds begv' (pos e.pt) zv' }

-- Fpoint, Fpoint_min and Fpoint_max.
abbrev pub point : Editor → ℕ
point e = e.pt

abbrev pub point_min : Editor → ℕ
point_min e = e.begv

abbrev pub point_max : Editor → ℕ
point_max e = e.zv

-- Fbuffer_modified_p and Fset_buffer_modified_p of the current buffer.
unfoldable pub buffer_modified_p : Editor → Bool
buffer_modified_p e = ltb e.save_modified e.modiff

unfoldable pub set_buffer_modified_p : Bool → Editor → Editor
set_buffer_modified_p flag e = record e { save_modified = if flag then 0 else e.modiff }
