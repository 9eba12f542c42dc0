-- ===== src/Search/SkipChars.antt =====
-- search.c: skip_chars, skip-chars-forward and skip-chars-backward. Characters are bytes.
pub mod Motion
use holomacs.Prelude.{
  ℕ, zero, suc, ◌+◌, ◌-◌, ◌%◌, Bool, true, false, not, ◌&&◌, Option, none, some, List, [], ◌∷◌, ltb,
  leb, ◌==◌, if◌then◌else◌, ℤ, pos, negsuc, residue, length,
}
use holomacs.Editor.{Editor, Run, ok, fault, Cmd, char_at}

abbrev pub FastMap : Type 0
FastMap = ℕ → Bool

abbrev pub mark : FastMap → ℕ → FastMap
mark f c b = if c == b then true else f b

-- `while (c <= *p) { fastmap[c] = 1; c++; }`, where c is an unsigned char; `none` is out of rounds.
unfoldable pub mark_range : (rounds : ℕ) → (c high : ℕ) → FastMap → Option FastMap
mark_range zero c high f = none
mark_range (suc k) c high f =
    let rest = mark_range k ((c + 1) % 256) high (mark f c) in if leb c high then rest else some f

-- What follows a character of the set: `-` and the end of a range, or the next character.
abbrev pub range_or_char :
    (c : ℕ) → List ℕ → FastMap → (List ℕ → FastMap → Option FastMap) → Option FastMap
range_or_char c (d ∷ []) f go = if d == b'-' then some f else go (d ∷ []) (mark f c)
range_or_char c (d ∷ high ∷ p) f go =
    if d == b'-'
    then elim (mark_range 256 c high f) [ none ↦ none | some f' ↦ go p f' ]
    else go (d ∷ high ∷ p) (mark f c)
range_or_char c [] f go = go [] (mark f c)

-- A backslash quotes the character behind it; at the end it ends the set.
abbrev pub quoted :
    (c : ℕ) → List ℕ → FastMap → (List ℕ → FastMap → Option FastMap) → Option FastMap
quoted c [] f go = if c == b'\\' then some f else range_or_char c [] f go
quoted c (d ∷ p) f go = if c == b'\\' then range_or_char d p f go else range_or_char c (d ∷ p) f go

-- `while (p != pend)`
unfoldable pub read_set : (rounds : ℕ) → List ℕ → FastMap → Option FastMap
unfolding mark_range
read_set zero p f = none
read_set (suc k) [] f = some f
read_set (suc k) (c ∷ p) f = quoted c p f (λ q g. read_set k q g)

-- The fastmap of the string, complemented behind `^`.
unfoldable pub fastmap : List ℕ → Option FastMap
unfolding read_set
fastmap [] = some (λ b. false)
fastmap (c ∷ p) =
    if c == b'^'
    then elim (read_set (suc (length p)) p (λ b. false)) [
      | none ↦ none
      | some f ↦ some (λ b. not (f b))
    ]
    else read_set (suc (suc (length p))) (c ∷ p) (λ b. false)

-- The limit, nil or a number, within the visible part. It is compared by XFASTINT, which has the bits
-- of a negative number as a large one.
abbrev pub skip_limit : (forwardp : Bool) → Option ℤ → Editor → ℕ
skip_limit forwardp none e = if forwardp then e.zv else e.begv
skip_limit forwardp (some n) e =
    let bits = residue 36028797018963968 n in
    let lim = if ltb e.zv bits then e.zv else bits in if ltb lim e.begv then e.begv else lim

-- `while (point < lim && fastmap[FETCH_CHAR (point)]) SET_PT (point + 1);`, in `lim - point` rounds.
unfoldable pub skip_right : (rounds : ℕ) → FastMap → Editor → ℕ → ℕ
skip_right zero f e at = at
skip_right (suc k) f e at = if f (char_at e at) then skip_right k f e (at + 1) else at

-- `while (point > lim && fastmap[FETCH_CHAR (point - 1)]) SET_PT (point - 1);`
unfoldable pub skip_left : (rounds : ℕ) → FastMap → Editor → ℕ → ℕ
skip_left zero f e at = at
skip_left (suc k) f e at = if f (char_at e (at - 1)) then skip_left k f e (at - 1) else at

unfoldable pub skip_chars :
    (forwardp : Bool) → (string : List ℕ) → (lim : Option ℤ) → Cmd (Unit {0})
unfolding fastmap skip_right skip_left
skip_chars forwardp string lim e = elim (fastmap string) [
  | none ↦ fault
  | some f ↦
      let limit = skip_limit forwardp lim e in
      ok tt (record e {
        pt =
            if forwardp
            then skip_right (limit - e.pt) f e e.pt
            else skip_left (e.pt - limit) f e e.pt;
      })
]

unfoldable skip_chars_forward : (string : List ℕ) → (lim : Option ℤ) → Cmd (Unit {0})
unfolding skip_chars
skip_chars_forward = skip_chars true

unfoldable skip_chars_backward : (string : List ℕ) → (lim : Option ℤ) → Cmd (Unit {0})
unfolding skip_chars
skip_chars_backward = skip_chars false
