-- ===== src/Search/Scan.antt =====
-- scan_buffer against a look at one character after the other.
pub mod Right
pub mod Left
pub mod Buffer
pub mod Macros
pub mod Count
use holomacs.Prelude.{
  ℕ, zero, suc, ◌+◌, ◌-◌, ◌<◌, ◌≤◌, ◌≡◌, refl, sym, ap, ◌∙◌, arith, Bool, true, false, ltb, leb,
  ◌==◌, if◌then◌else◌, ℤ, pos, negsuc, ◌+ℤ◌, ◌-ℤ◌, Bool-cases, inl, inr,
}
use holomacs.Search.{is_zero}

-- The next `k` characters from position p to the right, counting down at each target: the position
-- behind the last target that was asked for, or the end and what is left of the count.
unfoldable pub next_right : (k : ℕ) → (ℕ → ℕ) → (target p : ℕ) → (cnt : ℤ) → ℕ × ℤ
next_right zero char target p cnt = (p, cnt)
next_right (suc k) char target p cnt =
    if char p == target
    then (if is_zero (cnt -ℤ pos 1)
        then (p + 1, pos 0)
        else next_right k char target (p + 1) (cnt -ℤ pos 1))
    else next_right k char target (p + 1) cnt

-- The `k` characters before position p to the left, counting up.
unfoldable pub next_left : (k : ℕ) → (ℕ → ℕ) → (target p : ℕ) → (cnt : ℤ) → ℕ × ℤ
next_left zero char target p cnt = (p, pos 0 -ℤ cnt)
next_left (suc k) char target p cnt =
    if char (p - 1) == target
    then (if is_zero (cnt +ℤ pos 1)
        then (p, pos 0)
        else next_left k char target (p - 1) (cnt +ℤ pos 1))
    else next_left k char target (p - 1) cnt
