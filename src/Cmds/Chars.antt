-- ===== src/Cmds/Chars.antt =====
-- forward-char, backward-char and delete-char.
use mathlib.Core.Path.{subst}
use holomacs.Prelude.{
  ℕ, suc, ◌+◌, ◌-◌, ◌<◌, ◌≤◌, ◌≡◌, refl, sym, ap, ◌∙◌, arith, true, false, some, ltb, if◌then◌else◌,
  ℤ, pos, negsuc, ◌+ℤ◌, ◌-ℤ◌, ltb_ℤ, Bool-cases, inl, inr, ◌⊎◌, int_laws,
}
use holomacs.Editor.{Editor, Signal, beginning_of_buffer, end_of_buffer, ok, signal, Cmd, Host}
use holomacs.Editor.View.{IsValid, Ends, Ends-mono}
use holomacs.Insdel.{del_range, clip_low, clip_high}
use holomacs.Insdel.Delete.{del_range_deletes}
use holomacs.Insdel.Delete.Record.{NotDeleted}
use holomacs.Insdel.Delete.Close.{Deleted}
use holomacs.Lisp.{same_int}
use holomacs.Lisp.Data.{to_int, to_lisp_int}
use holomacs.Lisp.Data.Number.Range.{IsInt, to_int_same}
use holomacs.Cmds.{forward_char, backward_char, delete_char, to_position}

to_lisp_int_negative : (n : ℤ) → IsInt n → to_lisp_int (pos 0 -ℤ n) ≡ pos 0 -ℤ n
unfolding ◌-ℤ◌
to_lisp_int_negative (pos n) h = ground (arith, h)
to_lisp_int_negative (negsuc n) h = ground (arith, h)

back : (p n : ℤ) → p +ℤ n +ℤ (pos 0 -ℤ n) ≡ p
back p n = omega int_laws

-- A motion that ends in the visible part.
forward_to :
    (e : Editor) (n : ℤ) (p : ℕ)
    → pos e.pt +ℤ n ≡ pos p
    → e.begv ≤ p
    → p ≤ e.zv
    → e.zv < 2147483648
    → forward_char (some n) e ≡ ok tt (record e { pt = p })
unfolding forward_char
forward_to e n p is b z i =
    subst
      (λ x.
        (if ltb_ℤ x (pos e.begv)
          then signal beginning_of_buffer (record e { pt = e.begv })
          else if ltb_ℤ (pos e.zv) x
          then signal end_of_buffer (record e { pt = e.zv })
          else ok tt (record e { pt = to_position x }))
        ≡ ok tt (record e { pt = p }))
      (sym (ap to_int is ∙ to_int_same (pos p) (omega (arith, z, i))))
      (rw (low e.begv p b) (rw (low p e.zv z) refl))
  where
    low : (a b : ℕ) → a ≤ b → ltb_ℤ (pos b) (pos a) ≡ false
    low a b h = ground (arith, h)

-- forward-char by n and then backward-char by n bring point to n characters further and back, where
-- both places are visible, and change nothing else; a negative n moves the other way.
forward_then_backward :
    (e : Editor) (n : ℤ) (p : ℕ)
    → pos e.pt +ℤ n ≡ pos p
    → IsInt n
    → e.begv ≤ e.pt
    → e.pt ≤ e.zv
    → e.begv ≤ p
    → p ≤ e.zv
    → e.zv < 2147483648
    → (forward_char (some n) e ≡ ok tt (record e { pt = p }))
      × (backward_char (some n) (record e { pt = p }) ≡ ok tt e)
unfolding backward_char
forward_then_backward e n p is i b z b' z' f = (
  forward_to e n p is b' z' f,
  ap (λ m. forward_char (some m) (record e { pt = p })) (to_lisp_int_negative n i)
      ∙ forward_to (record e { pt = p }) (pos 0 -ℤ n) e.pt returns b z f,
)
  where
    returns : pos p +ℤ (pos 0 -ℤ n) ≡ pos e.pt
    returns = subst (λ x. x +ℤ (pos 0 -ℤ n) ≡ pos e.pt) is (back (pos e.pt) n)

-- The region that delete-char names, as far as it is not negative.
abbrev pub from_point : Editor → ℤ → ℕ × ℕ
from_point e (pos n) = (e.pt, e.pt + n)
from_point e (negsuc n) = (e.pt - suc n, e.pt)

-- Why delete-char signals by itself: the region is not visible.
abbrev pub TooFar : Editor → ℤ → Signal → Type 0
TooFar e (pos n) end_of_buffer = e.zv < e.pt + n
TooFar e (negsuc n) beginning_of_buffer = e.pt < e.begv + suc n
TooFar e n s = ⊥

delete_right :
    (host : Host) (kill : ℤ → Cmd (Unit {0})) (e : Editor) (n : ℕ)
    → delete_char host kill (pos n) false e
      ≡ (if ltb e.zv (e.pt + n) then signal end_of_buffer e else del_range host e.pt (e.pt + n) e)
unfolding delete_char
delete_right host kill e n = rw (positive n) (
    subst
      (λ z.
        (if ltb_ℤ (pos e.zv) z
          then signal end_of_buffer e
          else del_range host e.pt (to_position z) e)
        ≡ (if ltb e.zv (e.pt + n)
            then signal end_of_buffer e
            else del_range host e.pt (e.pt + n) e))
      (sym (sum e.pt n)) (rw (test e.zv (e.pt + n)) refl))
  where
    positive : (n : ℕ) → ltb_ℤ (pos n) (pos 0) ≡ false
    positive n = ground arith

    sum : (a n : ℕ) → pos a +ℤ pos n ≡ pos (a + n)
    sum a n = omega int_laws

    test : (a b : ℕ) → ltb_ℤ (pos a) (pos b) ≡ ltb a b
    test a b = ground arith

delete_left :
    (host : Host) (kill : ℤ → Cmd (Unit {0})) (e : Editor) (n : ℕ)
    → 1 ≤ e.begv
    → delete_char host kill (negsuc n) false e ≡ (
        if ltb e.pt (e.begv + suc n)
        then signal beginning_of_buffer e
        else del_range host (e.pt - suc n) e.pt e)
unfolding delete_char ◌+ℤ◌
delete_left host kill e n low = rw (negative n) (elim (Bool-cases (ltb e.pt (e.begv + suc n))) [
  | inl h ↦ rw h (rw (before h) refl)
  | inr h ↦ rw h (
      rw (inside h)
        (ap (λ z. del_range host (to_position z) e.pt e) (difference e.pt (ground (arith, h)))))
])
  where
    negative : (n : ℕ) → ltb_ℤ (negsuc n) (pos 0) ≡ true
    negative n = ground arith

    difference : (a : ℕ) → suc n ≤ a → pos a +ℤ negsuc n ≡ pos (a - suc n)
    difference a h = omega (int_laws, h)

    before : ltb e.pt (e.begv + suc n) ≡ true → ltb_ℤ (pos e.pt +ℤ negsuc n) (pos e.begv) ≡ true
    before h = ground (arith, h, low)

    inside : ltb e.pt (e.begv + suc n) ≡ false → ltb_ℤ (pos e.pt +ℤ negsuc n) (pos e.begv) ≡ false
    inside h = ground (arith, h, low)

-- del_range of a region that is visible.
delete_visible :
    (host : Host) (e : Editor) (from to : ℕ) (Q : Signal → Editor → Type 0)
    → IsValid e
    → e.begv ≤ from
    → from < to
    → to ≤ e.zv
    → ((s : Signal) (e' : Editor) → NotDeleted host e s e' → Q s e')
    → Ends (λ _ e'. Deleted from to e e') Q (del_range host from to e)
delete_visible host e from to Q v a b c q =
    Ends-mono (λ _. Deleted (clip_low e from) (clip_high e to) e) (λ _ e'. Deleted from to e e')
      (NotDeleted host e) Q (del_range host from to e)
      (del_range_deletes host from to e v (ground (arith, a, b, c)))
      (λ _ e' d.
        subst (λ y. Deleted from y e e') (ground (arith, c))
          (subst (λ x. Deleted x (clip_high e to) e e') (ground (arith, a)) d))
      q

-- In a valid buffer delete-char of a number other than 0, without the kill flag, deletes that many
-- characters after point, or before point for a negative number, or signals that the buffer ends or
-- begins too early, with nothing changed, or signals as del_range does.
pub delete_char_lem :
    (host : Host) (kill : ℤ → Cmd (Unit {0})) (e : Editor) (n : ℤ)
    → IsValid e
    → same_int n (pos 0) ≡ false
    → Ends
        (λ _ e'. Deleted (from_point e n).0 (from_point e n).1 e e')
        (λ s e'. (TooFar e n s × (e' ≡ e)) ⊎ NotDeleted host e s e')
        (delete_char host kill n false e)
delete_char_lem host kill e (pos n) v h =
    rw (delete_right host kill e n) (elim (Bool-cases (ltb e.zv (e.pt + n))) [
      | inl t ↦ rw t (inl (ground (arith, t), refl))
      | inr t ↦ rw t (
          delete_visible host e e.pt (e.pt + n) _ v v.pt_low (ground (arith, h)) (ground (arith, t))
            (λ s e' q. inr q))
    ])
delete_char_lem host kill e (negsuc n) v h =
    rw (delete_left host kill e n v.begv_low) (elim (Bool-cases (ltb e.pt (e.begv + suc n))) [
      | inl t ↦ rw t (inl (ground (arith, t), refl))
      | inr t ↦ rw t (
          delete_visible host e (e.pt - suc n) e.pt _ v (ground (arith, t)) (ground (arith, t))
            v.pt_high (λ s e' q. inr q))
    ])
