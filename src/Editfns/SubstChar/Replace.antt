-- ===== src/Editfns/SubstChar/Replace.antt =====
-- The loop of subst-char-in-region, without undo, on the text.
use holomacs.Prelude.{
  ℕ, zero, suc, ◌+◌, ◌%◌, ◌≤◌, ◌<◌, ◌≡◌, refl, ◌∙◌, sym, ap, ◌⊎◌, inl, inr, true, false, ◌∷◌, arith,
  ◌==◌, if◌then◌else◌, Bool-cases, map,
}
use holomacs.Editor.{Editor, ok, poke, char_at}
use holomacs.Editor.View.{IsValid}
use holomacs.Editfns.Substring.{substring}
use holomacs.Editfns.Put.{with_beg, put, put-apart, put-at, substring-put, put-IsValid, in_room}
use holomacs.Editfns.SubstChar.{store_char, subst_loop}

module _ (look tochar : ℕ) where
  abbrev pub replace : ℕ → ℕ
  replace c = if c == look then tochar % 256 else c

  -- What the loop has done to `n` characters from `i` on, in a buffer that was `e`.
  record Replaced (n i : ℕ) (e : Editor) : Type 0 where
    after : ℕ → ℕ
    returns : subst_loop true look tochar n i e ≡ ok tt (with_beg e after)
    inside : substring (with_beg e after) i n ≡ map replace (substring e i n)
    outside : (j : ℕ) → 1 ≤ j → (j < i) ⊎ (i + n ≤ j) → char_at (with_beg e after) j ≡ char_at e j

  stored :
      (n i : ℕ) (e : Editor)
      → IsValid e
      → 1 ≤ i
      → i + suc n ≤ e.z
      → (char_at e i == look) ≡ true
      → Replaced n (i + 1) (put e i (tochar % 256))
      → Replaced (suc n) i e
  unfolding subst_loop store_char
  stored n i e v h1 h2 same rest = record {
    after = rest.after;
    returns =
        rw (subst_loop, in_room e i v h1 (omega (arith, h2)))
          (rw same (rw (store_char, poke, in_room e i v h1 (omega (arith, h2))) rest.returns));
    inside =
        ap (λ l. char_at (with_beg e rest.after) i ∷ l) rest.inside
        ∙ ap (λ x. x ∷ map replace (substring (put e i (tochar % 256)) (i + 1) n))
            (rest.outside i h1 (inl (omega arith)) ∙ put-at e i (tochar % 256))
        ∙ ap (λ l. tochar % 256 ∷ map replace l)
            (substring-put e i (tochar % 256) (i + 1) n h1 (omega arith))
        ∙ ap (λ b. (if b then tochar % 256 else char_at e i) ∷ map replace (substring e (i + 1) n))
            (sym same);
    outside = λ j h k.
        rest.outside j h (ground (arith, k))
        ∙ put-apart e i j (tochar % 256) h1 h (ground (arith, k));
  }

  left :
      (n i : ℕ) (e : Editor)
      → IsValid e
      → 1 ≤ i
      → i + suc n ≤ e.z
      → (char_at e i == look) ≡ false
      → Replaced n (i + 1) e
      → Replaced (suc n) i e
  unfolding subst_loop
  left n i e v h1 h2 other rest = record {
    after = rest.after;
    returns = rw (subst_loop, in_room e i v h1 (omega (arith, h2))) (rw other rest.returns);
    inside =
        ap (λ l. char_at (with_beg e rest.after) i ∷ l) rest.inside
        ∙ ap (λ x. x ∷ map replace (substring e (i + 1) n)) (rest.outside i h1 (inl (omega arith)))
        ∙ ap (λ b. (if b then tochar % 256 else char_at e i) ∷ map replace (substring e (i + 1) n))
            (sym other);
    outside = λ j h k. rest.outside j h (ground (arith, k));
  }

  subst_loop-Replaced : (n i : ℕ) (e : Editor) → IsValid e → 1 ≤ i → i + n ≤ e.z → Replaced n i e
  unfolding subst_loop
  subst_loop-Replaced zero i e v h1 h2 = record {
    after = e.beg;
    returns = refl;
    inside = refl;
    outside = λ j h k. refl;
  }
  subst_loop-Replaced (suc n) i e v h1 h2 = elim (Bool-cases (char_at e i == look)) [
    | inl same ↦ stored n i e v h1 h2 same (
        subst_loop-Replaced n (i + 1) (put e i (tochar % 256)) (put-IsValid e i (tochar % 256) v)
          (omega arith) (omega (arith, h2)))
    | inr other ↦
        left n i e v h1 h2 other
          (subst_loop-Replaced n (i + 1) e v (omega arith) (omega (arith, h2)))
  ]

  -- In a valid buffer, the loop of subst_char_in_region without undo, on `n` characters from position
  -- `i` of the text on, returns; the state is the one before but for the bytes, in the region
  -- each character that is looked for is replaced and each other is kept, and no character
  -- outside of it changes.
  pub subst_loop_lem :
      (n i : ℕ) (e : Editor)
      → IsValid e
      → 1 ≤ i
      → i + n ≤ e.z
      → (m : ℕ → ℕ) × (subst_loop true look tochar n i e ≡ ok tt (with_beg e m))
        × (substring (with_beg e m) i n ≡ map replace (substring e i n))
        × ((j : ℕ) → 1 ≤ j → (j < i) ⊎ (i + n ≤ j) → char_at (with_beg e m) j ≡ char_at e j)
  subst_loop_lem n i e v h1 h2 = (d.after, d.returns, d.inside, d.outside)
    where
      d : Replaced n i e
      d = subst_loop-Replaced n i e v h1 h2
