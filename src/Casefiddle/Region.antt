-- ===== src/Casefiddle/Region.antt =====
-- The loop of casify_region on the text, against the same change of a list of characters.
use holomacs.Prelude.{
  ℕ, zero, suc, ◌+◌, ◌≤◌, ◌<◌, ◌≡◌, ◌≢◌, refl, ◌∙◌, ap, ◌⊎◌, inl, Bool, true, false, List, [], ◌∷◌,
  arith, if◌then◌else◌,
}
use holomacs.Editor.{Editor, ok, poke, char_at}
use holomacs.Editor.View.{IsValid}
use holomacs.Editfns.Substring.{substring}
use holomacs.Casefiddle.{
  CaseAction, case_up, case_down, case_capitalize, case_capitalize_up, CaseTables, follows_words,
  casify_chars, starts_inword, region_char, region_loop, casify_char,
}
use holomacs.Editfns.Put.{with_beg, put, put-apart, put-at, substring-put, put-IsValid, in_room}

-- The change of a list of characters that casify_region makes in the text.
unfoldable pub region_chars : CaseTables → CaseAction → (inword : Bool) → List ℕ → List ℕ
unfolding region_char
region_chars t flag inword [] = []
region_chars t flag inword (c ∷ cs) =
    let c' = region_char t flag inword c in
    c' ∷ region_chars t flag (if follows_words flag then t.is_word c' else inword) cs

module _ (t : CaseTables) (flag : CaseAction) where
  -- What the loop has done to `n` characters from `i` on, in a buffer that was `e`.
  record Changed (inword : Bool) (n i : ℕ) (e : Editor) : Type 0 where
    after : ℕ → ℕ
    returns : region_loop t flag inword n i e ≡ ok tt (with_beg e after)
    inside : substring (with_beg e after) i n ≡ region_chars t flag inword (substring e i n)
    outside : (j : ℕ) → 1 ≤ j → (j < i) ⊎ (i + n ≤ j) → char_at (with_beg e after) j ≡ char_at e j

  abbrev new_char : Bool → ℕ → Editor → ℕ
  new_char inword i e = region_char t flag inword (char_at e i)

  abbrev new_inword : Bool → ℕ → Editor → Bool
  new_inword inword i e = if follows_words flag then t.is_word (new_char inword i e) else inword

  one_more :
      (inword : Bool) (n i : ℕ) (e : Editor)
      → IsValid e
      → 1 ≤ i
      → i + suc n ≤ e.z
      → Changed (new_inword inword i e) n (i + 1) (put e i (new_char inword i e))
      → Changed inword (suc n) i e
  unfolding region_loop region_chars
  one_more inword n i e v h1 h2 rest = record {
    after = rest.after;
    returns =
        rw (region_loop, in_room e i v h1 (omega (arith, h2)))
          (rw (poke, in_room e i v h1 (omega (arith, h2))) rest.returns);
    inside =
        ap (λ l. char_at (with_beg e rest.after) i ∷ l) rest.inside
        ∙ ap (λ x. x ∷ region_chars t flag w (substring (put e i c) (i + 1) n))
            (rest.outside i h1 (inl (omega arith)) ∙ put-at e i c)
        ∙ ap (λ l. c ∷ region_chars t flag w l) (substring-put e i c (i + 1) n h1 (omega arith));
    outside =
        λ j h k. rest.outside j h (ground (arith, k)) ∙ put-apart e i j c h1 h (ground (arith, k));
  }
    where
      c : ℕ
      c = new_char inword i e

      w : Bool
      w = new_inword inword i e

  region_loop-Changed :
      (inword : Bool) (n i : ℕ) (e : Editor)
      → IsValid e
      → 1 ≤ i
      → i + n ≤ e.z
      → Changed inword n i e
  unfolding region_loop region_chars
  region_loop-Changed inword zero i e v h1 h2 = record {
    after = e.beg;
    returns = refl;
    inside = refl;
    outside = λ j h k. refl;
  }
  region_loop-Changed inword (suc n) i e v h1 h2 = one_more inword n i e v h1 h2 (
      region_loop-Changed (new_inword inword i e) n (i + 1) (put e i (new_char inword i e))
        (put-IsValid e i (new_char inword i e) v) (omega arith) (omega (arith, h2)))

  -- In a valid buffer, the loop of casify_region on `n` characters from position `i` of the text on
  -- returns; the state is the one before but for the bytes, the characters of the region are
  -- the same change of the list of the characters before, and no other character changes.
  pub region_loop_lem :
      (inword : Bool) (n i : ℕ) (e : Editor)
      → IsValid e
      → 1 ≤ i
      → i + n ≤ e.z
      → (m : ℕ → ℕ) × (region_loop t flag inword n i e ≡ ok tt (with_beg e m))
        × (substring (with_beg e m) i n ≡ region_chars t flag inword (substring e i n))
        × ((j : ℕ) → 1 ≤ j → (j < i) ⊎ (i + n ≤ j) → char_at (with_beg e m) j ≡ char_at e j)
  region_loop_lem inword n i e v h1 h2 = (d.after, d.returns, d.inside, d.outside)
    where
      d : Changed inword n i e
      d = region_loop-Changed inword n i e v h1 h2

region_up :
    (t : CaseTables) (cs : List ℕ)
    → region_chars t case_up false cs ≡ casify_chars t case_up false cs
unfolding region_chars casify_chars casify_char region_char
region_up t [] = refl
region_up t (c ∷ cs) = ground (arith, region_up t cs)

region_down :
    (t : CaseTables) (cs : List ℕ)
    → region_chars t case_down true cs ≡ casify_chars t case_down true cs
unfolding region_chars casify_chars casify_char region_char
region_down t [] = refl
region_down t (c ∷ cs) = ground (arith, region_down t cs)

region_capitals :
    (t : CaseTables) (inword : Bool) (cs : List ℕ)
    → region_chars t case_capitalize inword cs ≡ casify_chars t case_capitalize inword cs
unfolding region_chars casify_chars casify_char region_char
region_capitals t inword [] = refl
region_capitals t inword (c ∷ cs) =
    ground (arith, region_capitals t (t.is_word (region_char t case_capitalize inword c)) cs)

-- For upper case, lower case and capitals, the change that casify_region makes in the text is the
-- one that casify_object makes in a string.
region_chars-casify_chars :
    (t : CaseTables) (flag : CaseAction) (cs : List ℕ)
    → flag ≢ case_capitalize_up
    → region_chars t flag (starts_inword flag) cs ≡ casify_chars t flag (starts_inword flag) cs
region_chars-casify_chars t case_up cs h = region_up t cs
region_chars-casify_chars t case_down cs h = region_down t cs
region_chars-casify_chars t case_capitalize cs h = region_capitals t false cs
region_chars-casify_chars t case_capitalize_up cs h = absurd (h refl)
