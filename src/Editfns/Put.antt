-- ===== src/Editfns/Put.antt =====
-- A character of the text replaced by another in its place.
use holomacs.Prelude.{ℕ, zero, suc, ◌+◌, ◌≤◌, ◌<◌, ◌≡◌, ◌≢◌, refl, ◌∙◌, ap, true, ◌∷◌, arith, ltb}
use holomacs.Editor.{Editor, write, char_at, char_address}
use holomacs.Editor.View.{IsValid}
use holomacs.Editfns.Substring.{substring}

abbrev pub with_beg : Editor → (ℕ → ℕ) → Editor
with_beg e m = record e { beg = m }

abbrev pub put : Editor → ℕ → ℕ → Editor
put e i c = with_beg e (write e.beg (char_address e i) c)

-- A position has an address of its own, within the allocated bytes.
address_apart : (e : Editor) (i j : ℕ) → 1 ≤ i → 1 ≤ j → i ≢ j → char_address e i ≢ char_address e j
address_apart e i j h1 h2 h3 h4 = ground arith

pub put-apart :
    (e : Editor) (i j c : ℕ) → 1 ≤ i → 1 ≤ j → i ≢ j → char_at (put e i c) j ≡ char_at e j
put-apart e i j c h1 h2 h3 = ground (arith, address_apart e i j h1 h2 h3)

pub put-at : (e : Editor) (i c : ℕ) → char_at (put e i c) i ≡ c
put-at e i c = ground arith

pub substring-put :
    (e : Editor) (i c j n : ℕ) → 1 ≤ i → i < j → substring (put e i c) j n ≡ substring e j n
substring-put e i c j zero h1 h2 = refl
substring-put e i c j (suc n) h1 h2 =
    ap (λ x. x ∷ substring (put e i c) (j + 1) n) (put-apart e i j c h1 (omega arith) (omega arith))
    ∙ ap (λ l. char_at e j ∷ l) (substring-put e i c (j + 1) n h1 (omega arith))

pub put-IsValid : (e : Editor) (i c : ℕ) → IsValid e → IsValid (put e i c)
put-IsValid e i c v = record {
  begv_low = v.begv_low;
  pt_low = v.pt_low;
  pt_high = v.pt_high;
  zv_high = v.zv_high;
  gpt_low = v.gpt_low;
  gpt_high = v.gpt_high;
  allocated = v.allocated;
  chain = v.chain;
  placed = v.placed;
}

pub in_room :
    (e : Editor) (i : ℕ) → IsValid e → 1 ≤ i → i < e.z → ltb (char_address e i) e.room ≡ true
in_room e i v h1 h2 = ground (arith, v)
