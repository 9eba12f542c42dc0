-- ===== src/Search/Scan/Macros.antt =====
-- BUFFER_CEILING_OF and BUFFER_FLOOR_OF are a ceiling and a floor for scan_buffer.
use holomacs.Prelude.{ℕ, ◌+◌, ◌-◌, ◌<◌, ◌≤◌, ◌≡◌, arith, ltb, leb, if◌then◌else◌, ◌&&◌}
use holomacs.Editor.{Editor}
use holomacs.Search.{buffer_ceiling_of, buffer_floor_of}
use holomacs.Search.Scan.Right.Loop.{IsCeiling}
use holomacs.Search.Scan.Left.Loop.{IsFloor}

pub buffer_ceiling_of-IsCeiling : (e : Editor) → 1 ≤ e.begv → IsCeiling e buffer_ceiling_of
buffer_ceiling_of-IsCeiling e h n a b =
    (above e.gpt n e.zv b, λ i c. beside e.gpt e.gap_size n i e.zv (omega (arith, a, h)) b c)
  where
    above : (gpt n zv : ℕ) → n < zv → n ≤ (if ltb n gpt && ltb gpt zv then gpt else zv) - 1
    above gpt n zv b = ground (arith, b)

    beside :
        (gpt gap n i zv : ℕ)
        → 1 ≤ n
        → n < zv
        → n + i ≤ (if ltb n gpt && ltb gpt zv then gpt else zv) - 1
        → (if leb gpt (n + i) then gap else 0) + (n + i) - 1
          ≡ (if leb gpt n then gap else 0) + n - 1 + i
    beside gpt gap n i zv h b c = ground (arith, h, b, c)

pub buffer_floor_of-IsFloor : (e : Editor) → 1 ≤ e.begv → IsFloor e buffer_floor_of
buffer_floor_of-IsFloor e h n a b =
    (below e.begv e.gpt n a, λ p i c d. beside e.begv e.gpt e.gap_size n p i h a c d)
  where
    below : (begv gpt n : ℕ) → begv ≤ n → (if leb begv gpt && leb gpt n then gpt else begv) ≤ n
    below begv gpt n a = ground (arith, a)

    beside :
        (begv gpt gap n p i : ℕ)
        → 1 ≤ begv
        → begv ≤ n
        → (if leb begv gpt && leb gpt n then gpt else begv) ≤ p
        → p + i ≡ n
        → (if leb gpt n then gap else 0) + n - 1 ≡ (if leb gpt p then gap else 0) + p - 1 + i
    beside begv gpt gap n p i h a c d = ground (arith, h, a, c, d)
