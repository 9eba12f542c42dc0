-- ===== src/Marker/Set.antt =====
-- Fset_marker to a position in a live buffer, and what marker_position then says.
use holomacs.Prelude.{ℕ, ◌+◌, ◌≡◌, false, some, ◌∷◌, ltb, ◌==◌, if◌then◌else◌, ℤ}
use holomacs.Marker.{World, done, set_buf, set_obj, marker_position, bound, attach}
use holomacs.Marker.Chains.{WellChained}

-- The `bufpos` that attach computes for a position.
abbrev charno : (gpt gap c : ℕ) → ℕ
charno gpt gap c = if ltb gpt c then c + gap else c

abbrev moved : ℕ → ℕ → World → World
moved m i w = set_obj m (record (w.obj m) { bufpos = i }) w

-- What set_marker has done.
abbrev SetTo : World → (m b c : ℕ) → World → Type 0
SetTo w m b c w' =
    (marker_position m w' ≡ done c w')
    × ((w'.obj m).buffer ≡ some b)
    × ((a : ℕ) → a == m ≡ false → w'.obj a ≡ w.obj a)

-- The marker put in front of the chain of its buffer.
abbrev linked : (b m : ℕ) → World → World
linked b m w =
    set_buf b (record (w.buf b) { markers = m ∷ (w.buf b).markers })
      (set_obj m (record (w.obj m) { buffer = some b }) w)

module _ (w : World) (m b : ℕ) (n : ℤ) (v : WellChained w) where
  abbrev target : ℕ
  target = bound 1 (w.buf b).z n

  abbrev at_target : World
  at_target = moved m (charno (w.buf b).gpt (w.buf b).gap_size target) w

  abbrev Attached : Type 0
  Attached =
      (w' : World) × (attach (λ v. 1) (λ v. v.z) m b n w ≡ done tt w') × SetTo w m b target w'
