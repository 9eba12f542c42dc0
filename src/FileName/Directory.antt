-- ===== src/FileName/Directory.antt =====
-- A file name as a directory and back.
use holomacs.Prelude.{
  ℕ, suc, ◌+◌, ◌-◌, ◌≡◌, refl, ap, ◌∙◌, arith, true, false, some, List, [], ◌∷◌, ◌++◌, ltb, ◌==◌,
  length, get_or, has, length-append,
}
use holomacs.FileName.{
  slash, c_string, append_slash, remove_slash, file_name_as_directory, directory_file_name,
}
use holomacs.FileName.Parts.{get_or-right, take-left}

not_zero : (c : ℕ) (s : List ℕ) → has 0 (c ∷ s) ≡ false → (c == 0) ≡ false
not_zero c s h = ground (arith, h)

c_string_same : (s : List ℕ) → has 0 s ≡ false → c_string s ≡ s
c_string_same [] h = refl
c_string_same (c ∷ s) h =
    rw (not_zero c s h) (ap (λ l. c ∷ l) (c_string_same s (ground (arith, h))))

has-append : (s : List ℕ) → has 0 s ≡ false → has 0 (s ++ slash ∷ []) ≡ false
has-append [] h = refl
has-append (c ∷ s) h = rw (not_zero c s h) (has-append s (ground (arith, h)))

remove_appended : (c : ℕ) (s : List ℕ) → remove_slash (c ∷ s ++ slash ∷ []) ≡ c ∷ s
unfolding remove_slash
remove_appended c s =
    rw (size (length (c ∷ s ++ slash ∷ [])) (length-append (c ∷ s) (slash ∷ []))) (
      rw (get_or-right (c ∷ s) (slash ∷ []) 0 (suc (length s)) (omega arith))
        (rw (positive (length s)) (ap (λ l. c ∷ l) (take-left s (slash ∷ [])))))
  where
    positive : (n : ℕ) → ltb 0 (suc n) ≡ true
    positive n = ground arith

    size : (n : ℕ) → n ≡ suc (length s) + 1 → n - 1 ≡ suc (length s)
    size n e = omega (arith, e)

-- For a name that is not empty, has no byte 0 and does not end in a slash, file-name-as-directory appends
-- one, and directory-file-name takes it away again.
as_directory_and_back :
    (c : ℕ) (s : List ℕ)
    → has 0 (c ∷ s) ≡ false
    → (get_or (c ∷ s) (length s) 0 == slash) ≡ false
    → (file_name_as_directory (c ∷ s) ≡ some (c ∷ s ++ slash ∷ []))
      × (directory_file_name (c ∷ s ++ slash ∷ []) ≡ c ∷ s)
unfolding file_name_as_directory directory_file_name append_slash
as_directory_and_back c s h n = (
  rw (c_string_same (c ∷ s) h) (rw n refl),
  ap remove_slash (c_string_same (c ∷ s ++ slash ∷ []) (has-append (c ∷ s) h))
      ∙ remove_appended c s,
)
