-- ===== src/FileName/Parts.antt =====
-- The directory and the rest of a file name.
use holomacs.Prelude.{
  ℕ, zero, suc, ◌+◌, ◌<◌, ◌≤◌, ◌≡◌, refl, ap, ◌∙◌, arith, true, false, none, some, List, [], ◌∷◌,
  ◌++◌, ◌==◌, if◌then◌else◌, length, get_or, take, drop, has, length-append,
}
use holomacs.FileName.{slash, behind_slash, file_name_directory, file_name_nondirectory}

-- The bytes of a directory: none, or the last one is a slash.
abbrev pub EndsInSlash : List ℕ → Type 0
EndsInSlash [] = Unit {0}
EndsInSlash (c ∷ d) = get_or (c ∷ d) (length d) 0 ≡ slash

get_or-left : (d f : List ℕ) (i : ℕ) → i < length d → get_or (d ++ f) i 0 ≡ get_or d i 0
get_or-left [] f i h = absurd (omega (arith, h))
get_or-left (c ∷ d) f zero h = refl
get_or-left (c ∷ d) f (suc i) h = get_or-left d f i (omega (arith, h))

pub get_or-right : (d f : List ℕ) (i p : ℕ) → p ≡ length d + i → get_or (d ++ f) p 0 ≡ get_or f i 0
get_or-right [] f i p e = ap (λ x. get_or f x 0) (omega (arith, e))
get_or-right (c ∷ d) f i zero e = absurd (omega (arith, e))
get_or-right (c ∷ d) f i (suc p) e = get_or-right d f i p (omega (arith, e))

pub take-left : (d f : List ℕ) → take (length d) (d ++ f) ≡ d
take-left [] f = refl
take-left (c ∷ d) f = ap (λ l. c ∷ l) (take-left d f)

drop-left : (d f : List ℕ) → drop (length d) (d ++ f) ≡ f
drop-left [] f = refl
drop-left (c ∷ d) f = drop-left d f

no_slash :
    (f : List ℕ) (i : ℕ) → has slash f ≡ false → i < length f → (get_or f i 0 == slash) ≡ false
no_slash [] i h l = absurd (omega (arith, l))
no_slash (c ∷ f) zero h l = ground (arith, h)
no_slash (c ∷ f) (suc i) h l = no_slash f i (ground (arith, h)) (omega (arith, l))

-- The loop passes the part without a slash.
passes :
    (d f : List ℕ) (k p : ℕ)
    → has slash f ≡ false
    → k ≤ length f
    → p ≡ length d + k
    → behind_slash p (d ++ f) ≡ behind_slash (length d) (d ++ f)
unfolding behind_slash
passes d f zero p h l e = ap (λ x. behind_slash x (d ++ f)) (omega (arith, e))
passes d f (suc k) zero h l e = absurd (omega (arith, e))
passes d f (suc k) (suc p) h l e =
    rw
      (ap (λ c. c == slash) (get_or-right d f k p (omega (arith, e)))
        ∙ no_slash f k h (omega (arith, l)))
      (passes d f k p h (omega (arith, l)) (omega (arith, e)))

stops : (d f : List ℕ) → EndsInSlash d → behind_slash (length d) (d ++ f) ≡ length d
unfolding behind_slash
stops [] f e = refl
stops (c ∷ d) f e = rw (is_slash (get_or-left (c ∷ d) f (length d) (omega arith) ∙ e)) refl
  where
    is_slash : {x : ℕ} → x ≡ slash → (x == slash) ≡ true
    is_slash e = rw e refl

-- A directory, which ends in a slash or is empty, and a name without a slash, put together, are taken apart
-- again by file-name-directory, which gives nil for the empty one, and file-name-nondirectory.
pub join_then_split :
    (d f : List ℕ)
    → EndsInSlash d
    → has slash f ≡ false
    → (file_name_directory (d ++ f) ≡ (if length d == 0 then none else some d))
      × (file_name_nondirectory (d ++ f) ≡ f)
unfolding file_name_directory file_name_nondirectory
join_then_split d f e h = (
  rw place (ap (λ l. if length d == 0 then none else some l) (take-left d f)),
  rw place (drop-left d f),
)
  where
    place : behind_slash (length (d ++ f)) (d ++ f) ≡ length d
    place =
        passes d f (length f) (length (d ++ f)) h (omega arith) (length-append d f) ∙ stops d f e
