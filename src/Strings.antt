-- ===== src/Strings.antt =====
-- fns.c: the comparisons of strings, and the lexicographic order that they decide.
use holomacs.Prelude.{
  ℕ, zero, suc, ◌≡◌, refl, sym, ◌∙◌, ap, Bool, true, false, not, ◌&&◌, ◌||◌, Option, none, some,
  List, [], ◌∷◌, arith, ltb, ◌==◌, if◌then◌else◌, length, get_or,
}

-- An argument: a string, a symbol with its print name, or what CHECK_STRING refuses.
pub data StringArg : Type 0 where
  string symbol : List ℕ → StringArg
  other : StringArg

-- The bytes of an argument, or the error wrong-type-argument.
abbrev pub bytes_of : StringArg → Option (List ℕ)
bytes_of (string s) = some s
bytes_of (symbol s) = some s
bytes_of other = none

abbrev pub with_bytes_of : StringArg → StringArg → (List ℕ → List ℕ → Bool) → Option Bool
with_bytes_of a b test = elim (bytes_of a) [
  | none ↦ none
  | some s ↦ elim (bytes_of b) [ none ↦ none | some t ↦ some (test s t) ]
]

-- Whether bcmp finds a difference in the first `n` bytes from `i` on.
unfoldable pub differ : (n i : ℕ) → List ℕ → List ℕ → Bool
differ zero i s t = false
differ (suc n) i s t = not (get_or s i 0 == get_or t i 0) || differ n (suc i) s t

unfoldable pub string_equal : StringArg → StringArg → Option Bool
unfolding differ
string_equal a b =
    with_bytes_of a b (λ s t. not (not (length s == length t) || differ (length s) 0 s t))

-- The loop of Fstring_lessp with `n` rounds left.
unfoldable pub less_from : (n i : ℕ) → List ℕ → List ℕ → Bool
less_from zero i s t = ltb i (length t)
less_from (suc n) i s t =
    let rest = less_from n (suc i) s t in
    if not (get_or s i 0 == get_or t i 0) then ltb (get_or s i 0) (get_or t i 0) else rest

unfoldable pub string_lessp : StringArg → StringArg → Option Bool
unfolding less_from
string_lessp a b =
    with_bytes_of a b
      (λ s t. less_from (if ltb (length t) (length s) then length t else length s) 0 s t)

-- The lexicographic order of lists, and their equality.
unfoldable pub precedes : List ℕ → List ℕ → Bool
precedes s [] = false
precedes [] (y ∷ t) = true
precedes (x ∷ s) (y ∷ t) = ltb x y || ((x == y) && precedes s t)

unfoldable pub same_list : List ℕ → List ℕ → Bool
same_list [] [] = true
same_list [] (y ∷ t) = false
same_list (x ∷ s) [] = false
same_list (x ∷ s) (y ∷ t) = (x == y) && same_list s t

less_from-suc :
    (n i x y : ℕ) (s t : List ℕ) → less_from n (suc i) (x ∷ s) (y ∷ t) ≡ less_from n i s t
unfolding less_from
less_from-suc zero i x y s t = ground arith
less_from-suc (suc n) i x y s t = rw (less_from-suc n (suc i) x y s t) refl

abbrev shorter : List ℕ → List ℕ → ℕ
shorter s t = if ltb (length t) (length s) then length t else length s

shorter-cons : (x y : ℕ) (s t : List ℕ) → shorter (x ∷ s) (y ∷ t) ≡ suc (shorter s t)
shorter-cons x y s t = ground arith

less_from-precedes : (s t : List ℕ) → less_from (shorter s t) 0 s t ≡ precedes s t
unfolding less_from precedes
less_from-precedes [] [] = ground arith
less_from-precedes [] (y ∷ t) = ground arith
less_from-precedes (x ∷ s) [] = ground arith
less_from-precedes (x ∷ s) (y ∷ t) =
    ap (λ n. less_from n 0 (x ∷ s) (y ∷ t)) (shorter-cons x y s t)
    ∙ rw (less_from, less_from-suc (shorter s t) 0 x y s t, less_from-precedes s t) (ground arith)

differ-suc : (n i x y : ℕ) (s t : List ℕ) → differ n (suc i) (x ∷ s) (y ∷ t) ≡ differ n i s t
unfolding differ
differ-suc zero i x y s t = refl
differ-suc (suc n) i x y s t = rw (differ-suc n (suc i) x y s t) refl

same-same_list :
    (s t : List ℕ) → not (not (length s == length t) || differ (length s) 0 s t) ≡ same_list s t
unfolding differ same_list
same-same_list [] [] = refl
same-same_list [] (y ∷ t) = ground arith
same-same_list (x ∷ s) [] = ground arith
same-same_list (x ∷ s) (y ∷ t) = ground (arith, same-same_list s t, differ-suc (length s) 0 x y s t)

precedes_irrefl : (s : List ℕ) → precedes s s ≡ false
unfolding precedes
precedes_irrefl [] = refl
precedes_irrefl (x ∷ s) = ground (arith, precedes_irrefl s)

precedes_trans : (s t u : List ℕ) → precedes s t ≡ true → precedes t u ≡ true → precedes s u ≡ true
unfolding precedes
precedes_trans s t [] h k = ground arith
precedes_trans [] t (z ∷ u) h k = ground arith
precedes_trans (x ∷ s) [] (z ∷ u) h k = ground arith
precedes_trans (x ∷ s) (y ∷ t) (z ∷ u) h k = ground (arith, precedes_trans s t u)

precedes_total : (s t : List ℕ) → (precedes s t || precedes t s) ≡ not (same_list s t)
unfolding precedes same_list
precedes_total [] [] = refl
precedes_total [] (y ∷ t) = refl
precedes_total (x ∷ s) [] = refl
precedes_total (x ∷ s) (y ∷ t) = ground (arith, precedes_total s t)

some_path : {b c : Bool} → some b ≡ some c → b ≡ c
some_path {b} {c} e = ap (λ o. elim o [ none ↦ b | some x ↦ x ]) e

-- `string-lessp` decides the lexicographic order of two strings, it is false of a string and itself,
-- and `string-equal` holds just where neither of the two is less than the other.
pub string_lessp-precedes :
    (s t : List ℕ)
    → (string_lessp (string s) (string t) ≡ some (precedes s t))
      × (string_lessp (string s) (string s) ≡ some false)
      × (string_equal (string s) (string t) ≡ some (not (precedes s t || precedes t s)))
unfolding string_lessp string_equal
string_lessp-precedes s t = (
  ap some (less_from-precedes s t),
  ap some (less_from-precedes s s ∙ precedes_irrefl s),
  ap some (same-same_list s t ∙ ground (arith, precedes_total s t)),
)

-- Where `string-lessp` holds of a first string and a second, and of the second and a third, it holds
-- of the first and the third.
string_lessp_trans :
    (s t u : List ℕ)
    → string_lessp (string s) (string t) ≡ some true
    → string_lessp (string t) (string u) ≡ some true
    → string_lessp (string s) (string u) ≡ some true
unfolding string_lessp
string_lessp_trans s t u h k = ap some (
    less_from-precedes s u
    ∙ precedes_trans s t u (sym (less_from-precedes s t) ∙ some_path h)
        (sym (less_from-precedes t u) ∙ some_path k))
