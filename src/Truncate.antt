-- ===== src/Truncate.antt =====
-- undo.c: truncate_undo_list, which garbage collection calls to shorten an undo list at its end.
use holomacs.Prelude.{
  ℕ, zero, suc, ◌+◌, ◌≡◌, refl, ap, ◌⊎◌, inl, inr, Bool, true, false, List, [], ◌∷◌, ◌++◌, ltb,
  ◌==◌, Bool-cases, if◌then◌else◌, length, take, arith, ◌∙◌, Option, none, some, ◌≤◌, ◌<◌, sym,
  append_assoc, append-nil, length-append, Option-cases,
}
use mathlib.Core.Path.{subst}
use holomacs.Editor.{UndoEntry, boundary, insertion, deletion, first_change}

-- The space of an element and its chain link.
unfoldable pub space : UndoEntry → ℕ
space boundary = 8
space (insertion a b) = 16
space (deletion text at) = 22 + length text
space (first_change a b) = 16

-- The scan of the list. `seen` elements are behind it, and `kept` is the number of elements up to
-- `save_prev`; the result is none where the scan reached the end of the list.
unfoldable pub scan_list :
    (list : List UndoEntry) → (minsize maxsize size_so_far seen kept : ℕ) → Option ℕ
unfolding space
scan_list [] minsize maxsize size seen kept = none
scan_list (boundary ∷ l) minsize maxsize size seen kept =
    let rest = scan_list l minsize maxsize (size + space boundary) (seen + 1) seen in
    if ltb maxsize size then some kept else if ltb minsize size then some seen else rest
scan_list (x ∷ l) minsize maxsize size seen kept =
    scan_list l minsize maxsize (size + space x) (seen + 1) kept

unfoldable pub truncate_undo_list : List UndoEntry → (minsize maxsize : ℕ) → List UndoEntry
unfolding scan_list
truncate_undo_list list minsize maxsize = elim (scan_list list minsize maxsize 0 0 0) [
  | none ↦ list
  | some n ↦ take n list
]

-- The space of a whole list.
abbrev pub total : List UndoEntry → ℕ
total [] = 0
total (x ∷ l) = space x + total l

abbrev is_boundary : UndoEntry → Bool
is_boundary boundary = true
is_boundary x = false

-- Element i of a list is a boundary.
abbrev pub bounds : List UndoEntry → ℕ → Bool
bounds [] i = false
bounds (x ∷ l) zero = is_boundary x
bounds (x ∷ l) (suc i) = bounds l i

-- In front of every boundary among the first n elements there is no more than either size.
abbrev pub Fits : (minsize maxsize : ℕ) → List UndoEntry → ℕ → Type 0
Fits minsize maxsize list n =
    (i : ℕ)
    → i < n
    → bounds list i ≡ true
    → (total (take i list) ≤ minsize) × (total (take i list) ≤ maxsize)

-- k is the last boundary before element b, or 0 where there is none.
abbrev pub IsLast : List UndoEntry → (b k : ℕ) → Type 0
IsLast list b k =
    ((k ≡ 0) ⊎ ((k < b) × (bounds list k ≡ true)))
    × ((i : ℕ) → k < i → i < b → bounds list i ≡ false)

-- Boundary b is the first with more than one of the sizes in front of it, and the list is cut to its
-- first k elements: at that boundary, unless more than `maxsize` is in front of it, and else at the one
-- before.
abbrev pub IsCut : (minsize maxsize : ℕ) → List UndoEntry → (b k : ℕ) → Type 0
IsCut minsize maxsize list b k =
    (bounds list b ≡ true)
    × Fits minsize maxsize list b
    × (((k ≡ b) × (minsize < total (take b list)) × (total (take b list) ≤ maxsize))
        ⊎ ((maxsize < total (take b list)) × IsLast list b k))

total-append : (xs ys : List UndoEntry) → total (xs ++ ys) ≡ total xs + total ys
total-append [] ys = omega arith
total-append (x ∷ xs) ys = omega (arith, total-append xs ys)

bounds-append :
    (xs : List UndoEntry) (x : UndoEntry) (ys : List UndoEntry)
    → bounds (xs ++ x ∷ ys) (length xs) ≡ is_boundary x
bounds-append [] x ys = refl
bounds-append (y ∷ xs) x ys = bounds-append xs x ys

take-append : (xs ys : List UndoEntry) → take (length xs) (xs ++ ys) ≡ xs
take-append [] ys = refl
take-append (x ∷ xs) ys = ap (λ l. x ∷ l) (take-append xs ys)

-- What the scan finds, where `seen` elements are behind it.
module _ (full : List UndoEntry) (minsize maxsize : ℕ) where
  abbrev Found : Option ℕ → Type 0
  Found none = Fits minsize maxsize full (length full)
  Found (some k) = (b : ℕ) × IsCut minsize maxsize full b k

  abbrev Scanned : List UndoEntry → Type 0
  Scanned l =
      (before : List UndoEntry) (size seen kept : ℕ)
      → before ++ l ≡ full
      → size ≡ total before
      → seen ≡ length before
      → Fits minsize maxsize full seen
      → IsLast full seen kept
      → Found (scan_list l minsize maxsize size seen kept)

  here :
      (before : List UndoEntry) (x : UndoEntry) (l : List UndoEntry) (seen : ℕ)
      → before ++ x ∷ l ≡ full
      → seen ≡ length before
      → bounds full seen ≡ is_boundary x
  here before x l seen e k =
      subst (λ y. bounds y seen ≡ is_boundary x) e (rw k (bounds-append before x l))

  in_front :
      (before l : List UndoEntry) (size seen : ℕ)
      → before ++ l ≡ full
      → size ≡ total before
      → seen ≡ length before
      → total (take seen full) ≡ size
  in_front before l size seen e s k =
      subst (λ y. total (take seen y) ≡ size) e (rw k (ap total (take-append before l) ∙ sym s))

  -- The scan goes on behind an element.
  further :
      (x : UndoEntry) (l : List UndoEntry)
      → Scanned l
      → (before : List UndoEntry) (size seen kept : ℕ) → before ++ x ∷ l ≡ full
      → size ≡ total before
      → seen ≡ length before
      → Fits minsize maxsize full (seen + 1)
      → IsLast full (seen + 1) kept
      → Found (scan_list l minsize maxsize (size + space x) (seen + 1) kept)
  further x l all before size seen kept e s k =
      all (before ++ x ∷ []) (size + space x) (seen + 1) kept (append_assoc before (x ∷ []) l ∙ e)
        (omega (arith, s, total-append before (x ∷ [])))
        (omega (arith, k, length-append before (x ∷ [])))

  Fits-suc :
      (seen : ℕ)
      → Fits minsize maxsize full seen
      → (bounds full seen ≡ true
          → (total (take seen full) ≤ minsize) × (total (take seen full) ≤ maxsize))
      → Fits minsize maxsize full (seen + 1)
  Fits-suc seen f last i h b = elim (Bool-cases (i == seen)) [
    | inl j ↦
        let p : i ≡ seen = ground (arith, j) in
        subst (λ n. (total (take n full) ≤ minsize) × (total (take n full) ≤ maxsize)) (sym p)
          (last (sym (ap (bounds full) p) ∙ b))
    | inr j ↦ f i (ground (arith, j, h)) b
  ]

  IsLast-other :
      (seen kept : ℕ)
      → bounds full seen ≡ false
      → IsLast full seen kept
      → IsLast full (seen + 1) kept
  IsLast-other seen kept o (at, none_behind) = (
    elim at [ inl z ↦ inl z | inr (h, b) ↦ inr (omega (arith, h), b) ],
    λ i h j. elim (Bool-cases (i == seen)) [
      | inl p ↦ ap (bounds full) (ground (arith, p)) ∙ o
      | inr p ↦ none_behind i h (ground (arith, p, j))
    ],
  )

  past :
      (x : UndoEntry) (l : List UndoEntry)
      → is_boundary x ≡ false
      → Scanned l
      → (before : List UndoEntry) (size seen kept : ℕ) → before ++ x ∷ l ≡ full
      → size ≡ total before
      → seen ≡ length before
      → Fits minsize maxsize full seen
      → IsLast full seen kept
      → Found (scan_list l minsize maxsize (size + space x) (seen + 1) kept)
  past x l o all before size seen kept e s k f last =
      let no = here before x l seen e k ∙ o in
      further x l all before size seen kept e s k
        (Fits-suc seen f (λ b. absurd (ground (arith, b, no)))) (IsLast-other seen kept no last)

  scan_list-Found : (l : List UndoEntry) → Scanned l
  unfolding scan_list
  scan_list-Found [] before size seen kept e s k f last =
      subst (Fits minsize maxsize full) (k ∙ sym (ap length (append-nil before)) ∙ ap length e) f
  scan_list-Found (boundary ∷ l) before size seen kept e s k f last =
      let bound = here before boundary l seen e k in
      let front = in_front before (boundary ∷ l) size seen e s k in
      elim (Bool-cases (ltb maxsize size)) [
        | inl i ↦ rw i (seen, (bound, f, inr (ground (arith, front, i), last)))
        | inr i ↦ elim (Bool-cases (ltb minsize size)) [
          | inl j ↦ rw i (
              rw j
                (seen, (bound, f, inl (refl, ground (arith, front, j), ground (arith, front, i)))))
          | inr j ↦ rw i (
              rw j (
                further boundary l (scan_list-Found l) before size seen seen e s k
                  (Fits-suc seen f (λ b. (ground (arith, front, j), ground (arith, front, i))))
                  (inr (omega arith, bound), λ x h o. absurd (omega (arith, h, o)))))
        ]
      ]
  scan_list-Found (insertion a b ∷ l) before size seen kept e s k f last =
      past (insertion a b) l refl (scan_list-Found l) before size seen kept e s k f last
  scan_list-Found (deletion a b ∷ l) before size seen kept e s k f last =
      past (deletion a b) l refl (scan_list-Found l) before size seen kept e s k f last
  scan_list-Found (first_change a b ∷ l) before size seen kept e s k f last =
      past (first_change a b) l refl (scan_list-Found l) before size seen kept e s k f last

-- Where no boundary of the list has more than `minsize` or `maxsize` in front of it,
-- truncate_undo_list returns the whole list. Else it cuts the list for the first boundary that has: at
-- this boundary if no more than `maxsize` is in front of it, and if more is, at the last boundary before
-- it, or to nothing if there is none before it.
pub truncate_undo_list_lem :
    (list : List UndoEntry) (minsize maxsize : ℕ)
    → ((truncate_undo_list list minsize maxsize ≡ list) × Fits minsize maxsize list (length list))
      ⊎ ((b k : ℕ) × (truncate_undo_list list minsize maxsize ≡ take k list)
          × IsCut minsize maxsize list b k)
unfolding truncate_undo_list
truncate_undo_list_lem list minsize maxsize =
    let found =
      scan_list-Found list minsize maxsize list [] 0 0 0 refl refl refl
        (λ i h b. absurd (omega (arith, h))) (inl refl, λ i h j. absurd (omega (arith, j))) in
    elim (Option-cases (scan_list list minsize maxsize 0 0 0)) [
      | inl e ↦ inl (rw (truncate_undo_list, e) refl, subst (Found list minsize maxsize) e found)
      | inr (k, e) ↦
          let (b, cut) = subst (Found list minsize maxsize) e found in
          inr (b, k, rw (truncate_undo_list, e) refl, cut)
    ]
