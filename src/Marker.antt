-- ===== src/Marker.antt =====
-- marker.c: markers as objects of their own, which may point into any buffer or nowhere.
-- The chain of a buffer's markers is the list of the objects that following it gives.
pub mod Chains
pub mod Set
use holomacs.Prelude.{
  ℕ, ◌+◌, ◌-◌, ◌≡◌, Bool, true, false, not, ◌||◌, Option, none, some, List, [], ◌∷◌, ltb, ◌==◌,
  if◌then◌else◌, ℤ, pos, negsuc, has, Distinct,
}
use holomacs.Editor.View.{IsPlaced, place}

-- The slots of `struct buffer` that marker.c reads; a dead buffer's name is nil.
pub record Buffer : Type 0 where
  pub alive : Bool
  pub begv : ℕ
  pub zv : ℕ
  pub z : ℕ
  pub gpt : ℕ
  pub gap_size : ℕ
  pub markers : List ℕ

-- `struct Lisp_Marker`
pub record MarkerObject : Type 0 where
  pub buffer : Option ℕ
  pub bufpos : ℕ

-- Buffers and markers by their addresses, the current buffer, and the address that Fmake_marker
-- gives out next.
pub record World : Type 0 where
  pub buf : ℕ → Buffer
  pub obj : ℕ → MarkerObject
  pub current : ℕ
  pub unused : ℕ

-- `nowhere` is the error of marker_position, `abort` a call of abort or a null pointer.
pub data Outcome (A : Type 0) : Type 0 where
  done : A → World → Outcome A
  nowhere abort : Outcome A

abbrev pub chain_on : {A B : Type 0} → Outcome A → (A → World → Outcome B) → Outcome B
chain_on (done a w) k = k a w
chain_on nowhere k = nowhere
chain_on abort k = abort

abbrev pub set_buf : ℕ → Buffer → World → World
set_buf b v w = record w { buf = λ c. if c == b then v else w.buf c }

abbrev pub set_obj : ℕ → MarkerObject → World → World
set_obj m v w = record w { obj = λ c. if c == m then v else w.obj c }

-- The chain without the first occurrence of a marker.
unfoldable pub unlink : ℕ → List ℕ → List ℕ
unlink m [] = []
unlink m (x ∷ chain) = if x == m then chain else x ∷ unlink m chain

abbrev pub points_into : World → ℕ → ℕ → Bool
points_into w b m = elim ((w.obj m).buffer) [ none ↦ false | some c ↦ c == b ]

-- Deleting the first marker of the chain of `b`, the new first one must belong to `b`.
unfoldable pub bad_next : World → (b m : ℕ) → List ℕ → Bool
bad_next w b m (x ∷ y ∷ chain) = if x == m then not (points_into w b y) else false
bad_next w b m chain = false

unfoldable pub unchain_marker : ℕ → World → Outcome (Unit {0})
unfolding unlink bad_next
unchain_marker m w = elim ((w.obj m).buffer) [
  | none ↦ abort
  | some b ↦
      if not (w.buf b).alive || bad_next w b m (w.buf b).markers
      then abort
      else done tt (
          set_obj m (record (w.obj m) { buffer = none })
            (set_buf b (record (w.buf b) { markers = unlink m (w.buf b).markers }) w))
]

unfoldable pub detach : ℕ → World → Outcome (Unit {0})
unfolding unchain_marker
detach m w = elim ((w.obj m).buffer) [ none ↦ done tt w | some b ↦ unchain_marker m w ]

abbrev pub position_in : Buffer → ℕ → ℕ
position_in b i = place b.gpt b.gap_size i

-- The position of a marker, or abort where it is not in the text.
unfoldable pub checked_position : Buffer → ℕ → World → Outcome ℕ
checked_position b i w =
    if ltb (position_in b i) 1 || ltb b.z (position_in b i) then abort else done (position_in b i) w

unfoldable pub marker_position : ℕ → World → Outcome ℕ
unfolding checked_position
marker_position m w = elim ((w.obj m).buffer) [
  | none ↦ nowhere
  | some b ↦ checked_position (w.buf b) (w.obj m).bufpos w
]

-- The Lisp function gives nil for a marker that points nowhere.
unfoldable pub fmarker_position : ℕ → World → Outcome (Option ℕ)
unfolding checked_position
fmarker_position m w = elim ((w.obj m).buffer) [
  | none ↦ done none w
  | some b ↦ chain_on (checked_position (w.buf b) (w.obj m).bufpos w) (λ p w'. done (some p) w')
]

unfoldable pub marker_buffer : ℕ → World → Option ℕ
marker_buffer m w = elim ((w.obj m).buffer) [
  | none ↦ none
  | some b ↦ if (w.buf b).alive then some b else none
]

-- The argument POS: nil, a number or a marker.
pub data PosArg : Type 0 where
  nil : PosArg
  int : ℤ → PosArg
  marker : ℕ → PosArg

-- A number between two bounds.
unfoldable pub bound : (lo hi : ℕ) → ℤ → ℕ
bound lo hi (negsuc n) = lo
bound lo hi (pos n) = if ltb n lo then lo else if ltb hi n then hi else n

-- The new place of the marker, and its chain.
unfoldable pub attach : (lo hi : Buffer → ℕ) → (m b : ℕ) → ℤ → World → Outcome (Unit {0})
unfolding bound detach
attach lo hi m b n w =
    let v = w.buf b in
    let c = bound (lo v) (hi v) n in
    let charno = if ltb v.gpt c then c + v.gap_size else c in
    let w1 = set_obj m (record (w.obj m) { bufpos = charno }) w in
    if points_into w b m
    then done tt w1
    else chain_on (detach m w1) (λ _ w2. done tt (
        set_buf b (record (w2.buf b) { markers = m ∷ (w2.buf b).markers })
          (set_obj m (record (w2.obj m) { buffer = some b }) w2)))

-- The buffer argument: nil is the current buffer, and a dead one has the marker point nowhere.
unfoldable pub attach_to : (lo hi : Buffer → ℕ) → ℕ → ℤ → Option ℕ → World → Outcome (Unit {0})
unfolding attach
attach_to lo hi m n none w = attach lo hi m w.current n w
attach_to lo hi m n (some b) w = if (w.buf b).alive then attach lo hi m b n w else detach m w

unfoldable pub set_within :
    (lo hi : Buffer → ℕ) → ℕ → PosArg → Option ℕ → World → Outcome (Unit {0})
unfolding attach_to marker_position
set_within lo hi m nil b w = detach m w
set_within lo hi m (int n) b w = attach_to lo hi m n b w
set_within lo hi m (marker p) b w = elim ((w.obj p).buffer) [
  | none ↦ detach m w
  | some c ↦ chain_on (marker_position p w) (λ n. attach_to lo hi m (pos n) b)
]

-- Fset_marker clips to the whole text, set_marker_restricted to its visible part.
unfoldable pub set_marker : ℕ → PosArg → Option ℕ → World → Outcome (Unit {0})
unfolding set_within
set_marker = set_within (λ b. 1) (λ b. b.z)

unfoldable pub set_marker_restricted : ℕ → PosArg → Option ℕ → World → Outcome (Unit {0})
unfolding set_within
set_marker_restricted = set_within (λ b. b.begv) (λ b. b.zv)

-- Fmake_marker
abbrev pub make_marker : World → World
make_marker w = record (set_obj w.unused (record { buffer = none; bufpos = 0 }) w) {
  unused = w.unused + 1;
}

-- The buffer that Fcopy_marker passes on.
abbrev pub source_buffer : PosArg → World → Option ℕ
source_buffer (marker m) w = marker_buffer m w
source_buffer x w = none

-- Fcopy_marker of a number or a marker; the result is the new marker.
unfoldable pub copy_marker : PosArg → World → Outcome ℕ
unfolding set_marker marker_buffer
copy_marker x w =
    chain_on (set_marker w.unused x (source_buffer x w) (make_marker w)) (λ _. done w.unused)
