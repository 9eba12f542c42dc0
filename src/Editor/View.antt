-- ===== src/Editor/View.antt =====
-- What a buffer shows whatever its gap: its characters, where its markers point, and the
-- invariant under which both make sense.
pub mod Same
use holomacs.Prelude.{
  ◌⊎◌, ℕ, ◌+◌, ◌-◌, ◌≤◌, ◌<◌, ◌≡◌, Bool, true, false, List, ltb, if◌then◌else◌, has, Distinct,
  Bool-cases, inl, inr, refl, arith, ◌∙◌, ap,
}
use holomacs.Editor.{
  Editor, Signal, quit, Run, ok, signal, fault, Cmd, and_then, char_at, poll, quitp, check_quit,
}

-- The position that marker_position computes from the gap and from `bufpos`.
abbrev pub place : (gpt gap_size i : ℕ) → ℕ
place gpt gap_size i = if ltb (gpt + gap_size) i then i - gap_size else if ltb gpt i then gpt else i

abbrev pub marker_at : Editor → ℕ → ℕ
marker_at e m = place e.gpt e.gap_size (e.bufpos m)

-- A marker points into the text before the gap or into that behind it.
abbrev pub IsPlaced : (gpt gap_size z i : ℕ) → Type 0
IsPlaced gpt gap_size z i = (1 ≤ i) × (i ≤ z + gap_size) × ((i ≤ gpt) ⊎ (gpt + gap_size < i))

-- The allocated bytes are the text and the gap, point and the gap lie in the text, each marker
-- is once in the chain and points into the text.
pub record IsValid (e : Editor) : Type 0 where
  pub begv_low : 1 ≤ e.begv
  pub pt_low : e.begv ≤ e.pt
  pub pt_high : e.pt ≤ e.zv
  pub zv_high : e.zv ≤ e.z
  pub gpt_low : 1 ≤ e.gpt
  pub gpt_high : e.gpt ≤ e.z
  pub allocated : e.room + 1 ≡ e.z + e.gap_size
  pub chain : Distinct e.markers
  pub placed : (m : ℕ) → has m e.markers ≡ true → IsPlaced e.gpt e.gap_size e.z (e.bufpos m)

-- The fields that a motion of the gap leaves alone.
pub record SameFields (e e' : Editor) : Type 0 where
  pub z : e'.z ≡ e.z
  pub begv : e'.begv ≡ e.begv
  pub zv : e'.zv ≡ e.zv
  pub pt : e'.pt ≡ e.pt
  pub modiff : e'.modiff ≡ e.modiff
  pub save_modified : e'.save_modified ≡ e.save_modified
  pub modtime : e'.modtime ≡ e.modtime
  pub markers : e'.markers ≡ e.markers
  pub undo_list : e'.undo_list ≡ e.undo_list
  pub read_only : e'.read_only ≡ e.read_only
  pub inhibit_quit : e'.inhibit_quit ≡ e.inhibit_quit
  pub self : e'.self ≡ e.self
  pub last_undo_buffer : e'.last_undo_buffer ≡ e.last_undo_buffer

-- Every character is what it was.
abbrev pub SameText : Editor → Editor → Type 0
SameText e e' = (n : ℕ) → 1 ≤ n → n < e.z → char_at e' n ≡ char_at e n

-- Every marker of the buffer points where it did.
abbrev pub SameMarks : Editor → Editor → Type 0
SameMarks e e' = (m : ℕ) → has m e.markers ≡ true → marker_at e' m ≡ marker_at e m

pub record SameBuffer (e e' : Editor) : Type 0 where
  pub fields : SameFields e e'
  pub text : SameText e e'
  pub marks : SameMarks e e'

-- How a command ends: it returns and P holds, or it signals and Q holds, and it never faults.
abbrev pub Ends : {A : Type 0} → (A → Editor → Type 0) → (Signal → Editor → Type 0) → Run A → Type 0
Ends P Q (ok a e) = P a e
Ends P Q (signal s e) = Q s e
Ends P Q fault = ⊥

pub Ends-bind :
    {A B : Type 0} (P : A → Editor → Type 0) (R : B → Editor → Type 0)
    (Q : Signal → Editor → Type 0) (r : Run A) (k : A → Cmd B)
    → Ends P Q r
    → ((a : A) (e : Editor) → P a e → Ends R Q (k a e))
    → Ends R Q (and_then r k)
Ends-bind P R Q (ok a e) k h next = next a e h
Ends-bind P R Q (signal s e) k h next = h
Ends-bind P R Q fault k h next = h

-- The same buffer with the gap between `lo` and `hi`.
pub record Kept (lo hi : ℕ) (e e' : Editor) : Type 0 where
  pub valid : IsValid e'
  pub same : SameBuffer e e'
  pub gap_size : e'.gap_size ≡ e.gap_size
  pub room : e'.room ≡ e.room
  pub gpt_low : lo ≤ e'.gpt
  pub gpt_high : e'.gpt ≤ hi

-- What a quit flag and the polls left over say does not matter to a buffer.
abbrev pub with_quit : Bool → List Bool → Editor → Editor
with_quit flag left e = record e { quit_flag = flag; arrivals = left }

pub check_quit-Ends :
    (P : Unit {0} → Editor → Type 0) (Q : Signal → Editor → Type 0) (e : Editor)
    → (quitp (poll e) ≡ false → P tt (poll e))
    → (quitp (poll e) ≡ true → Q quit (with_quit false (poll e).arrivals e))
    → Ends P Q (check_quit e)
unfolding check_quit
check_quit-Ends P Q e returns quits = elim (Bool-cases (quitp (poll e))) [
  | inl h ↦ rw h (quits h)
  | inr h ↦ rw h (returns h)
]

-- A state after the gap has moved, up to what redisplay is told.
pub moved-SameFields :
    (bytes bufpos : ℕ → ℕ) (gpt first last : ℕ) (flag : Bool) (left : List Bool) (e : Editor)
    → SameFields e (record e {
      beg = bytes;
      bufpos = bufpos;
      gpt = gpt;
      beg_unchanged = first;
      end_unchanged = last;
      quit_flag = flag;
      arrivals = left;
    })
moved-SameFields bytes bufpos gpt first last flag left e = record {
  z = refl;
  begv = refl;
  zv = refl;
  pt = refl;
  modiff = refl;
  save_modified = refl;
  modtime = refl;
  markers = refl;
  undo_list = refl;
  read_only = refl;
  inhibit_quit = refl;
  self = refl;
  last_undo_buffer = refl;
}

pub Ends-mono :
    {A : Type 0} (P P' : A → Editor → Type 0) (Q Q' : Signal → Editor → Type 0) (r : Run A)
    → Ends P Q r
    → ((a : A) (e : Editor) → P a e → P' a e)
    → ((s : Signal) (e : Editor) → Q s e → Q' s e)
    → Ends P' Q' r
Ends-mono P P' Q Q' (ok a e) h p q = p a e h
Ends-mono P P' Q Q' (signal s e) h p q = q s e h
Ends-mono P P' Q Q' fault h p q = h

-- The gap has come to `target`.
abbrev pub Arrived : (lo hi target : ℕ) → Editor → Unit {0} → Editor → Type 0
Arrived lo hi target e _ e' = Kept lo hi e e' × (e'.gpt ≡ target)

-- A quit has stopped the gap on its way.
abbrev pub Stopped : (lo hi : ℕ) → Editor → Signal → Editor → Type 0
Stopped lo hi e s e' = (s ≡ quit) × Kept lo hi e e' × (e.inhibit_quit ≡ false)

pub Kept-widen :
    {lo hi : ℕ} (lo' hi' : ℕ) {e e' : Editor}
    → Kept lo hi e e'
    → lo' ≤ lo
    → hi ≤ hi'
    → Kept lo' hi' e e'
Kept-widen lo' hi' k h1 h2 = record {
  valid = k.valid;
  same = k.same;
  gap_size = k.gap_size;
  room = k.room;
  gpt_low = omega (arith, k.gpt_low);
  gpt_high = omega (arith, k.gpt_high);
}

pub Kept-refl : {e : Editor} → IsValid e → Kept e.gpt e.gpt e e
Kept-refl {e} v = record {
  valid = v;
  same = record {
    fields =
        moved-SameFields e.beg e.bufpos e.gpt e.beg_unchanged e.end_unchanged e.quit_flag e.arrivals
          e;
    text = λ n h1 h2. refl;
    marks = λ m i. refl;
  };
  gap_size = refl;
  room = refl;
  gpt_low = omega arith;
  gpt_high = omega arith;
}
