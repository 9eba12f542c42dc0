-- ===== src/Insdel/Insert.antt =====
-- What insertion does: the text, point, the visible part, the markers and the undo list.
pub mod Prepare
use holomacs.Prelude.{
  ℕ, zero, suc, ◌+◌, ◌-◌, ◌^◌, ◌≤◌, ◌<◌, ◌≡◌, refl, sym, ◌∙◌, ap, inl, inr, true, false, not, ◌&&◌,
  some, List, [], ◌∷◌, arith, ltb, leb, ◌==◌, if◌then◌else◌, Bool-cases, length, get_or, has,
}
use holomacs.Editor.{
  Editor, Signal, quit, buffer_read_only, file_supersession, memory_full, buffer_too_large,
  args_out_of_range, outside_visible, ok, and_then, when, write, char_at, Host,
}
use holomacs.Editor.View.{
  IsValid, IsPlaced, SameBuffer, Ends, Ends-bind, Ends-mono, Arrived, Stopped, marker_at, place,
}
use holomacs.Editor.View.Same.{SameBuffer-refl, SameBuffer-trans}
use holomacs.Gap.{move_gap, make_gap}
use holomacs.Gap.Move.{move_gap_keeps}
use holomacs.Gap.Grow.{Grown, make_gap_grows}
use holomacs.UndoList.{record_insert, prepare_list, with_insertion}
use holomacs.Insdel.{xint, same_int, prepare_to_modify_buffer, bcopy, advance, count_change, insert}
use holomacs.Gap.{with_bytes}
use Prepare.{Refused, Refused-same, NotDone, AtPoint, Ready, prepare_lem, move_to_point, make_room}

-- A number is the Lisp integer made of it, as insert compares them, just where it is below 2 ^ 54.
pub same_int-xint : (n : ℕ) → same_int n (xint n) ≡ ltb n (2 ^ 54)
same_int-xint n = ground arith

get_or-cons :
    (c : ℕ) (cs : List ℕ) (k : ℕ)
    → get_or (c ∷ cs) k 0 ≡ (if k == 0 then c else get_or cs (k - 1) 0)
get_or-cons c cs zero = refl
get_or-cons c cs (suc k) = ground arith

sub_step : (b a : ℕ) → b - a - 1 ≡ b - (a + 1)
sub_step b a = omega arith

bcopy_lem :
    (room a : ℕ) (s : List ℕ) (m : ℕ → ℕ)
    → a + length s ≤ room
    → (m' : ℕ → ℕ) × (bcopy room m a s ≡ some m')
      × ((b : ℕ) → m' b ≡ (if leb a b && ltb b (a + length s) then get_or s (b - a) 0 else m b))
unfolding bcopy
bcopy_lem room a [] m h = (m, refl, λ b. ground arith)
bcopy_lem room a (c ∷ cs) m h =
    let (m', e, all) = bcopy_lem room (a + 1) cs (write m a c) (omega arith) in
    (m', ground arith, λ b. ground (arith, all b, get_or-cons c cs (b - a), sub_step b a))

-- The buffer with `string` inserted before point: the text, what follows it moved up, point
-- behind it; markers at point stay before it and those after move up.
pub record Inserted (string : List ℕ) (e e' : Editor) : Type 0 where
  pub valid : IsValid e'
  pub z : e'.z ≡ e.z + length string
  pub begv : e'.begv ≡ e.begv
  pub zv : e'.zv ≡ e.zv + length string
  pub pt : e'.pt ≡ e.pt + length string
  pub gpt : e'.gpt ≡ e.pt + length string
  pub modiff : e'.modiff ≡ e.modiff + 1
  pub markers : e'.markers ≡ e.markers
  pub text :
      (n : ℕ)
      → 1 ≤ n
      → n < e'.z
      → char_at e' n ≡ (
          if ltb n e.pt
          then char_at e n
          else if ltb n (e.pt + length string)
          then get_or string (n - e.pt) 0
          else char_at e (n - length string))
  pub marks :
      (m : ℕ)
      → has m e.markers ≡ true
      → marker_at e' m
        ≡ (if ltb e.pt (marker_at e m) then marker_at e m + length string else marker_at e m)
  pub undo_list : e'.undo_list ≡ with_insertion e.pt (length string) (prepare_list e)
  pub last_undo_buffer : e'.last_undo_buffer ≡ e.self
  pub self : e'.self ≡ e.self
  pub save_modified : e'.save_modified ≡ e.save_modified
  pub modtime : e'.modtime ≡ e.modtime
  pub read_only : e'.read_only ≡ e.read_only
  pub inhibit_quit : e'.inhibit_quit ≡ e.inhibit_quit

pub prepare_list-same : (e e' : Editor) → SameBuffer e e' → prepare_list e' ≡ prepare_list e
unfolding prepare_list
prepare_list-same e e' s = simp (
  s.fields.self, s.fields.last_undo_buffer, s.fields.undo_list, s.fields.modiff,
  s.fields.save_modified, s.fields.modtime,
)

IsPlaced-after :
    (g gap z n i : ℕ) → n ≤ gap → g ≤ z → IsPlaced g gap z i → IsPlaced (g + n) (gap - n) (z + n) i
IsPlaced-after g gap z n i h1 h2 h3 = ground arith

marks_after :
    (g gap z n i : ℕ)
    → n ≤ gap
    → g ≤ z
    → IsPlaced g gap z i
    → place (g + n) (gap - n) i
      ≡ (if ltb g (place g gap i) then place g gap i + n else place g gap i)
marks_after g gap z n i h1 h2 h3 = ground arith

-- A character of the buffer with the string in its gap.
written :
    (string : List ℕ) (e2 : Editor) (bytes : ℕ → ℕ) (n : ℕ)
    → 1 ≤ n
    → 1 ≤ e2.gpt
    → length string ≤ e2.gap_size
    → ((b : ℕ)
        → bytes b ≡ (
            if leb (e2.gpt - 1) b && ltb b (e2.gpt - 1 + length string)
            then get_or string (b - (e2.gpt - 1)) 0
            else e2.beg b))
    → bytes ((if leb (e2.gpt + length string) n then e2.gap_size - length string else 0) + n - 1)
      ≡ (if ltb n e2.gpt
          then char_at e2 n
          else if ltb n (e2.gpt + length string)
          then get_or string (n - e2.gpt) 0
          else char_at e2 (n - length string))
written string e2 bytes n h1 h2 h3 all =
    let size = length string in
    let index : (n - 1) - (e2.gpt - 1) ≡ n - e2.gpt = omega arith in
    let upper : e2.gpt + size ≤ n → e2.gap_size - size + n - 1 ≡ e2.gap_size + (n - size) - 1 =
      omega arith in
    ground
      (arith, all ((if leb (e2.gpt + size) n then e2.gap_size - size else 0) + n - 1), index, upper)

-- The bytes of the string have been copied into the gap of a buffer that is ready.
write_string :
    (string : List ℕ) (e e2 : Editor) (bytes : ℕ → ℕ)
    → IsValid e
    → Ready (length string) e tt e2
    → ((b : ℕ)
        → bytes b ≡ (
            if leb (e2.gpt - 1) b && ltb b (e2.gpt - 1 + length string)
            then get_or string (b - (e2.gpt - 1)) 0
            else e2.beg b))
    → Inserted string e (
        advance
          (length string)
          (record (count_change (record_insert e2.pt (length string) e2)) { beg = bytes }))
unfolding advance record_insert
write_string string e e2 bytes v (v2, s, at, room) all = record {
  valid = record {
    begv_low = v2.begv_low;
    pt_low = omega (arith, v2.pt_low);
    pt_high = omega (arith, v2.pt_high);
    zv_high = omega (arith, v2.zv_high);
    gpt_low = omega (arith, v2.gpt_low);
    gpt_high = omega (arith, v2.gpt_high);
    allocated = omega (arith, v2.allocated);
    chain = v2.chain;
    placed = λ m i.
        IsPlaced-after e2.gpt e2.gap_size e2.z (length string) (e2.bufpos m) room v2.gpt_high
          (v2.placed m i);
  };
  z = omega (arith, s.fields.z);
  begv = s.fields.begv;
  zv = omega (arith, s.fields.zv);
  pt = omega (arith, s.fields.pt);
  gpt = omega (arith, at);
  modiff = omega (arith, s.fields.modiff);
  markers = s.fields.markers;
  text = λ n h1 h2.
      written string e2 bytes n h1 v2.gpt_low room all
      ∙ ground (arith, s.text n, s.text (n - length string), s.fields.z, v.pt_low, v.begv_low);
  marks = λ m i.
      marks_after e2.gpt e2.gap_size e2.z (length string) (e2.bufpos m) room v2.gpt_high
        (v2.placed m (ap (has m) s.fields.markers ∙ i))
      ∙ ap (λ k. if ltb e2.gpt k then k + length string else k) (s.marks m i)
      ∙ ap (λ g. if ltb g (marker_at e m) then marker_at e m + length string else marker_at e m) at;
  undo_list = rw (prepare_list-same e e2 s, s.fields.pt);
  last_undo_buffer = s.fields.self;
  self = s.fields.self;
  save_modified = s.fields.save_modified;
  modtime = s.fields.modtime;
  read_only = s.fields.read_only;
  inhibit_quit = s.fields.inhibit_quit;
}

-- What remains of insert when the gap is ready.
store-Ready :
    (host : Host) (string : List ℕ) (e e2 : Editor)
    → IsValid e
    → Ready (length string) e tt e2
    → Ends
        (λ _. Inserted string e)
        (NotDone host (length string) e)
        (and_then
          (with_bytes
            (bcopy e2.room e2.beg (e2.gpt - 1) string)
            (count_change (record_insert e2.pt (length string) e2)))
          (λ _ e4. ok tt (advance (length string) e4)))
store-Ready host string e e2 v ready =
    let room : e2.gpt - 1 + length string ≤ e2.room =
      omega (arith, ready.0.allocated, ready.0.gpt_high, ready.0.gpt_low, ready.3) in
    let (bytes, copied, all) = bcopy_lem e2.room (e2.gpt - 1) string e2.beg room in
    rw copied (write_string string e e2 bytes v ready all)

-- In a valid buffer, insert of a text that is not empty puts it before point, leaves the buffer
-- valid, moves the end, the visible part, point and the markers behind by its length and records
-- it; or it signals with a reason and the buffer shows what it did. It ends in no fault.
pub insert_inserts :
    (host : Host) (string : List ℕ) (e : Editor)
    → IsValid e
    → 1 ≤ length string
    → Ends (λ _. Inserted string e) (NotDone host (length string) e) (insert host string e)
unfolding insert record_insert
insert_inserts host string e v h =
    let n = length string in
    let P : Unit {0} → Editor → Type 0 = λ _. Inserted string e in
    let Q = NotDone host n e in
    elim (Bool-cases (ltb (n + e.z) (2 ^ 54))) [
      | inr large ↦
          rw (nonempty, same_int-xint (n + e.z), large) (v, SameBuffer-refl e, ground arith)
      | inl fits ↦
          rw (nonempty, same_int-xint (n + e.z), fits)
            (Ends-bind (λ _ e'. e' ≡ e) P Q (prepare_to_modify_buffer host e) _
              (prepare_lem host n e v)
              λ _ e0 same. rw same (
                Ends-bind (AtPoint e) P Q (when (not (e.pt == e.gpt)) (move_gap e.pt) e) _
                  (move_to_point host n e v)
                  λ _ e1 at.
                    Ends-bind (Ready n e) P Q
                      (when (ltb e1.gap_size n) (make_gap host (n - e1.gap_size)) e1) _
                      (make_room host n e e1 at)
                      λ _ e2 ready. store-Ready host string e e2 v ready))
    ]
  where
    nonempty : ltb (length string) 1 ≡ false
    nonempty = ground arith
