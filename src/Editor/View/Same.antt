-- ===== src/Editor/View/Same.antt =====
-- Composition of what a buffer keeps, and what of it can be seen.
use holomacs.Prelude.{◌≡◌, has, refl, arith, ◌∙◌, ap}
use holomacs.Editor.{Editor}
use holomacs.Editor.View.{IsValid, SameFields, SameText, SameMarks, SameBuffer, moved-SameFields}

pub SameFields-trans : {e f g : Editor} → SameFields e f → SameFields f g → SameFields e g
SameFields-trans s t = record {
  z = t.z ∙ s.z;
  begv = t.begv ∙ s.begv;
  zv = t.zv ∙ s.zv;
  pt = t.pt ∙ s.pt;
  modiff = t.modiff ∙ s.modiff;
  save_modified = t.save_modified ∙ s.save_modified;
  modtime = t.modtime ∙ s.modtime;
  markers = t.markers ∙ s.markers;
  undo_list = t.undo_list ∙ s.undo_list;
  read_only = t.read_only ∙ s.read_only;
  inhibit_quit = t.inhibit_quit ∙ s.inhibit_quit;
  self = t.self ∙ s.self;
  last_undo_buffer = t.last_undo_buffer ∙ s.last_undo_buffer;
}

pub SameBuffer-trans : {e f g : Editor} → SameBuffer e f → SameBuffer f g → SameBuffer e g
SameBuffer-trans {e} {f} s t = record {
  fields = SameFields-trans s.fields t.fields;
  text = λ n h1 h2. t.text n h1 (omega (arith, s.fields.z)) ∙ s.text n h1 h2;
  marks = λ m i. t.marks m (ap (has m) s.fields.markers ∙ i) ∙ s.marks m i;
}

pub SameBuffer-refl : (e : Editor) → SameBuffer e e
SameBuffer-refl e = record {
  fields =
      moved-SameFields e.beg e.bufpos e.gpt e.beg_unchanged e.end_unchanged e.quit_flag e.arrivals
        e;
  text = λ n h1 h2. refl;
  marks = λ m i. refl;
}

-- What can be seen of a buffer, its undo list left aside.
pub record Shown (e e' : Editor) : Type 0 where
  pub valid : IsValid e'
  pub z : e'.z ≡ e.z
  pub begv : e'.begv ≡ e.begv
  pub zv : e'.zv ≡ e.zv
  pub pt : e'.pt ≡ e.pt
  pub modiff : e'.modiff ≡ e.modiff
  pub save_modified : e'.save_modified ≡ e.save_modified
  pub modtime : e'.modtime ≡ e.modtime
  pub self : e'.self ≡ e.self
  pub markers : e'.markers ≡ e.markers
  pub text : SameText e e'
  pub marks : SameMarks e e'

pub Shown-of : {e e' : Editor} → IsValid e' → SameBuffer e e' → Shown e e'
Shown-of v s = record {
  valid = v;
  z = s.fields.z;
  begv = s.fields.begv;
  zv = s.fields.zv;
  pt = s.fields.pt;
  modiff = s.fields.modiff;
  save_modified = s.fields.save_modified;
  modtime = s.fields.modtime;
  self = s.fields.self;
  markers = s.fields.markers;
  text = s.text;
  marks = s.marks;
}

pub Shown-after : {e f g : Editor} → SameBuffer e f → Shown f g → Shown e g
Shown-after s t = record {
  valid = t.valid;
  z = t.z ∙ s.fields.z;
  begv = t.begv ∙ s.fields.begv;
  zv = t.zv ∙ s.fields.zv;
  pt = t.pt ∙ s.fields.pt;
  modiff = t.modiff ∙ s.fields.modiff;
  save_modified = t.save_modified ∙ s.fields.save_modified;
  modtime = t.modtime ∙ s.fields.modtime;
  self = t.self ∙ s.fields.self;
  markers = t.markers ∙ s.fields.markers;
  text = λ n h1 h2. t.text n h1 (omega (arith, s.fields.z)) ∙ s.text n h1 h2;
  marks = λ m i. t.marks m (ap (has m) s.fields.markers ∙ i) ∙ s.marks m i;
}
