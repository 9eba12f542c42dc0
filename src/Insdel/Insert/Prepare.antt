-- ===== src/Insdel/Insert/Prepare.antt =====
-- insert up to the point where the gap is at point and large enough.
use holomacs.Prelude.{
  ℕ, ◌+◌, ◌-◌, ◌^◌, ◌≤◌, ◌≡◌, refl, sym, ◌∙◌, inl, inr, true, false, not, ◌&&◌, arith, ltb, leb,
  ◌==◌, Bool-cases,
}
use holomacs.Editor.{
  Editor, Signal, quit, buffer_read_only, file_supersession, memory_full, buffer_too_large,
  args_out_of_range, outside_visible, beginning_of_buffer, end_of_buffer, when, Host,
}
use holomacs.Editor.View.{IsValid, SameBuffer, Ends, Ends-mono, Arrived, Stopped}
use holomacs.Editor.View.Same.{SameBuffer-refl, SameBuffer-trans}
use holomacs.Gap.{move_gap, make_gap}
use holomacs.Gap.Move.{move_gap_keeps}
use holomacs.Gap.Grow.{Grown, make_gap_grows}
use holomacs.Insdel.{prepare_to_modify_buffer}

-- Why an insertion was refused.
abbrev pub Refused : Host → ℕ → Editor → Signal → Type 0
Refused host n e quit = e.inhibit_quit ≡ false
Refused host n e buffer_read_only = e.read_only ≡ true
Refused host n e file_supersession = e.modiff ≤ e.save_modified
Refused host n e memory_full = Unit {0}
Refused host n e buffer_too_large = 2 ^ 54 ≤ n + e.z
Refused host n e args_out_of_range = ⊥
Refused host n e outside_visible = ⊥
Refused host n e beginning_of_buffer = ⊥
Refused host n e end_of_buffer = ⊥

pub Refused-same :
    (host : Host) (n : ℕ) {e e' : Editor} (s : Signal)
    → SameBuffer e e'
    → Refused host n e' s
    → Refused host n e s
Refused-same host n quit b h = sym b.fields.inhibit_quit ∙ h
Refused-same host n buffer_read_only b h = sym b.fields.read_only ∙ h
Refused-same host n file_supersession b h = omega (arith, b.fields.modiff, b.fields.save_modified)
Refused-same host n memory_full b h = tt
Refused-same host n buffer_too_large b h = omega (arith, b.fields.z)
Refused-same host n args_out_of_range b h = h
Refused-same host n outside_visible b h = h
Refused-same host n beginning_of_buffer b h = h
Refused-same host n end_of_buffer b h = h

-- The buffer shows what it did, and there is a reason.
abbrev pub NotDone : Host → ℕ → Editor → Signal → Editor → Type 0
NotDone host n e s e' = IsValid e' × SameBuffer e e' × Refused host n e s

-- The buffer shows what it did, and the gap is at point.
abbrev pub AtPoint : Editor → Unit {0} → Editor → Type 0
AtPoint e _ e' = IsValid e' × SameBuffer e e' × (e'.gpt ≡ e.pt)

-- There is room for `n` characters too.
abbrev pub Ready : ℕ → Editor → Unit {0} → Editor → Type 0
Ready n e _ e' = IsValid e' × SameBuffer e e' × (e'.gpt ≡ e.pt) × (n ≤ e'.gap_size)

pub prepare_lem :
    (host : Host) (n : ℕ) (e : Editor)
    → IsValid e
    → Ends (λ _ e'. e' ≡ e) (NotDone host n e) (prepare_to_modify_buffer host e)
unfolding prepare_to_modify_buffer
prepare_lem host n e v = elim (Bool-cases e.read_only) [
  | inl h ↦ simp h (v, SameBuffer-refl e, refl)
  | inr h ↦
      elim (Bool-cases (e.visiting && leb e.modiff e.save_modified && not (host.may_modify e))) [
        | inl k ↦ simp (h, k) (v, SameBuffer-refl e, ground arith)
        | inr k ↦ simp (h, k)
      ]
]

pub move_to_point :
    (host : Host) (n : ℕ) (e : Editor)
    → IsValid e
    → Ends (AtPoint e) (NotDone host n e) (when (not (e.pt == e.gpt)) (move_gap e.pt) e)
move_to_point host n e v = elim (Bool-cases (not (e.pt == e.gpt))) [
  | inr h ↦ rw h (v, SameBuffer-refl e, ground arith)
  | inl h ↦ rw h (
      Ends-mono (Arrived 1 e.z e.pt e) (AtPoint e) (Stopped 1 e.z e) (NotDone host n e)
        (move_gap e.pt e)
        (move_gap_keeps e e.pt v (omega (arith, v.begv_low, v.pt_low))
          (omega (arith, v.pt_high, v.zv_high)))
        (λ _ e' k. (k.0.valid, k.0.same, k.1)) (λ s e' k. rw k.0 (k.1.valid, k.1.same, k.2)))
]

pub make_room :
    (host : Host) (n : ℕ) (e e1 : Editor)
    → AtPoint e tt e1
    → Ends
        (Ready n e)
        (NotDone host n e)
        (when (ltb e1.gap_size n) (make_gap host (n - e1.gap_size)) e1)
make_room host n e e1 h = elim (Bool-cases (ltb e1.gap_size n)) [
  | inr k ↦ rw k (h.0, h.1, h.2, ground arith)
  | inl k ↦ rw k (
      Ends-mono (λ _ e'. Grown (n - e1.gap_size + 2000) e1 e') (Ready n e)
        (λ s e'. (s ≡ memory_full) × (e' ≡ e1)) (NotDone host n e)
        (make_gap host (n - e1.gap_size) e1) (make_gap_grows host (n - e1.gap_size) e1 h.0)
        (λ _ e' g. (g.valid, SameBuffer-trans h.1 g.same, g.gpt ∙ h.2, omega (arith, g.gap_size)))
        (λ s e' g. rw (g.0, g.1) (h.0, h.1, tt)))
]
