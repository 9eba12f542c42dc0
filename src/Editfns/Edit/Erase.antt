-- ===== src/Editfns/Edit/Erase.antt =====
-- What erase-buffer leaves of a buffer.
use holomacs.Prelude.{◌<◌, ◌≡◌, arith}
use holomacs.Editor.{Editor, Host}
use holomacs.Editor.View.{IsValid, Ends, Ends-mono}
use holomacs.Editfns.{widen}
use holomacs.Editfns.Edit.{erase_buffer}
use holomacs.Insdel.{del_range, clip_low, clip_high}
use holomacs.Insdel.Delete.{del_range_deletes}
use holomacs.Insdel.Delete.Close.{Deleted}
use holomacs.Insdel.Delete.Record.{NotDeleted}

widen-IsValid : {e : Editor} → IsValid e → IsValid (widen e)
unfolding widen
widen-IsValid {e} v = record {
  begv_low = omega arith;
  pt_low = omega (arith, v.begv_low, v.pt_low);
  pt_high = omega (arith, v.pt_high, v.zv_high);
  zv_high = omega arith;
  gpt_low = v.gpt_low;
  gpt_high = v.gpt_high;
  allocated = v.allocated;
  chain = v.chain;
  placed = v.placed;
}

-- A valid buffer that is empty, with all of it visible.
abbrev pub Empty : Editor → Type 0
Empty e = IsValid e × (e.z ≡ 1) × (e.begv ≡ 1) × (e.zv ≡ 1) × (e.pt ≡ 1)

emptied : (e e' : Editor) → IsValid e → Deleted 1 e.z (widen e) e' → Empty e'
unfolding widen
emptied e e' v d = (
  d.valid,
  omega (arith, d.z, v.gpt_low, v.gpt_high),
  d.begv,
  omega (arith, d.zv, v.gpt_low, v.gpt_high),
  omega
      (arith, d.begv, d.z, d.valid.pt_low, d.valid.pt_high, d.valid.zv_high, v.gpt_low, v.gpt_high),
)

-- In a valid buffer that has text, erase_buffer leaves the buffer valid and empty, all of it
-- visible, or it signals and the buffer shows what it did but for the visible part, which is the
-- whole.
erase_buffer_erases :
    (host : Host) (e : Editor)
    → IsValid e
    → 1 < e.z
    → Ends (λ _. Empty) (NotDeleted host (widen e)) (erase_buffer host e)
unfolding erase_buffer widen
erase_buffer_erases host e v h =
    let c1 : clip_low (widen e) 1 ≡ 1 = ground arith in
    let c2 : clip_high (widen e) e.z ≡ e.z = ground arith in
    Ends-mono (λ _. Deleted 1 e.z (widen e)) (λ _. Empty) (NotDeleted host (widen e))
      (NotDeleted host (widen e)) (del_range host 1 e.z (widen e))
      (rw (c1, c2) at (del_range_deletes host 1 e.z (widen e) (widen-IsValid v) (ground arith)))
      (λ _ e' d. emptied e e' v d) (λ _ _ n. n)
