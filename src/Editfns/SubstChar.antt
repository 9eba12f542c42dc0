-- ===== src/Editfns/SubstChar.antt =====
-- editfns.c: subst-char-in-region, which replaces one character by another in a region.
pub mod Replace
use holomacs.Prelude.{
  ℕ, zero, suc, ◌+◌, ◌-◌, ◌%◌, ◌≤◌, ◌<◌, ◌≡◌, ◌≢◌, refl, ◌∙◌, sym, ap, ◌⊎◌, inl, inr, Bool, true,
  false, not, none, some, List, [], ◌∷◌, arith, ltb, leb, ◌==◌, if◌then◌else◌, Bool-cases,
}
use holomacs.Editor.{
  Editor, Run, ok, fault, Cmd, and_then, ◌>>=◌, ◌>>◌, char_address, char_at, peek, poke, write,
  modify, when, skip, Host,
}
use holomacs.Editfns.{validate_region}
use holomacs.UndoList.{record_change}
use holomacs.Insdel.{modify_region}

-- `FETCH_CHAR (pos) = c`
unfoldable pub store_char : (position c : ℕ) → Cmd (Unit {0})
store_char p c e = elim (poke e.room e.beg (char_address e p) c) [
  | none ↦ fault
  | some m ↦ ok tt (record e { beg = m })
]

-- The loop over `n` characters from `position` on.
unfoldable pub subst_loop : (noundo : Bool) → (look tochar : ℕ) → (n position : ℕ) → Cmd (Unit {0})
unfolding store_char
subst_loop noundo look tochar zero p e = ok tt e
subst_loop noundo look tochar (suc n) p e = elim (peek e.room e.beg (char_address e p)) [
  | none ↦ fault
  | some c ↦
      let replaced = and_then (when (not noundo) (record_change p 1) e) (λ _ e'.
        and_then (store_char p (tochar % 256) e') (λ _. subst_loop noundo look tochar n (p + 1))) in
      let kept = subst_loop noundo look tochar n (p + 1) e in if c == look then replaced else kept
]

-- Without undo, the change does not count as one.
unfoldable pub uncount : Editor → Editor
uncount e = record e {
  save_modified = if e.modiff - 1 == e.save_modified then e.save_modified + 1 else e.save_modified;
  auto_save_modified =
      if e.modiff - 1 == e.auto_save_modified
      then e.auto_save_modified + 1
      else e.auto_save_modified;
}

module _ (host : Host) where
  unfoldable pub subst_char_in_region :
      (start end fromchar tochar : ℕ) → (noundo : Bool) → Cmd (Unit {0})
  unfolding subst_loop uncount
  subst_char_in_region start end fromchar tochar noundo = do
    (first, stop) ← validate_region start end
    modify_region host first stop
    λ e. when noundo (modify uncount) e
    subst_loop noundo fromchar tochar (stop - first) first
