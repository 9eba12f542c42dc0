-- ===== src/Editfns/Edit.antt =====
-- editfns.c: the Lisp functions that insert and delete.
pub mod Erase
use holomacs.Prelude.{
  ℕ, zero, suc, ◌+◌, ◌-◌, ◌%◌, List, [], ◌∷◌, ltb, leb, if◌then◌else◌, length, replicate,
}
use holomacs.Editor.{Run, ok, fault, Cmd, and_then, ◌>>=◌, ◌>>◌, Host}
use holomacs.Editfns.{validate_region, widen}
use holomacs.Insdel.{
  insert, insert_from_string, insert_before_markers, insert_from_string_before_markers, del_range,
}

-- An argument of `insert`: a number or a string.
pub data InsertArg : Type 0 where
  char : ℕ → InsertArg
  string : List ℕ → InsertArg

module _ (host : Host) where
  unfoldable pub finsert : List InsertArg → Cmd (Unit {0})
  finsert [] e = ok tt e
  finsert (char c ∷ args) e = and_then (insert host (c % 256 ∷ []) e) (λ _. finsert args)
  finsert (string s ∷ args) e =
      and_then (insert_from_string host s 0 (length s) e) (λ _. finsert args)

  unfoldable pub finsert_before_markers : List InsertArg → Cmd (Unit {0})
  finsert_before_markers [] e = ok tt e
  finsert_before_markers (char c ∷ args) e =
      and_then (insert_before_markers host (c % 256 ∷ []) e) (λ _. finsert_before_markers args)
  finsert_before_markers (string s ∷ args) e =
      and_then (insert_from_string_before_markers host s 0 (length s) e)
        (λ _. finsert_before_markers args)

  -- The loop of Finsert_char over chunks of `size` characters.
  unfoldable pub insert_chunks : (rounds c size n : ℕ) → Cmd (Unit {0})
  insert_chunks zero c size n e = fault
  insert_chunks (suc k) c size n e =
      let more =
        and_then (insert host (replicate size c) e) (λ _. insert_chunks k c size (n - size)) in
      if leb size n then more else if ltb 0 n then insert host (replicate n c) e else ok tt e

  -- `n` copies of a character. The size of a chunk is the larger of `n` and 256, so at most one
  -- is full.
  unfoldable pub finsert_char : (c n : ℕ) → Cmd (Unit {0})
  unfolding insert_chunks
  finsert_char c n e =
      let size = if ltb n 256 then 256 else n in
      if ltb 0 n then insert_chunks (n + 1) (c % 256) size n e else ok tt e

  unfoldable pub delete_region : (b f : ℕ) → Cmd (Unit {0})
  delete_region b f = do (first, end) ← validate_region b f; del_range host first end

  unfoldable pub erase_buffer : Cmd (Unit {0})
  unfolding widen
  erase_buffer e = del_range host 1 (widen e).z (widen e)
