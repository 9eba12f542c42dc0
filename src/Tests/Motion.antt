-- ===== src/Tests/Motion.antt =====
-- The theorems on searches, commands and file names, at a buffer of two lines and a file name.
use holomacs.Prelude.{
  ℕ, ◌≤◌, ◌≡◌, refl, arith, true, false, none, some, [], ◌∷◌, pos, negsuc, ◌-ℤ◌, ◌+ℤ◌, get_or, ◌⊎◌,
}
use holomacs.Editor.{Editor, ok, char_at}
use holomacs.Editor.View.{Ends}
use holomacs.Editfns.{newline, bolp, eolp}
use holomacs.Insdel.Delete.Record.{NotDeleted}
use holomacs.Insdel.Delete.Close.{Deleted}
use holomacs.Search.{scan_buffer, buffer_ceiling_of, buffer_floor_of}
use holomacs.Search.Scan.Macros.{buffer_ceiling_of-IsCeiling, buffer_floor_of-IsFloor}
use holomacs.Search.SkipChars.{FastMap, fastmap, skip_chars}
use holomacs.Search.SkipChars.Motion.{IsRun, skip_chars_lem}
use holomacs.Cmds.{beginning_of_line, end_of_line, delete_char}
use holomacs.Cmds.Lines.Look.{Scannable}
use holomacs.Cmds.PointLine.{Without, line_lem}
use holomacs.Cmds.Chars.{TooFar, delete_char_lem}
use holomacs.FileName.{file_name_directory, file_name_nondirectory}
use holomacs.FileName.Parts.{join_then_split}
use holomacs.Tests.{hello, willing, hello-IsValid}

-- "ab\ncd" with a gap of two bytes in the first line and point in the second.
abbrev lines : Editor
lines = record hello {
  beg = λ a. get_or (97 ∷ 0 ∷ 0 ∷ 98 ∷ 10 ∷ 99 ∷ 100 ∷ []) a 0;
  room = 7;
  pt = 5;
  gpt = 2;
  gap_size = 2;
  zv = 6;
  z = 6;
}

lines-Scannable : Scannable buffer_ceiling_of buffer_floor_of lines
lines-Scannable = (
  buffer_ceiling_of-IsCeiling lines (omega arith),
  buffer_floor_of-IsFloor lines (omega arith),
  omega arith,
  omega arith,
  omega arith,
)

scan_run : scan_buffer buffer_ceiling_of buffer_floor_of 10 1 (pos 1) lines ≡ ok (4, pos 0) lines
unfolding scan_buffer ◌-ℤ◌
scan_run = refl

scan_back_run :
    scan_buffer buffer_ceiling_of buffer_floor_of 97 6 (negsuc 1) lines ≡ ok (1, pos 1) lines
unfolding scan_buffer ◌-ℤ◌ ◌+ℤ◌
scan_back_run = refl

line_lem_example :
    (b : ℕ) × (x : ℕ) × (beginning_of_line buffer_ceiling_of buffer_floor_of none lines
      ≡ ok tt (record lines { pt = b }))
    × (end_of_line buffer_ceiling_of buffer_floor_of none lines ≡ ok tt (record lines { pt = x }))
    × (1 ≤ b)
    × (b ≤ 5)
    × (5 ≤ x)
    × (x ≤ 6)
    × (bolp (record lines { pt = b }) ≡ true)
    × (eolp (record lines { pt = x }) ≡ true)
    × Without (char_at lines) newline b x
line_lem_example = line_lem buffer_ceiling_of buffer_floor_of lines lines-Scannable

delete_char_lem_example :
    Ends
      (λ _ e'. Deleted 1 3 hello e')
      (λ s e'. (TooFar hello (negsuc 1) s × (e' ≡ hello)) ⊎ NotDeleted willing hello s e')
      (delete_char willing (λ n e. ok tt e) (negsuc 1) false hello)
delete_char_lem_example =
    delete_char_lem willing (λ n e. ok tt e) hello (negsuc 1) hello-IsValid refl

skip_chars_lem_example :
    (f : FastMap) × (p : ℕ) × (fastmap (b'a' ∷ b'-' ∷ b'k' ∷ []) ≡ some f)
    × (skip_chars true (b'a' ∷ b'-' ∷ b'k' ∷ []) none hello ≡ ok tt (record hello { pt = p }))
    × IsRun f hello 3 6 p
skip_chars_lem_example =
    skip_chars_lem hello true (b'a' ∷ b'-' ∷ b'k' ∷ []) none
      (omega arith, (omega arith, (omega arith, tt)))

-- A set of the characters other than `o`, from point to the end.
skip_run : skip_chars true (b'^' ∷ b'o' ∷ []) none hello ≡ ok tt (record hello { pt = 5 })
unfolding skip_chars
skip_run = refl

-- "/a/" and "b"
join_then_split_example :
    (file_name_directory (b'/' ∷ b'a' ∷ b'/' ∷ b'b' ∷ []) ≡ some (b'/' ∷ b'a' ∷ b'/' ∷ []))
    × (file_name_nondirectory (b'/' ∷ b'a' ∷ b'/' ∷ b'b' ∷ []) ≡ b'b' ∷ [])
join_then_split_example = join_then_split (b'/' ∷ b'a' ∷ b'/' ∷ []) (b'b' ∷ []) refl refl
