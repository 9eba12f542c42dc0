-- ===== src/Tests/Others.antt =====
-- The theorems on the other parts at concrete inputs, and runs of the code.
use holomacs.Prelude.{
  ℕ, ◌+◌, ◌-◌, ◌*◌, ◌/◌, ◌%◌, ◌≤◌, ◌<◌, ◌≡◌, refl, ◌⊎◌, inl, inr, true, false, not, ◌||◌, none,
  some, List, [], ◌∷◌, arith, leb, ◌==◌, if◌then◌else◌, pos, has, take, Bool-cases,
}
use holomacs.Editor.{
  UndoEntry, boundary, insertion, deletion, first_change, UndoList, entries, Editor, Signal, quit,
  args_out_of_range, memory_full, Run, ok, signal, fault, Host, char_at,
}
use holomacs.Gap.{make_gap}
use holomacs.Editfns.SubstChar.{subst_loop}
use holomacs.Editfns.SubstChar.Replace.{replace, subst_loop_lem}
use holomacs.Prelude.{map, length}
use holomacs.Editfns.{
  buffer_substring, goto_char, save_restriction_restore, narrow_to_region, widen,
}
use holomacs.Strings.{string, string_equal, string_lessp, precedes, string_lessp-precedes}
use holomacs.Editfns.Substring.{substring}
use holomacs.UndoList.{record_delete}
use holomacs.Insdel.{insert, insert_before_markers, del_range, clip_low, clip_high, same_int, xint}
use holomacs.Marker.{World, done, unchain_marker}
use holomacs.Marker.Chains.{WellChained, unchain_marker_lem}
use holomacs.Truncate.{truncate_undo_list, Fits, IsCut, truncate_undo_list_lem}
use holomacs.Casefiddle.{case_capitalize, CaseTables, region_loop, casify_region}
use holomacs.Casefiddle.Region.{region_chars, region_loop_lem}
use holomacs.FileMode.{ModeBits, is_set, ftypelet, filemodestring, filemodestring_lem}
use holomacs.Tests.{hello, willing, hello-IsValid, word}

-- Two markers in one buffer.
abbrev pair : World
pair = record {
  buf = λ b.
      if b == 1
      then record {
        alive = true;
        begv = 1;
        zv = 6;
        z = 6;
        gpt = 3;
        gap_size = 3;
        markers = 7 ∷ 8 ∷ [];
      }
      else record { alive = true; begv = 1; zv = 1; z = 1; gpt = 1; gap_size = 0; markers = [] };
  obj = λ m.
      if (m == 7) || (m == 8)
      then record { buffer = some 1; bufpos = 2 }
      else record { buffer = none; bufpos = 0 };
  current = 1;
  unused = 9;
}

pair-WellChained : WellChained pair
pair-WellChained = record {
  attached = λ m b h. ground arith;
  chained = λ m b h. ground arith;
  once = λ b. elim (Bool-cases (b == 1)) [ inl i ↦ rw i (refl, (refl, tt)) | inr i ↦ rw i tt ];
  live = λ m b h. ground arith;
  gap = λ b. ground arith;
  visible = λ b. ground arith;
  placed = λ m b h. (ground arith, ground arith, ground arith);
}

unchain_marker_lem_example :
    (w' : World) × (unchain_marker 8 pair ≡ done tt w')
    × ((w'.obj 8).buffer ≡ none)
    × ((c : ℕ) → has 8 (w'.buf c).markers ≡ false)
    × ((a : ℕ) → a == 8 ≡ false → w'.obj a ≡ pair.obj a)
    × ((a c : ℕ) → a == 8 ≡ false → has a (w'.buf c).markers ≡ has a (pair.buf c).markers)
unchain_marker_lem_example = unchain_marker_lem pair 8 1 pair-WellChained refl

abbrev edits : List UndoEntry
edits = insertion 3 5 ∷ boundary ∷ deletion word (pos 2) ∷ boundary ∷ insertion 1 2 ∷ []

truncate_undo_list_lem_example :
    ((truncate_undo_list edits 8 20 ≡ edits) × Fits 8 20 edits (length edits))
    ⊎ ((b k : ℕ) × (truncate_undo_list edits 8 20 ≡ take k edits) × IsCut 8 20 edits b k)
truncate_undo_list_lem_example = truncate_undo_list_lem edits 8 20

abbrev ascii : CaseTables
ascii = record {
  downcase = λ c. if leb 65 c then (if leb c 90 then c + 32 else c) else c;
  upcase1 = λ c. if leb 97 c then (if leb c 122 then c - 32 else c) else c;
  is_word = λ c. leb 65 c;
}

region_loop_lem_example :
    (m : ℕ → ℕ) × (region_loop ascii case_capitalize false 3 2 hello
      ≡ ok tt (record hello { beg = m }))
    × (substring (record hello { beg = m }) 2 3
        ≡ region_chars ascii case_capitalize false (substring hello 2 3))
    × ((j : ℕ)
        → 1 ≤ j
        → (j < 2) ⊎ (2 + 3 ≤ j)
        → char_at (record hello { beg = m }) j ≡ char_at hello j)
region_loop_lem_example =
    region_loop_lem ascii case_capitalize false 3 2 hello hello-IsValid (omega arith) (omega arith)

abbrev linux : ModeBits
linux = record {
  s_iread = 256;
  s_iwrite = 128;
  s_iexec = 64;
  s_isuid = 2048;
  s_isgid = 1024;
  s_isvtx = 512;
  s_ifdir = 16384;
  s_iflnk = 40960;
  s_ifchr = 8192;
  s_ifblk = 24576;
  s_ifsock = 49152;
  s_ififo = 4096;
}

filemodestring_lem_example :
    let s = filemodestring linux 35309 (λ a. 0) in
    (s 0 ≡ ftypelet linux 35309)
    × ((s 1 == 114) ≡ is_set (35309 / 64 % 8 * 64) 256)
    × ((s 2 == 119) ≡ is_set (35309 / 64 % 8 * 64) 128)
    × (((s 3 == 120) || (s 3 == 115)) ≡ is_set (35309 / 64 % 8 * 64) 64)
    × (((s 3 == 83) || (s 3 == 115)) ≡ is_set 35309 2048)
    × ((s 4 == 114) ≡ is_set (35309 / 8 % 8 * 64) 256)
    × ((s 5 == 119) ≡ is_set (35309 / 8 % 8 * 64) 128)
    × (((s 6 == 120) || (s 6 == 115)) ≡ is_set (35309 / 8 % 8 * 64) 64)
    × (((s 6 == 83) || (s 6 == 115)) ≡ is_set 35309 1024)
    × ((s 7 == 114) ≡ is_set (35309 % 8 * 64) 256)
    × ((s 8 == 119) ≡ is_set (35309 % 8 * 64) 128)
    × ((s 9 == 116) ≡ is_set 35309 512)
filemodestring_lem_example = filemodestring_lem linux 35309 (λ a. 0)

string_lessp-precedes_example :
    (string_lessp (string word) (string (97 ∷ [])) ≡ some (precedes word (97 ∷ [])))
    × (string_lessp (string word) (string word) ≡ some false)
    × (string_equal (string word) (string (97 ∷ []))
        ≡ some (not (precedes word (97 ∷ []) || precedes (97 ∷ []) word)))
string_lessp-precedes_example = string_lessp-precedes word (97 ∷ [])

a_below_word : string_lessp (string (97 ∷ [])) (string word) ≡ some true
unfolding string_lessp
a_below_word = refl

word_below_b : string_lessp (string word) (string (98 ∷ [])) ≡ some true
unfolding string_lessp
word_below_b = refl

-- Runs of the code at fixed inputs.
unfoldable text_of : Run (Unit {0}) → List ℕ
text_of (ok r e) = substring e 1 (e.z - 1)
text_of (signal s e) = []
text_of fault = []

inserted_text :
    text_of (insert willing word hello) ≡ 104 ∷ 101 ∷ 97 ∷ 98 ∷ 99 ∷ 100 ∷ 108 ∷ 108 ∷ 111 ∷ []
unfolding text_of insert make_gap holomacs.Editor.typed holomacs.Editor.later
    holomacs.UndoList.record_insert
inserted_text = refl

deleted_text : text_of (del_range willing 2 5 hello) ≡ 104 ∷ 111 ∷ []
unfolding text_of del_range record_delete buffer_substring holomacs.Editor.typed
    holomacs.Editor.later
deleted_text = refl

capital_text :
    text_of (casify_region willing ascii case_capitalize 5 1 hello)
    ≡ 72 ∷ 101 ∷ 108 ∷ 108 ∷ 111 ∷ []
unfolding text_of casify_region holomacs.Editfns.validate_region
    holomacs.Insdel.prepare_to_modify_buffer holomacs.UndoList.record_change buffer_substring
    holomacs.Editor.typed holomacs.Editor.later holomacs.Insdel.modify_region
capital_text = refl

shortened : truncate_undo_list edits 8 60 ≡ insertion 3 5 ∷ []
unfolding truncate_undo_list
shortened = refl

subst_loop_lem_example :
    (m : ℕ → ℕ) × (subst_loop true 108 76 3 2 hello ≡ ok tt (record hello { beg = m }))
    × (substring (record hello { beg = m }) 2 3 ≡ map (replace 108 76) (substring hello 2 3))
    × ((j : ℕ)
        → 1 ≤ j
        → (j < 2) ⊎ (2 + 3 ≤ j)
        → char_at (record hello { beg = m }) j ≡ char_at hello j)
subst_loop_lem_example = subst_loop_lem 108 76 3 2 hello hello-IsValid (omega arith) (omega arith)
