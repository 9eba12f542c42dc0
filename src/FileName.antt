-- ===== src/FileName.antt =====
-- fileio.c: the functions on file names that look at nothing but the name, in Unix syntax. A name is
-- its bytes; C strings end at a byte 0.
pub mod Parts
pub mod Directory
use holomacs.Prelude.{
  ℕ, zero, suc, ◌+◌, ◌-◌, Bool, true, false, ◌&&◌, Option, none, some, List, [], ◌∷◌, ◌++◌, ltb,
  ◌==◌, if◌then◌else◌, length, get_or, take, drop,
}

abbrev pub slash : ℕ
slash = b'/'

-- `while (p != beg && p[-1] != '/') p--;`
unfoldable pub behind_slash : (p : ℕ) → (beg : List ℕ) → ℕ
behind_slash zero beg = 0
behind_slash (suc p) beg = if get_or beg p 0 == slash then suc p else behind_slash p beg

-- `none` is nil.
unfoldable pub file_name_directory : List ℕ → Option (List ℕ)
unfolding behind_slash
file_name_directory file =
    let p = behind_slash (length file) file in if p == 0 then none else some (take p file)

unfoldable pub file_name_nondirectory : List ℕ → List ℕ
unfolding behind_slash
file_name_nondirectory file = drop (behind_slash (length file) file) file

-- What strcpy and build_string see of a string.
abbrev pub c_string : List ℕ → List ℕ
c_string [] = []
c_string (c ∷ s) = if c == 0 then [] else c ∷ c_string s

-- file_name_as_directory on a C string; of an empty one it reads the byte before it, which is `none`.
unfoldable pub append_slash : List ℕ → Option (List ℕ)
append_slash [] = none
append_slash (c ∷ s) =
    if get_or (c ∷ s) (length s) 0 == slash then some (c ∷ s) else some (c ∷ s ++ slash ∷ [])

unfoldable pub file_name_as_directory : List ℕ → Option (List ℕ)
unfolding append_slash
file_name_as_directory file = append_slash (c_string file)

-- directory_file_name on a C string.
unfoldable pub remove_slash : List ℕ → List ℕ
remove_slash src =
    let slen = length src - 1 in
    if ltb 0 slen && get_or src slen 0 == slash then take slen src else src

unfoldable pub directory_file_name : List ℕ → List ℕ
unfolding remove_slash
directory_file_name directory = remove_slash (c_string directory)
