-- ===== src/FileMode.antt =====
-- filemode.c: the string of ten characters that describes the mode of a file.
use holomacs.Prelude.{ℕ, ◌+◌, ◌*◌, ◌/◌, ◌%◌, ◌≡◌, Bool, not, ◌||◌, ◌==◌, if◌then◌else◌, arith}
use holomacs.Editor.{write}

-- The masks that the system's headers define, each a power of two, and its codes of file types.
pub record ModeBits : Type 0 where
  pub s_iread : ℕ
  pub s_iwrite : ℕ
  pub s_iexec : ℕ
  pub s_isuid : ℕ
  pub s_isgid : ℕ
  pub s_isvtx : ℕ
  pub s_ifdir : ℕ
  pub s_iflnk : ℕ
  pub s_ifchr : ℕ
  pub s_ifblk : ℕ
  pub s_ifsock : ℕ
  pub s_ififo : ℕ

-- `bits & mask` of a power of two, as a test.
abbrev pub is_set : (bits mask : ℕ) → Bool
is_set bits mask = (bits / mask) % 2 == 1

module _ (k : ModeBits) where
  -- The mask S_IFMT is 0170000.
  unfoldable pub ftypelet : (st_mode : ℕ) → ℕ
  ftypelet mode =
      let format = mode / 4096 % 16 * 4096 in
      if format == k.s_ifdir
      then 100
      else if format == k.s_iflnk
      then 108
      else if format == k.s_ifchr
      then 99
      else if format == k.s_ifblk
      then 98
      else if format == k.s_ifsock
      then 115
      else if format == k.s_ififo
      then 112
      else 45

  -- The three characters from `at` on.
  unfoldable pub rwx : (bits at : ℕ) → (ℕ → ℕ) → ℕ → ℕ
  rwx bits at chars =
      write
        (write (write chars at (if is_set bits k.s_iread then 114 else 45)) (at + 1)
          (if is_set bits k.s_iwrite then 119 else 45))
        (at + 2) (if is_set bits k.s_iexec then 120 else 45)

  -- The s or S of one place.
  abbrev pub mark_set : (at : ℕ) → Bool → (ℕ → ℕ) → ℕ → ℕ
  mark_set at set chars =
      if set
      then (if not (chars at == 120) then write chars at 83 else write chars at 115)
      else chars

  unfoldable pub setst : (bits : ℕ) → (ℕ → ℕ) → ℕ → ℕ
  setst bits chars =
      let owner = mark_set 3 (is_set bits k.s_isuid) chars in
      let group = mark_set 6 (is_set bits k.s_isgid) owner in
      if is_set bits k.s_isvtx then write group 9 116 else group

  unfoldable pub filemodestring : (st_mode : ℕ) → (ℕ → ℕ) → ℕ → ℕ
  unfolding ftypelet rwx setst
  filemodestring mode a =
      let typed = write a 0 (ftypelet mode) in
      let owner = rwx (mode / 64 % 8 * 64) 1 typed in
      let group = rwx (mode / 8 % 8 * 64) 4 owner in setst mode (rwx (mode % 8 * 64) 7 group)

  -- The string that `filemodestring` writes gives back the mode: the file's type, for the owner and the
  -- group whether they may read, write and execute, the latter also where the set-id mark has taken
  -- its place, the set-id bits themselves, whether any user may read or write, and the sticky bit.
  pub filemodestring_lem :
      (mode : ℕ) (a : ℕ → ℕ)
      → let s = filemodestring mode a in
        (s 0 ≡ ftypelet mode)
        × ((s 1 == 114) ≡ is_set (mode / 64 % 8 * 64) k.s_iread)
        × ((s 2 == 119) ≡ is_set (mode / 64 % 8 * 64) k.s_iwrite)
        × (((s 3 == 120) || (s 3 == 115)) ≡ is_set (mode / 64 % 8 * 64) k.s_iexec)
        × (((s 3 == 83) || (s 3 == 115)) ≡ is_set mode k.s_isuid)
        × ((s 4 == 114) ≡ is_set (mode / 8 % 8 * 64) k.s_iread)
        × ((s 5 == 119) ≡ is_set (mode / 8 % 8 * 64) k.s_iwrite)
        × (((s 6 == 120) || (s 6 == 115)) ≡ is_set (mode / 8 % 8 * 64) k.s_iexec)
        × (((s 6 == 83) || (s 6 == 115)) ≡ is_set mode k.s_isgid)
        × ((s 7 == 114) ≡ is_set (mode % 8 * 64) k.s_iread)
        × ((s 8 == 119) ≡ is_set (mode % 8 * 64) k.s_iwrite)
        × ((s 9 == 116) ≡ is_set mode k.s_isvtx)
  unfolding filemodestring rwx setst
  filemodestring_lem mode a = (
    ground arith,
    ground arith,
    ground arith,
    ground arith,
    ground arith,
    ground arith,
    ground arith,
    ground arith,
    ground arith,
    ground arith,
    ground arith,
    ground arith,
  )
