-- ===== src/Editor.antt =====
-- The state of the editing core: `struct buffer` of the current buffer (buffer.h), the marker
-- objects, the globals of redisplay and of quitting, and the result of a C function that may
-- leave by `Fsignal`.
pub mod View
use holomacs.Prelude.{
  ℕ, ◌+◌, ◌-◌, ◌<◌, ◌≡◌, Bool, true, false, not, ◌&&◌, ◌||◌, Option, none, some, List, [], ◌∷◌, ltb,
  leb, ◌==◌, if◌then◌else◌, ℤ,
}

-- An element of `buffer-undo-list`.
pub data UndoEntry : Type 0 where
  boundary : UndoEntry
  insertion : (first end : ℕ) → UndoEntry
  deletion : (text : List ℕ) → (at : ℤ) → UndoEntry
  first_change : (high low : ℕ) → UndoEntry

-- `buffer-undo-list` is t where nothing is recorded.
pub data UndoList : Type 0 where
  disabled : UndoList
  entries : List UndoEntry → UndoList

-- The current buffer with its text, and the globals that editing reads and writes. `beg` gives
-- the byte at each offset from `text.beg`, of which `room` are allocated. `markers` is the chain
-- of marker objects, `bufpos` what each object holds. `arrivals` says for each poll to come
-- whether C-g has been typed since the one before.
pub record Editor : Type 0 where
  pub beg : ℕ → ℕ
  pub room : ℕ
  pub begv : ℕ
  pub pt : ℕ
  pub gpt : ℕ
  pub zv : ℕ
  pub z : ℕ
  pub gap_size : ℕ
  pub modiff : ℕ
  pub save_modified : ℕ
  pub auto_save_modified : ℕ
  pub modtime : ℕ
  pub visiting : Bool
  pub read_only : Bool
  pub markers : List ℕ
  pub bufpos : ℕ → ℕ
  pub undo_list : UndoList
  pub self : ℕ
  pub last_undo_buffer : ℕ
  pub unchanged_modified : ℕ
  pub beg_unchanged : ℕ
  pub end_unchanged : ℕ
  pub quit_flag : Bool
  pub inhibit_quit : Bool
  pub arrivals : List Bool

-- What `Fsignal` is called with.
pub data Signal : Type 0 where
  quit buffer_read_only file_supersession memory_full buffer_too_large : Signal
  args_out_of_range outside_visible beginning_of_buffer end_of_buffer : Signal

-- `fault` is an access outside the allocated bytes, an `abort`, or a loop out of rounds.
pub data Run (A : Type 0) : Type 0 where
  ok : A → Editor → Run A
  signal : Signal → Editor → Run A
  fault : Run A

abbrev pub Cmd : Type 0 → Type 0
Cmd A = Editor → Run A

module _ {A B : Type 0} where
  abbrev pub and_then : Run A → (A → Cmd B) → Run B
  and_then (ok a e) k = k a e
  and_then (signal s e) k = signal s e
  and_then fault k = fault

  infixl 5 ◌>>=◌ ◌>>◌
  abbrev pub ◌>>=◌ : Cmd A → (A → Cmd B) → Cmd B
  m >>= k = λ e. and_then (m e) k

  abbrev pub ◌>>◌ : Cmd A → Cmd B → Cmd B
  m >> n = m >>= λ _. n

abbrev pub pure : {A : Type 0} → A → Cmd A
pure = ok

abbrev pub skip : Cmd (Unit {0})
skip e = ok tt e

-- A change of the state that cannot fail.
abbrev pub modify : (Editor → Editor) → Cmd (Unit {0})
modify f e = ok tt (f e)

abbrev pub when : Bool → Cmd (Unit {0}) → Cmd (Unit {0})
when b m e = if b then m e else ok tt e

-- Whether C-g was typed before this poll, and what is left for the polls to come.
unfoldable pub typed : List Bool → Bool
typed [] = false
typed (b ∷ bs) = b

unfoldable pub later : List Bool → List Bool
later [] = []
later (b ∷ bs) = bs

abbrev pub poll : Editor → Editor
poll e = record e { quit_flag = e.quit_flag || typed e.arrivals; arrivals = later e.arrivals }

-- QUITP
abbrev pub quitp : Editor → Bool
quitp e = e.quit_flag && not e.inhibit_quit

-- QUIT
unfoldable pub check_quit : Cmd (Unit {0})
check_quit e =
    let e' = poll e in if quitp e' then signal quit (record e' { quit_flag = false }) else ok tt e'

-- `*addr` and `*addr = v` at an offset from `text.beg`.
abbrev pub peek : ℕ → (ℕ → ℕ) → ℕ → Option ℕ
peek room m a = if ltb a room then some (m a) else none

abbrev pub write : (ℕ → ℕ) → ℕ → ℕ → ℕ → ℕ
write m a v b = if a == b then v else m b

abbrev pub poke : ℕ → (ℕ → ℕ) → ℕ → ℕ → Option (ℕ → ℕ)
poke room m a v = if ltb a room then some (write m a v) else none

-- The offset of FETCH_CHAR (n) and BUF_CHAR_ADDRESS (buf, n).
abbrev pub char_address : Editor → ℕ → ℕ
char_address e n = (if leb e.gpt n then e.gap_size else 0) + n - 1

-- FETCH_CHAR (n)
abbrev pub char_at : Editor → ℕ → ℕ
char_at e n = e.beg (char_address e n)

-- What the editor asks of the C library and of the user: `realloc`, with the old and the new
-- size, and whether `ask-user-about-supersession-threat` lets a change go on.
pub record Host : Type 0 where
  pub realloc : (ℕ → ℕ) → ℕ → ℕ → Option (ℕ → ℕ)
  pub realloc_keeps :
      (m : ℕ → ℕ) (old new : ℕ) {m' : ℕ → ℕ}
      → realloc m old new ≡ some m'
      → (a : ℕ) → a < old
      → a < new
      → m' a ≡ m a
  pub may_modify : Editor → Bool
