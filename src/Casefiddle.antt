-- ===== src/Casefiddle.antt =====
-- casefiddle.c: upper case, lower case and capitals, for characters, strings and regions. The tables
-- of the current buffer and of the syntax are parameters, functions on character codes.
pub mod Region
use holomacs.Prelude.{
  ℕ, zero, suc, ◌+◌, ◌-◌, ◌≡◌, Bool, true, false, not, ◌&&◌, ◌||◌, Option, none, some, List, [],
  ◌∷◌, leb, ltb, ◌==◌, if◌then◌else◌, ℤ, pos, negsuc,
}
use holomacs.Editor.{
  Editor, Run, ok, fault, Cmd, and_then, ◌>>=◌, ◌>>◌, char_address, peek, poke, modify, Host,
}
use holomacs.Editfns.{validate_region}
use holomacs.UndoList.{record_change}
use holomacs.Insdel.{prepare_to_modify_buffer, modify_region}

-- `enum case_action`
pub data CaseAction : Type 0 where
  case_up case_down case_capitalize case_capitalize_up : CaseAction

-- The tables that the case functions look a character up in, which lread and syntax fill.
pub record CaseTables : Type 0 where
  pub downcase : ℕ → ℕ
  pub upcase1 : ℕ → ℕ
  pub is_word : ℕ → Bool

-- UPPERCASEP
abbrev pub uppercasep : CaseTables → ℕ → Bool
uppercasep t c = not (t.downcase c == c)

abbrev pub starts_inword : CaseAction → Bool
starts_inword case_down = true
starts_inword flag = false

abbrev pub follows_words : CaseAction → Bool
follows_words case_up = false
follows_words case_down = false
follows_words flag = true

abbrev pub capitalizes : CaseAction → Bool
capitalizes case_capitalize = true
capitalizes flag = false

abbrev pub only_initials : CaseAction → Bool
only_initials case_capitalize_up = true
only_initials flag = false

-- One character of casify_object.
unfoldable pub casify_char : CaseTables → (inword : Bool) → ℕ → ℕ
casify_char t inword c = if inword then t.downcase c else if uppercasep t c then c else t.upcase1 c

-- The loop of casify_object over a string.
unfoldable pub casify_chars : CaseTables → CaseAction → (inword : Bool) → List ℕ → List ℕ
unfolding casify_char
casify_chars t flag inword [] = []
casify_chars t flag inword (c ∷ cs) =
    let c' = casify_char t inword c in
    c' ∷ casify_chars t flag (if capitalizes flag then t.is_word c' else inword) cs

-- An argument of `upcase`: a character or a string.
pub data CaseArg : Type 0 where
  code : ℤ → CaseArg
  text : List ℕ → CaseArg

-- A number is looked up where it is from 0 to 256.
unfoldable pub casify_object : CaseTables → CaseAction → CaseArg → CaseArg
unfolding casify_chars
casify_object t flag (text s) = text (casify_chars t flag (starts_inword flag) s)
casify_object t flag (code (negsuc n)) = code (negsuc n)
casify_object t flag (code (pos c)) =
    if leb c 256 then code (pos (casify_char t (starts_inword flag) c)) else code (pos c)

unfoldable pub fupcase : CaseTables → CaseArg → CaseArg
unfolding casify_object
fupcase t = casify_object t case_up

unfoldable pub fdowncase : CaseTables → CaseArg → CaseArg
unfolding casify_object
fdowncase t = casify_object t case_down

unfoldable pub fcapitalize : CaseTables → CaseArg → CaseArg
unfolding casify_object
fcapitalize t = casify_object t case_capitalize

-- One character of casify_region.
unfoldable pub region_char : CaseTables → CaseAction → (inword : Bool) → ℕ → ℕ
region_char t flag inword c =
    if inword && not (only_initials flag)
    then t.downcase c
    else if not (uppercasep t c) && (not inword || not (only_initials flag))
    then t.upcase1 c
    else c

-- The loop of casify_region: `n` characters from position `i` on.
unfoldable pub region_loop : CaseTables → CaseAction → (inword : Bool) → (n i : ℕ) → Cmd (Unit {0})
unfolding region_char
region_loop t flag inword zero i e = ok tt e
region_loop t flag inword (suc n) i e = elim (peek e.room e.beg (char_address e i)) [
  | none ↦ fault
  | some c ↦
      let c' = region_char t flag inword c in
      elim (poke e.room e.beg (char_address e i) c') [
        | none ↦ fault
        | some m ↦
            region_loop t flag (if follows_words flag then t.is_word c' else inword) n (i + 1)
              (record e { beg = m })
      ]
]

module _ (host : Host) (t : CaseTables) where
  unfoldable pub casify_region : CaseAction → (b e : ℕ) → Cmd (Unit {0})
  unfolding region_loop
  casify_region flag b e = do
    (first, end) ← validate_region b e
    prepare_to_modify_buffer host
    record_change first (end - first)
    region_loop t flag (starts_inword flag) (end - first) first
    modify_region host first end

  abbrev pub upcase_region : (b e : ℕ) → Cmd (Unit {0})
  upcase_region = casify_region case_up

  abbrev pub downcase_region : (b e : ℕ) → Cmd (Unit {0})
  downcase_region = casify_region case_down

  abbrev pub capitalize_region : (b e : ℕ) → Cmd (Unit {0})
  capitalize_region = casify_region case_capitalize

  abbrev pub upcase_initials_region : (b e : ℕ) → Cmd (Unit {0})
  upcase_initials_region = casify_region case_capitalize_up
