-- ===== src/Lib.antt =====
-- Holomacs.
--
-- The editing core of the Emacs in emacs-archaeology/src: the gap buffer, insertion and deletion,
-- undo, markers, the visible part, the search for characters and the commands on characters and
-- lines; case conversion, the comparison of strings and the strings of file modes; of Lisp the lists
-- and their sorting, arrays, numbers, symbols with the values of their variables, dynamic binding
-- and the special forms; and the parts of file names.
--
-- A buffer is a block of bytes with a gap that moves to where text changes. Insertion and deletion
-- (insdel.c) move the gap, ask whether the buffer may change, record the change (undo.c), copy the
-- bytes and adjust point, the bounds of the visible part and the markers; the Lisp functions
-- (editfns.c, buffer.c) check their arguments and call them. primitive-undo reads what was recorded
-- and calls the same functions again. The commands (cmds.c) move point with scan_buffer (search.c)
-- and delete with del_range.
--
-- Lisp objects (lisp.h, data.c, fns.c) live in a store of their own, by address: cells, strings,
-- vectors and symbols. Its results are those of `Result`: a value, a signal or `endless`. The value
-- of a symbol may stand for a variable of C, for a field of the current buffer, or for cells that
-- symbol-value and set move from buffer to buffer. specbind (eval.c) saves a value on the binding
-- stack and calls set, unbind_to takes it back; the special forms call both, and the evaluator.
--
--   Prelude          lists, tests and integers that all files share
--   Editor           buffer.h, lisp.h: the record `Editor` of the current buffer's fields and the
--                    globals of redisplay and quitting, `Run`, the result of a C function that may
--                    signal, and `Host`, what is asked of the C library and the user
--   Editor/View      the text as seen by positions, the invariant `IsValid`, and `Ends`, a statement
--                    about every way a run can end; a `fault` satisfies no `Ends`
--   Gap              insdel.c: adjust_markers, gap_left, gap_right, move_gap, make_gap
--   Insdel           insdel.c: insert, insert_char, insert_from_string, insert_before_markers,
--                    del_range, modify_region, prepare_to_modify_buffer
--   UndoList         undo.c: record_insert, record_delete, record_change, undo-boundary
--   Undo             undo.c: primitive-undo
--   Truncate         undo.c: truncate_undo_list
--   Editfns          editfns.c: goto-char, following-char, buffer-substring, narrow-to-region,
--                    save_restriction; buffer.c: validate_region,
--                    buffer-modified-p, set-buffer-modified-p
--   Editfns/Edit     editfns.c: insert, insert-before-markers, insert-char, delete-region;
--                    buffer.c: erase-buffer
--   Editfns/SubstChar
--                    editfns.c: subst-char-in-region
--   Marker           marker.c: marker objects that point into any buffer or nowhere
--   Casefiddle       casefiddle.c: upcase, downcase and capitalize of objects and regions
--   FileMode         filemode.c: filemodestring
--   Strings          fns.c: string-equal, string-lessp
--   Search           search.c: scan_buffer, find_next_newline
--   Search/SkipChars search.c: skip_chars, skip-chars-forward, skip-chars-backward
--   Cmds             cmds.c: forward-char, backward-char, forward-line, beginning-of-line, end-of-line,
--                    delete-char, delete-backward-char
--   FileName         fileio.c: file-name-directory, file-name-nondirectory, file-name-as-directory,
--                    directory-file-name
--   Lisp             lisp.h, data.c, alloc.c: objects, the store, QUIT, car, cdr, setcar, setcdr, cons
--   Lisp/View        how code on the store ends, and the cells of a list
--   Lisp/Lists       fns.c: memq, assq, rassq, length, nthcdr, nth, delq, nreverse
--   Lisp/Lists/Fresh alloc.c and fns.c: make-list, list, reverse, mapcar1, mapcar
--   Lisp/Lists/Nconc fns.c: nconc
--   Lisp/Plist       fns.c: get, put
--   Lisp/Sort        fns.c: sort, merge
--   Lisp/Vars        data.c: do_symval_forwarding, store_symval_forwarding, symbol-value, default-value
--   Lisp/Vars/Set    data.c: set, set-default
--   Lisp/Vars/Local  data.c: make-variable-buffer-local, make-local-variable, kill-local-variable
--   Lisp/Eval        eval.c: grow_specpdl, specbind, record_unwind_protect, unbind_to, progn
--   Lisp/Eval/Forms  eval.c: or, and, if, cond, prog1, prog2, setq, quote, function, while, let*, let,
--                    unwind-protect
--   Lisp/Data        data.c: type predicates, parts of symbols, aref and aset, checks of arguments
--   Lisp/Data/Number data.c: comparison, arith_driver and its functions, %, ash, lsh, 1+, 1-, lognot
--   Gap/Move, Gap/Grow, Gap/Copy, Gap/Adjust, Insdel/Insert, Insdel/Delete,
--   Insdel/BeforeMarkers, Editfns/Substring, Editfns/Restriction, Editfns/Edit/Erase,
--   Undo/Insertion, Undo/Deletion, Undo/RoundTrip, Marker/Chains, Marker/Set, Casefiddle/Region,
--   Editfns/SubstChar/Replace, Search/Scan and the files below it, Search/SkipChars/Motion,
--   Cmds/Lines and the files below it, Cmds/PointLine, Cmds/Chars, FileName/Parts,
--   FileName/Directory, Lisp/Lists/Search, Lisp/Lists/Change, Lisp/Lists/Change/Delq,
--   Lisp/Plist/RoundTrip and the file below it, Lisp/Lists/Circular, the files below
--   Lisp/Lists/Fresh, Lisp/Lists/Nconc and Lisp/Sort, the other files below Lisp/Vars and
--   Lisp/Eval, Lisp/Data/Array, the files below Lisp/Data/Number
--                    the proofs about the file above them
--   Tests            small buffers and a small store, and the theorems at concrete inputs
--
-- Positions and sizes are natural numbers; where C could go below zero the definitions say what
-- they do. A byte is read and written only within the allocated room, else the run is a `fault`,
-- as it is after an abort; FETCH_CHAR, as the searches, the commands and the functions on
-- characters use it, reads without that check. The pending C-g is a list of Booleans, `arrivals`,
-- one for each poll of the quit flag, so a quit may come at every place where the loops look. The
-- loops of gap_left and gap_right run in rounds, one more than the distance that the gap moves,
-- which is enough because each round copies at least one byte or ends the loop. Those of insert-
-- char run in n + 1 rounds, and each takes away at least 256 characters. The memory of realloc is
-- a function that keeps the bytes of the old block; the user's answer about a file that has
-- changed on disk is a function too. The case tables and the masks of the system's headers are
-- parameters.
--
-- The loops of scan_buffer run in rounds too: one more than there are bytes in a block, and one
-- more than there are characters to the end, which is enough as each round passes one. Its blocks
-- end at a ceiling or a floor, which are parameters: BufferSafeCeiling and BufferSafeFloor are
-- empty stubs in this source. A range in the set of skip_chars has 256 rounds. A loop along the
-- cdrs of a list has a number of rounds that the caller gives, as a list may be circular; more
-- rounds than the list has cells are enough. So are they for the calls of sort in each other, and
-- for the loop of unbind_to more rounds than there are entries. Feval, the functions of C on the
-- binding stack, the comparison of sort and the function of mapcar are parameters. Fsignal does
-- not return, and wrong_type_argument is a signal. A C int of arith_driver and of an index keeps
-- 32 bits of a number, a Lisp integer 55, in two's complement; a shift takes its count modulo the
-- width, as the machine does, and the division of the lowest int by -1 traps, so that arith_error,
-- the handler of SIGFPE, signals.
--
-- Not modelled: immediate_quit, by which C-g ends a scan at any moment, the free list of cells,
-- 32-bit wrap-around of the int fields of a buffer, locking of files, which is a stub here, the
-- mark bit in the chain of a marker, save_restriction_restore in a buffer that is not current and
-- its flag clip_changed for the display, undo entries made by Lisp programs, commands on words,
-- catch, throw and condition-case, by which a signal unwinds the binding stack, and the rest of
-- the editor: Feval, reader, display, files, processes and terminals.
pub mod Prelude
pub mod Editor
pub mod Gap
pub mod Editfns
pub mod UndoList
pub mod Insdel
pub mod Undo
pub mod Marker
pub mod Truncate
pub mod Casefiddle
pub mod FileMode
pub mod Strings
pub mod Search
pub mod Lisp
pub mod Cmds
pub mod FileName
pub mod Tests
