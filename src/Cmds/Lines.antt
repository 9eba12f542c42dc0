-- ===== src/Cmds/Lines.antt =====
-- forward-line: how many lines it moves, and what it returns.
pub mod Look
pub mod Passed
use holomacs.Prelude.{◌&&◌, ◌==◌, if◌then◌else◌, ltb, ◌+ℤ◌, Bool-cases, inl, inr, ◌⊎◌}
use holomacs.Editor.{Editor, and_then}
use holomacs.Search.{is_zero}
use holomacs.Search.Scan.Right.Loop.{IsCeiling}
use holomacs.Search.Scan.Left.Loop.{IsFloor}
use holomacs.Search.Scan.Buffer.{scan_buffer_lem}
use holomacs.Search.Scan.Count.{targets, PassedRight, PassedLeft}
use holomacs.Cmds.Lines.Look.{Behind, next_left-Behind}
use holomacs.Cmds.Lines.Passed.{newlines, has_partial_line, Forward}
