-- ===== src/LineDiscipline/Tests.antt =====
-- Runs of the line buffer of kernel/uart.c, and its theorem at a concrete input.
use tout_os.Base.{[], ◌∷◌, ◌≡◌, refl, replicate, arith, true, false}
use tout_os.LineDiscipline.{LineBuffer, to_line_discipline, handle_magic_keys, counters}
use tout_os.LineDiscipline.Edit.{IsLine, line, edit, to_line_discipline-edit}

-- the line `ab`
abbrev ab : LineBuffer
ab = record { uart_in_buf = 97 ∷ 98 ∷ replicate 254 0; uib_index = 2 }

shows_counters : handle_magic_keys 103 true ≡ (false, counters ∷ [])
unfolding handle_magic_keys
shows_counters = refl

to_line_discipline-edit_example :
    IsLine ((to_line_discipline 13 ab).0)
    × (line ((to_line_discipline 13 ab).0) ≡ edit 13 (line ab))
to_line_discipline-edit_example = to_line_discipline-edit 13 ab (refl, omega arith)
