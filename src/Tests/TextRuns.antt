-- ===== src/Tests/TextRuns.antt =====
-- Tokens and numbers of sample texts.
use erizo.Base.{◌≡◌, codes, arith}
use erizo.Text.CString.{strtok_loop}
use erizo.Text.Tokens.{strtok_loop_enough}

strtok_loop_enough_example :
    strtok_loop 8 (codes " ") (codes "a b c") ≡ strtok_loop 6 (codes " ") (codes "a b c")
strtok_loop_enough_example =
    strtok_loop_enough 8 6 (codes " ") (codes "a b c") (omega arith) (omega arith)
