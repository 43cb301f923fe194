-- ===== src/Terminal/Tests.antt =====
-- Runs of the terminal at concrete inputs.
use sc4051_distributed_banki.Base.{◌≡◌, refl, List, [], ◌∷◌, ◌++◌, arith}
use sc4051_distributed_banki.Base.Text.{codes, decimal}
use sc4051_distributed_banki.Memory.{Bytes}
use sc4051_distributed_banki.Terminal.{paint, print_prompt}
use sc4051_distributed_banki.Terminal.Input.{
  newline, read_int, read_line, wait_for_enter, ensure_clean_buffer,
}
use sc4051_distributed_banki.Terminal.Input.Typed.{
  read_lines, typed, read_int-read_lines, wait_for_enter-read_int,
}

prompt_painted : paint (print_prompt (codes "Name")) ≡ 27 ∷ codes "[0m|  Name: " ++ 27 ∷ codes "[0m"
unfolding paint
prompt_painted = refl

-- -1 as its 32 bits; a number that is too large, and the rest of its line; no number.
numbers_read :
    (read_int (codes " -1\n") ≡ (0xffffffff, codes "\n"))
    × (read_int (codes "3000000000x\n7") ≡ (0x7fffffff, codes "7"))
    × (read_int (codes "x\n7") ≡ (0, codes "7"))
unfolding read_int
numbers_read = (refl, refl, refl)

-- An empty line is skipped, the second of two is not.
empty_lines_read :
    (read_line (codes "\nAnn\n") ≡ (codes "Ann", []))
    × (read_line (codes "\n\nAnn\n") ≡ ([], codes "Ann\n"))
unfolding read_line ensure_clean_buffer
empty_lines_read = (refl, refl)

abbrev ann_line : Bytes
ann_line = codes "Ann"

abbrev more_lines : List Bytes
more_lines = codes "1000" ∷ codes "pw1" ∷ []

read_int-read_lines_example :
    let (m, behind) =
      read_int (decimal 6 ++ newline ∷ (typed (ann_line ∷ more_lines) ++ codes "\n")) in
    (m ≡ 6) × (read_lines 3 behind ≡ (ann_line ∷ more_lines, codes "\n"))
read_int-read_lines_example =
    read_int-read_lines 6 ann_line more_lines (codes "\n") (omega arith) (refl, (refl, (refl, tt)))
      ((refl, (refl, (refl, (refl, tt)))), ((refl, (refl, (refl, tt))), tt))

wait_for_enter-read_int_example :
    (read_int (wait_for_enter (newline ∷ (decimal 6 ++ newline ∷ codes "3\n")))
      ≡ read_int (codes "3\n"))
    × (read_int (wait_for_enter (newline ∷ newline ∷ (decimal 6 ++ newline ∷ codes "3\n")))
        ≡ (6, newline ∷ codes "3\n"))
wait_for_enter-read_int_example = wait_for_enter-read_int 6 (codes "3\n") (omega arith)
