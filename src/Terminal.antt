-- ===== src/Terminal.antt =====
-- client/include/core/bankIO.h and client/src/core/bankIO.cpp: what `BankIO` writes to the terminal.
pub mod Input
mod Tests
use sc4051_distributed_banki.Base.{List, [], ◌∷◌, ◌++◌}
use sc4051_distributed_banki.Base.Text.{codes, utf8}
use sc4051_distributed_banki.Memory.{Bytes}

pub data Colour : Type 0 where
  reset red green yellow cyan bold bold_cyan : Colour

-- The escape character in front of a text.
abbrev escape : Bytes → Bytes
escape text = 27 ∷ text

abbrev pub colour_code : Colour → Bytes
colour_code reset = escape (codes "[0m")
colour_code red = escape (codes "[31m")
colour_code green = escape (codes "[32m")
colour_code yellow = escape (codes "[33m")
colour_code cyan = escape (codes "[36m")
colour_code bold = escape (codes "[1m")
colour_code bold_cyan = escape (codes "[1;36m")

-- The calls that write; `press_enter` is the line that `wait_for_enter` writes.
pub data Output : Type 0 where
  print : Bytes → Colour → Output
  print_prompt : Bytes → Output
  print_error : Bytes → Output
  print_loading : Bytes → Output
  print_box_top print_box_bottom print_service_menu press_enter clear_ui : Output

-- `BankIO::print`
abbrev painted : Bytes → Colour → Bytes
painted msg colour = colour_code colour ++ msg ++ colour_code reset

abbrev box_line : Bytes
box_line = utf8 "───────────────────────────────\n"

abbrev service_menu : Bytes
service_menu =
    escape (codes "[1;36m")
    ++ utf8 "╔══════════════════════════════════════════════════╗\n"
    ++ utf8 "║          SC4051 DISTRIBUTED BANK SYSTEM          ║\n"
    ++ utf8 "╚══════════════════════════════════════════════════╝"
    ++ escape (codes "[0m\n")
    ++ codes "  [ ACCOUNT ]          [ TRANSACTIONS ]\n"
    ++ codes "   1. OPEN              3. DEPOSIT\n"
    ++ codes "   2. CLOSE             4. WITHDRAW\n"
    ++ codes "                        7. TRANSFER\n\n"
    ++ codes "  [ INFORMATION ]      [ SYSTEM ]\n"
    ++ codes "   5. MONITOR           0. EXIT\n"
    ++ codes "   6. BALANCE\n"
    ++ utf8 "────────────────────────────────────────────────────\n"
    ++ codes " >> Selection: "

-- What a call writes to std::cout.
unfoldable pub paint : Output → Bytes
paint (print msg colour) = painted msg colour
paint (print_prompt field_name) = painted (codes "|  " ++ field_name ++ codes ": ") reset
paint (print_error msg) = painted (codes "[!] " ++ msg ++ codes "\n") red
paint (print_loading msg) = painted (codes "[@]" ++ msg ++ codes "\n") cyan
paint print_box_top = painted (10 ∷ box_line) bold
paint print_box_bottom = painted box_line reset
paint print_service_menu = painted service_menu reset
paint press_enter = codes "Press Enter to continue"
paint clear_ui = escape (codes "[2J") ++ escape (codes "[1;1H")
