-- ===== src/Invocation.antt =====
-- client/src/utils/semantics.cpp: the invocation semantics that the command line asks for.
pub mod Flags
mod Tests
use sc4051_distributed_banki.Base.{ℕ, Option, none, some, List, [], ◌∷◌, if◌then◌else◌}
use sc4051_distributed_banki.Base.Outcome.{Result, ok, fail, invalid_invocation_flag}
use sc4051_distributed_banki.Base.Text.{codes}
use sc4051_distributed_banki.Memory.{Bytes}
use sc4051_distributed_banki.Client.Text.{same_text}
use sc4051_distributed_banki.Client.Send.{at_least_once, at_most_once}

-- `stringToInvocationFlag.find`
abbrev pub string_to_invocation_flag : Bytes → Option ℕ
string_to_invocation_flag arg =
    if same_text arg (codes "-l")
    then some at_least_once
    else if same_text arg (codes "-m")
    then some at_most_once
    else none

-- `if (it != stringToInvocationFlag.end()) return it->second;`
abbrev pub flag_or : Option ℕ → Result ℕ → Result ℕ
flag_or (some flag) next = ok flag
flag_or none next = next

-- The loop over `argv` behind the program's name.
unfoldable pub first_flag : List Bytes → Result ℕ
first_flag [] = fail invalid_invocation_flag
first_flag (arg ∷ args) = flag_or (string_to_invocation_flag arg) (first_flag args)

unfoldable pub get_invocation_flag : List Bytes → Result ℕ
unfolding first_flag
get_invocation_flag [] = fail invalid_invocation_flag
get_invocation_flag (program ∷ args) = first_flag args
