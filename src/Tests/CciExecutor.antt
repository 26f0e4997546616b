-- ===== src/Tests/CciExecutor.antt =====
-- opencxl/cxl/component/cci_executor.py at concrete commands.
use opencxl_core.Prelude.{
  ◌≡◌, refl, arith, false, true, none, some, [], ◌∷◌, ok, err, value_error, exception,
}
use opencxl_core.CciExecutor.{
  CciExecutor, CciRequest, Work, background, new_executor, register_command, respond, unsupported,
  internal_error, background_command_started, execute_command, execute_background,
  submit_background_command, find_command, get_opcode_string, is_member, work,
}
use opencxl_core.CciExecutor.Background.{
  Run, here, executed, worked, turns, IsDone, submitted-IsDone,
}

-- A command that reports half of its work and fails.
abbrev failing : CciRequest → Work
failing r = (50 ∷ [], err exception)

abbrev executor : CciExecutor
executor = register_command 0x5201 (background failing) new_executor

abbrev bind : CciRequest
bind = record { opcode = 0x5201; payload = [] }

abbrev submitted : CciExecutor
submitted = record executor { command = some failing; request = bind }

abbrev ended : CciExecutor
ended = record submitted {
  command = none;
  percentage_complete = 100;
  response = respond false internal_error;
}

-- The command is requested again while it runs.
ended-Run : Run submitted 4 ended
unfolding work execute_background execute_command get_opcode_string is_member find_command
    submit_background_command
ended-Run =
    worked (worked (executed bind (respond true 6) (worked (worked here refl) refl) refl) refl) refl

submitted_lem :
    execute_command bind executor ≡ ok (respond true background_command_started, submitted)
unfolding execute_command get_opcode_string is_member find_command submit_background_command
submitted_lem = refl

found_lem : find_command executor.commands 0x5201 ≡ some (background failing)
unfolding find_command
found_lem = refl

named_lem : get_opcode_string 0x5201 ≡ ok tt
unfolding get_opcode_string is_member
named_lem = refl

turns_lem : turns failing bind ≡ 4
unfolding execute_background
turns_lem = refl

submitted-IsDone_example :
    (respond true background_command_started ≡ respond true background_command_started)
    × ((u : CciExecutor) × Run submitted (turns failing bind) u × IsDone failing bind u)
submitted-IsDone_example =
    submitted-IsDone failing bind (respond true background_command_started) executor submitted ended
      4 refl refl named_lem found_lem submitted_lem ended-Run (omega (arith, turns_lem))

-- A number between two opcodes raises, where any other one without a command is unsupported.
unknown_test : execute_command (record bind { opcode = 0x0005 }) executor ≡ err value_error
unfolding execute_command get_opcode_string is_member
unknown_test = refl

unsupported_test :
    execute_command (record bind { opcode = 0x0001 }) executor
    ≡ ok (respond false unsupported, executor)
unfolding execute_command get_opcode_string is_member find_command
unsupported_test = refl
