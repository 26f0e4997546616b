-- ===== src/CciExecutor.antt =====
-- opencxl/cxl/component/cci_executor.py: `CciExecutor`, which runs the commands of the CCI, with the names of
-- opcodes of opencxl/cxl/cci/common.py. What a command does is a parameter: a foreground command is a function
-- from the request to its response or its exception; one that runs in the background has, beside that, the
-- progress that it reports on the way.
pub mod Background
use opencxl_core.Prelude.{
  ℕ, Bool, true, false, ◌&&◌, ◌||◌, Option, none, some, List, [], ◌∷◌, ◌++◌, if◌then◌else◌, leb,
  ◌==◌, Result, ok, err, ◌>>=◌, ◌>>◌, guard, value_error,
}

-- The members of `CCI_RETURN_CODE` that the executor uses, and the last one; the numbers below it are all
-- members.
abbrev pub success : ℕ
success = 0

abbrev pub background_command_started : ℕ
background_command_started = 1

abbrev pub unsupported : ℕ
unsupported = 3

abbrev pub internal_error : ℕ
internal_error = 4

abbrev pub busy : ℕ
busy = 6

abbrev pub invalid_extent_list : ℕ
invalid_extent_list = 0x1e

pub record CciRequest : Type 0 where
  pub opcode : ℕ
  pub payload : List ℕ

pub record CciResponse : Type 0 where
  pub bo_flag : Bool
  pub return_code : ℕ
  pub vendor_specific_status : ℕ
  pub payload : List ℕ

abbrev pub respond : Bool → ℕ → CciResponse
respond bo_flag return_code = record {
  bo_flag = bo_flag;
  return_code = return_code;
  vendor_specific_status = 0;
  payload = [];
}

pub record CciBackgroundStatus : Type 0 where
  pub opcode : ℕ
  pub percentage_complete : ℕ
  pub return_code : ℕ
  pub vendor_specific_status : ℕ

-- The progress that a command reports, and how it ends.
abbrev pub Work : Type 0
Work = List ℕ × Result CciResponse

pub data CciCommand : Type 0 where
  foreground : (CciRequest → Result CciResponse) → CciCommand
  background : (CciRequest → Work) → CciCommand

-- `execute` of either class: an exception becomes a response, in the background behind a last report.
unfoldable pub execute_foreground : (CciRequest → Result CciResponse) → CciRequest → CciResponse
execute_foreground run request = elim (run request) [
  | ok response ↦ response
  | err e ↦ respond false internal_error
]

unfoldable pub execute_background : (CciRequest → Work) → CciRequest → List ℕ × CciResponse
execute_background run request = elim (run request).1 [
  | ok response ↦ ((run request).0, response)
  | err e ↦ ((run request).0 ++ 100 ∷ [], respond false internal_error)
]

-- The slot's fields, and what is left of the command that the worker has started: `none` when it waits.
pub record CciExecutor : Type 0 where
  pub commands : List (ℕ × CciCommand)
  pub command : Option (CciRequest → Work)
  pub request : CciRequest
  pub response : CciResponse
  pub percentage_complete : ℕ
  pub worker : Option (List ℕ × CciResponse)

abbrev pub new_executor : CciExecutor
new_executor = record {
  commands = [];
  command = none;
  request = record { opcode = 0; payload = [] };
  response = respond false success;
  percentage_complete = 0;
  worker = none;
}

-- A command that is registered later for the opcode comes first.
abbrev pub register_command : ℕ → CciCommand → CciExecutor → CciExecutor
register_command opcode c e = record e { commands = (opcode, c) ∷ e.commands }

unfoldable pub find_command : List (ℕ × CciCommand) → ℕ → Option CciCommand
find_command [] opcode = none
find_command ((o, c) ∷ rest) opcode = if o == opcode then some c else find_command rest opcode

unfoldable pub is_member : ℕ → List ℕ → Bool
is_member n [] = false
is_member n (m ∷ ms) = n == m || is_member n ms

-- The opcodes of CCI_GENERIC_COMMAND_OPCODE, CCI_FM_API_COMMAND_OPCODE and CCI_VENDOR_SPECIFIC_OPCODE.
abbrev pub generic_opcodes : List ℕ
generic_opcodes =
    0x0001 ∷ 0x0002 ∷ 0x0003 ∷ 0x0004 ∷ 0x0100 ∷ 0x0101 ∷ 0x0102 ∷ 0x0103 ∷ 0x0104 ∷ 0x0105 ∷ 0x0106
    ∷ 0x0200 ∷ 0x0201 ∷ 0x0202 ∷ 0x0300 ∷ 0x0301 ∷ 0x0400 ∷ 0x0401 ∷ 0x0402 ∷ 0x0403 ∷ 0x0404
    ∷ 0x0405 ∷ 0x0500 ∷ 0x0501 ∷ 0x0502 ∷ 0x0600 ∷ []

abbrev pub fm_api_opcodes : List ℕ
fm_api_opcodes =
    0x5100 ∷ 0x5101 ∷ 0x5102 ∷ 0x5103 ∷ 0x5200 ∷ 0x5201 ∷ 0x5202 ∷ 0x5203 ∷ 0x5300 ∷ 0x5301 ∷ 0x5302
    ∷ 0x5400 ∷ 0x5401 ∷ 0x5402 ∷ 0x5403 ∷ 0x5404 ∷ 0x5405 ∷ 0x5406 ∷ 0x5407 ∷ 0x5408 ∷ 0x5409
    ∷ 0x5500 ∷ 0x5600 ∷ 0x5601 ∷ 0x5602 ∷ 0x5603 ∷ 0x5604 ∷ 0x5605 ∷ []

abbrev pub vendor_specific_opcodes : List ℕ
vendor_specific_opcodes = 0xc000 ∷ 0xc001 ∷ 0xc002 ∷ 0xc003 ∷ 0xc010 ∷ []

abbrev between : ℕ → ℕ → ℕ → Bool
between low high n = leb low n && leb n high

-- `get_opcode_string` without the string: a number in one of the three ranges that is no opcode raises.
unfoldable pub get_opcode_string : ℕ → Result (Unit {0})
unfolding is_member
get_opcode_string opcode =
    if between 0x0001 0x0600 opcode
    then guard (is_member opcode generic_opcodes) value_error
    else if between 0x5100 0x5605 opcode
    then guard (is_member opcode fm_api_opcodes) value_error
    else if between 0xc000 0xc010 opcode
    then guard (is_member opcode vendor_specific_opcodes) value_error
    else ok tt

-- `_submit_background_command`
unfoldable pub submit_background_command :
    (CciRequest → Work) → CciRequest → CciExecutor → CciResponse × CciExecutor
submit_background_command run r e = elim e.command [
  | some other ↦ (respond true busy, e)
  | none ↦ (
    respond true background_command_started,
    record e {
      command = some run;
      request = r;
      response = respond false success;
      percentage_complete = 0;
    },
  )
]

unfoldable pub execute_command : CciRequest → CciExecutor → Result (CciResponse × CciExecutor)
unfolding get_opcode_string submit_background_command execute_foreground find_command
execute_command r e = get_opcode_string r.opcode >> elim (find_command e.commands r.opcode) [
  | none ↦ ok (respond false unsupported, e)
  | some (background run) ↦ ok (submit_background_command run r e)
  | some (foreground run) ↦
      let response = execute_foreground run r in
      guard (leb response.return_code invalid_extent_list) value_error >> ok (response, e)
]

unfoldable pub get_background_command_status : CciExecutor → CciBackgroundStatus
get_background_command_status e = record {
  opcode = e.request.opcode;
  percentage_complete = e.percentage_complete;
  return_code = e.response.return_code;
  vendor_specific_status = e.response.vendor_specific_status;
}

-- `_process_background_command`, from one wait to the next: the worker takes the command, reports progress,
-- or ends. `none`: it waits for a command.
unfoldable pub work : CciExecutor → Option CciExecutor
unfolding execute_background
work e = elim e.worker [
  | none ↦ elim e.command [
    | none ↦ none
    | some run ↦ some (record e { worker = some (execute_background run e.request) })
  ]
  | some (progress ∷ rest, response) ↦
      some (record e { percentage_complete = progress; worker = some (rest, response) })
  | some ([], response) ↦
      some
        (record e { percentage_complete = 100; response = response; command = none; worker = none })
]
