-- ===== src/Protocol/Validate.antt =====
-- src/protocol.rs: the validation of reports and of submitted requests.
use cede_grid.Common.{
  ℕ, ◌*◌, String, Bool, false, ◌&&◌, ◌||◌, not, List, [], ◌∷◌, ◌==◌, String_eq, get, values, len,
  leb, ltb, nat_eq, any, all, length, contains, codes, has_control, is_ascii_alphanumeric,
  is_empty_text, is_none_or, i64_max, starts_with, Result, ok, ensure, ◌>>◌,
}
use cede_grid.Execution.{LaunchRequest}
use cede_grid.Protocol.{AllocationReport, NodeReport}

pub data ProtocolError : Type 0 where
  inventory_limit invalid_controls invalid_allocation report_size : ProtocolError
  invalid_task_id invalid_argv invalid_cwd invalid_environment invalid_metadata : ProtocolError
  invalid_resources invalid_child_contract : ProtocolError

-- `b"_.:-".contains(&b)`
abbrev is_control_mark : ℕ → Bool
is_control_mark c = nat_eq c b'_' || nat_eq c b'.' || nat_eq c b':' || nat_eq c b'-'

unfoldable pub is_control_name : String → Bool
is_control_name c =
    not (is_empty_text c)
    && leb (len c) 128
    && all (λ b. is_ascii_alphanumeric b || is_control_mark b) (codes c)

-- the loop over `allocations`, with the IDs seen so far
unfoldable pub validate_reports :
    List String → List AllocationReport → Result ProtocolError (Unit {0})
validate_reports ids [] = ok tt
validate_reports ids (a ∷ rest) =
    ensure
      (not (is_empty_text a.assignment_id)
        && leb (len a.assignment_id) 256
        && not (has_control a.assignment_id)
        && leb (len a.detail) 1024
        && leb a.generation i64_max
        && not (contains ids a.assignment_id))
      ProtocolError.invalid_allocation
    >> validate_reports (a.assignment_id ∷ ids) rest

-- `NodeReport::validate_bounds`; `json_size` gives the bytes of a report as JSON
unfoldable pub validate_bounds : (NodeReport → ℕ) → NodeReport → Result ProtocolError (Unit {0})
validate_bounds json_size report = do
  ensure (leb (length report.allocations) 2048) ProtocolError.inventory_limit
  ensure
      (leb (length report.available_controls) 64 && all is_control_name report.available_controls)
      ProtocolError.invalid_controls
  validate_reports [] report.allocations
  ensure (leb (json_size report) (2 * 1024 * 1024)) ProtocolError.report_size

-- `contains('\0')`, and `contains('=')`
abbrev has_code : ℕ → String → Bool
has_code c s = any (nat_eq c) (codes s)

abbrev is_environment_entry : String × String → Bool
is_environment_entry (k, v) =
    not (is_empty_text k)
    && not (has_code b'=' k || has_code 0 k)
    && not (has_code 0 v)
    && (not (starts_with k "CEDEGRID_") || k == "CEDEGRID_METADATA")

abbrev pub has_command : List String → Bool
has_command [] = false
has_command (program ∷ arguments) = not (is_empty_text program)

-- the text begins with a slash
abbrev begins_absolute : List ℕ → Bool
begins_absolute [] = false
begins_absolute (c ∷ cs) = nat_eq c b'/'

-- `validate_launch_request`; `accepts_json` is the test of `numeric::from_slice`
unfoldable pub validate_launch_request :
    (String → Bool) → LaunchRequest → Result ProtocolError (Unit {0})
validate_launch_request accepts_json request = do
  ensure
      (not (is_empty_text request.task_id)
        && leb (len request.task_id) 256
        && not (has_control request.task_id))
      ProtocolError.invalid_task_id
  ensure (has_command request.argv && all (λ a. not (has_code 0 a)) request.argv)
      ProtocolError.invalid_argv
  ensure (begins_absolute (codes request.cwd) && not (has_code 0 request.cwd))
      ProtocolError.invalid_cwd
  ensure (all is_environment_entry request.env) ProtocolError.invalid_environment
  ensure (is_none_or (get "CEDEGRID_METADATA" request.env) accepts_json)
      ProtocolError.invalid_metadata
  ensure
      (ltb 0 request.resources.cpu_millicores
        && ltb 0 request.resources.ram_mib
        && leb request.resources.cpu_millicores i64_max
        && leb request.resources.ram_mib i64_max
        && all (λ n. ltb 0 n && leb n i64_max) (values request.resources.gpu_memory_mib))
      ProtocolError.invalid_resources
  ensure
      (leb request.managed_child_limit 8
        && (nat_eq request.managed_child_limit 0
            || not request.single_process && request.no_escape))
      ProtocolError.invalid_child_contract
