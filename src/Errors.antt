-- ===== src/Errors.antt =====
-- libel/utilities.c: `set_error_status`, for a caller that passes a place for the code.
use embedded_client.Types.{Rctx, Errno, error_none, Status, success, error}

abbrev pub status_of : Errno → Status
status_of error_none = success
status_of _ = error

-- `return set_error_status(sky_errno, code)`: the context, the code stored, the status.
abbrev pub set_error_status : Rctx → Errno → Rctx × Errno × Status
set_error_status r code = (r, code, status_of code)
