-- ===== src/Status.antt =====
-- inecontainer/source/container_status_base.cpp and container_status.cpp: what an operation reports.
-- A constructor is a class of the hierarchy that is instantiated, with the numbers that it keeps; the
-- names and texts are left out. `no_status` is a status without an implementation object.
pub mod Laws
mod Tests
use inecontainer.Prelude.{ℕ, Bool, true, false, not, ◌||◌, Option, none, some}

-- `Status::Class`.
pub data Class : Type 0 where
  none_reported container_internal_error container_format_error container_header_error : Class
  container_version_downlevel filesystem_status filesystem_error : Class
  streaming_read_error application_error : Class

-- The base class of the implementation object: `StatusPimplBase` or `ErrorPimplBase`.
pub data Pimpl : Type 0 where
  status_pimpl error_pimpl : Pimpl

-- A mismatch keeps what was found, what was expected and the position in the file; a file error keeps
-- the system's error number; a seek error the position and the size.
pub data Status : Type 0 where
  no_status : Status
  container_unavailable : Status
  stream_identifier_mismatch : ℕ → ℕ → ℕ → Status
  offset_mismatch : ℕ → ℕ → ℕ → Status
  payload_size_mismatch : ℕ → ℕ → ℕ → Status
  filename_mismatch file_creation_error container_data_error : ℕ → Status
  streaming_read : Status
  version_downlevel : ℕ → ℕ → Status
  header_identifier_invalid : Status
  header_version_invalid : ℕ → ℕ → Status
  header_crc_error : Status
  read_successful : ℕ → Status
  write_successful : ℕ → Status
  seek_error : ℕ → ℕ → Status
  invalid_open_mode file_container_not_open : Status
  failed_to_open_file file_close_error file_read_error : ℕ → Status
  file_write_error file_truncate_error file_flush_error : ℕ → Status

-- Which base the implementation object derives from; `no_status` has none.
abbrev pub pimpl_base : Status → Option Pimpl
pimpl_base no_status = none
pimpl_base (read_successful n) = some status_pimpl
pimpl_base (write_successful n) = some status_pimpl
pimpl_base s = some error_pimpl

-- `PimplBase::recoverable` and `PimplBase::informationAvailable`.
abbrev pub pimpl_recoverable : Pimpl → Bool
pimpl_recoverable status_pimpl = true
pimpl_recoverable error_pimpl = false

abbrev pub pimpl_information_available : Pimpl → Bool
pimpl_information_available p = true

unfoldable pub status_class : Status → Class
status_class no_status = none_reported
status_class container_unavailable = container_internal_error
status_class (stream_identifier_mismatch f e p) = container_internal_error
status_class (offset_mismatch f e p) = container_internal_error
status_class (payload_size_mismatch f e p) = container_internal_error
status_class (filename_mismatch p) = container_internal_error
status_class (file_creation_error p) = container_internal_error
status_class (container_data_error p) = container_internal_error
status_class streaming_read = streaming_read_error
status_class (version_downlevel a b) = container_version_downlevel
status_class header_identifier_invalid = container_header_error
status_class (header_version_invalid a b) = container_header_error
status_class header_crc_error = container_header_error
status_class (read_successful n) = filesystem_status
status_class (write_successful n) = filesystem_status
status_class s = filesystem_error

-- `reportedErrorCode` of each class.
unfoldable pub error_code : Status → ℕ
error_code no_status = 0
error_code streaming_read = 1
error_code container_unavailable = 1
error_code (stream_identifier_mismatch f e p) = 2
error_code (offset_mismatch f e p) = 3
error_code (payload_size_mismatch f e p) = 4
error_code (filename_mismatch p) = 5
error_code (file_creation_error p) = 6
error_code (container_data_error p) = 7
error_code (version_downlevel a b) = 8
error_code header_identifier_invalid = 9
error_code (header_version_invalid a b) = 10
error_code header_crc_error = 11
error_code (read_successful n) = 12
error_code (write_successful n) = 13
error_code (seek_error p n) = 14
error_code invalid_open_mode = 15
error_code file_container_not_open = 16
error_code (failed_to_open_file n) = 17
error_code (file_close_error n) = 18
error_code (file_read_error n) = 19
error_code (file_write_error n) = 20
error_code (file_truncate_error n) = 21
error_code (file_flush_error n) = 22

abbrev pub information_of : Option Pimpl → Bool
information_of none = false
information_of (some p) = pimpl_information_available p

abbrev pub recoverable_of : Option Pimpl → Bool
recoverable_of none = true
recoverable_of (some p) = pimpl_recoverable p

unfoldable pub information_available : Status → Bool
information_available s = information_of (pimpl_base s)

unfoldable pub recoverable : Status → Bool
recoverable s = recoverable_of (pimpl_base s)

abbrev pub success_of : Option Pimpl → Bool → Bool → Bool
success_of none i r = true
success_of (some p) i r = not i || r

unfoldable pub success : Status → Bool
unfolding information_available recoverable
success s = success_of (pimpl_base s) (information_available s) (recoverable s)

abbrev pub failure_of : Option Pimpl → Bool → Bool
failure_of none r = false
failure_of (some p) r = not r

unfoldable pub failure : Status → Bool
unfolding recoverable
failure s = failure_of (pimpl_base s) (recoverable s)

-- `operator bool`: a status with information is true.
unfoldable pub to_bool : Status → Bool
unfolding information_available
to_bool s = information_available s

-- `bytesRead()` and `bytesWritten()` of a status cast to `ReadSuccessful` or `WriteSuccessful`. The
-- cast of another status gives a null pointer, which the code does not use.
abbrev pub bytes_read : Status → Option ℕ
bytes_read (read_successful n) = some n
bytes_read s = none

abbrev pub bytes_written : Status → Option ℕ
bytes_written (write_successful n) = some n
bytes_written s = none
