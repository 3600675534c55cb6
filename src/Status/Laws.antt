-- ===== src/Status/Laws.antt =====
-- How the answers of a status fit together, and with its class.
use inecontainer.Prelude.{◌≡◌, refl, Bool, true, false, not, ◌||◌}
use inecontainer.Status.{
  Class, none_reported, container_data_error, container_unavailable, failed_to_open_file,
  file_close_error, file_container_not_open, file_creation_error, file_flush_error, file_read_error,
  file_truncate_error, file_write_error, filename_mismatch, header_crc_error,
  header_identifier_invalid, header_version_invalid, invalid_open_mode, no_status, offset_mismatch,
  payload_size_mismatch, read_successful, seek_error, stream_identifier_mismatch, streaming_read,
  version_downlevel, write_successful, filesystem_status, Status, status_class,
  information_available, recoverable, success, failure, to_bool,
}

-- The classes of the conditions that are no errors.
abbrev pub is_status_class : Class → Bool
is_status_class none_reported = true
is_status_class filesystem_status = true
is_status_class c = false

-- Every status is either a success or a failure, as its class says: a success exactly when it is no
-- status or a filesystem status; `recoverable` is the same test, and a status
-- that `operator bool` takes for false is a success.
pub success_lem :
    (s : Status)
    → (success s ≡ is_status_class (status_class s))
      × (failure s ≡ not (success s))
      × (recoverable s ≡ success s)
      × ((success s || to_bool s) ≡ true)
unfolding success failure recoverable to_bool information_available status_class
success_lem no_status = (refl, refl, refl, refl)
success_lem streaming_read = (refl, refl, refl, refl)
success_lem container_unavailable = (refl, refl, refl, refl)
success_lem (stream_identifier_mismatch f e p) = (refl, refl, refl, refl)
success_lem (offset_mismatch f e p) = (refl, refl, refl, refl)
success_lem (payload_size_mismatch f e p) = (refl, refl, refl, refl)
success_lem (filename_mismatch p) = (refl, refl, refl, refl)
success_lem (file_creation_error p) = (refl, refl, refl, refl)
success_lem (container_data_error p) = (refl, refl, refl, refl)
success_lem (version_downlevel a b) = (refl, refl, refl, refl)
success_lem header_identifier_invalid = (refl, refl, refl, refl)
success_lem (header_version_invalid a b) = (refl, refl, refl, refl)
success_lem header_crc_error = (refl, refl, refl, refl)
success_lem (read_successful n) = (refl, refl, refl, refl)
success_lem (write_successful n) = (refl, refl, refl, refl)
success_lem (seek_error p n) = (refl, refl, refl, refl)
success_lem invalid_open_mode = (refl, refl, refl, refl)
success_lem file_container_not_open = (refl, refl, refl, refl)
success_lem (failed_to_open_file n) = (refl, refl, refl, refl)
success_lem (file_close_error n) = (refl, refl, refl, refl)
success_lem (file_read_error n) = (refl, refl, refl, refl)
success_lem (file_write_error n) = (refl, refl, refl, refl)
success_lem (file_truncate_error n) = (refl, refl, refl, refl)
success_lem (file_flush_error n) = (refl, refl, refl, refl)
