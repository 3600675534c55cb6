-- ===== src/Status/Tests.antt =====
-- Concrete statuses.
use inecontainer.Prelude.{◌≡◌, refl, true}
use inecontainer.Status.{read_successful, to_bool, information_available}

-- A read that succeeded has something to report.
read_successful_true : to_bool (read_successful 4) ≡ true
unfolding to_bool information_available
read_successful_true = refl
