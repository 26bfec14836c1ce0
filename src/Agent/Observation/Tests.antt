-- ===== src/Agent/Observation/Tests.antt =====
-- The classification and the fingerprint at two runs of one failing test.
use driver_os.Base.{Text, codes}

abbrev failing : Text
failing = codes "exit 1 (took 0.31s)\n--- FAIL: TestQueue (0.12s)\n"
