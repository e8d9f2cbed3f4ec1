-- ===== src/Judge/Report/Tests.antt =====
-- A report and whether it is usable.
use runcodes.Prelude.{ℕ, ◌&&◌, leb, if◌then◌else◌, ◌+◌}

abbrev lower : ℕ → ℕ
lower c = if leb b'A' c && leb c b'Z' then c + 32 else c
