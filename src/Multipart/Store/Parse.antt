-- ===== src/Multipart/Store/Parse.antt =====
-- What `parse_parts` returns where it has memory.
use storefs.Os.{Os, ◌>>=◌, ◌>>◌}
