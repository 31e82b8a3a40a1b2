-- ===== src/Files/Dup.antt =====
-- `file_dup`: a second descriptor of an open file, in the lowest free slot.
use oshub.Files.Kept.{Kept}
