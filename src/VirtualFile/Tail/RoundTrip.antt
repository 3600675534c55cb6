-- ===== src/VirtualFile/Tail/RoundTrip.antt =====
-- What is written into the tail buffer is read back.
use inecontainer.VirtualFile.{VirtualFile}
