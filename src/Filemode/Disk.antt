-- ===== src/Filemode/Disk.antt =====
-- models/filemode/filemode.go: what the modes become in the file system, and what comes back. The
-- comment on `ToOSFileMode` says that `Submodule` is refused; the code makes it a directory.
use jiaozifs.Prelude.{ℕ, ◌≡◌, arith, true, false, ok, err, ◌>>=◌}
use jiaozifs.Filemode.{
  malformed_mode, canonical, to_os_file_mode, new_from_os_file_mode, is_malformed,
}

-- A mode that is not malformed survives the way to the file system and back, but for `Deprecated`,
-- which becomes `Regular`, and `Submodule`, which becomes `Dir`. A malformed mode is refused.
pub to_os_file_mode-new_from_os_file_mode :
    (m : ℕ)
    → (is_malformed m ≡ false → (to_os_file_mode m >>= new_from_os_file_mode) ≡ ok (canonical m))
      × (is_malformed m ≡ true → to_os_file_mode m ≡ err malformed_mode)
unfolding is_malformed to_os_file_mode new_from_os_file_mode
to_os_file_mode-new_from_os_file_mode m = (ground arith, ground arith)
