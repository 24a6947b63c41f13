-- ===== src/Tests.antt =====
-- Runs of file modes and byte ranges on small inputs.
use jiaozifs.Prelude.{◌≡◌, ◌≤◌, refl, arith, true, false, ok, err, codes, ◌>>=◌}
use jiaozifs.Filemode.{
  regular, submodule, mode_string, new_mode, is_malformed, to_os_file_mode, new_from_os_file_mode,
  canonical, malformed_mode,
}
use jiaozifs.Filemode.Print.{new_mode-mode_string}
use jiaozifs.Filemode.Disk.{to_os_file_mode-new_from_os_file_mode}
use jiaozifs.HttpRange.{parse_range, unsatisfiable_range, parse_range-le}

regular_text : mode_string regular ≡ codes "0100644"
unfolding mode_string
regular_text = refl

inverted_range : parse_range (codes "bytes=5-3") 9 ≡ ok (record { start_offset = 5; end = 4 })
unfolding parse_range
inverted_range = refl

range_after_end : parse_range (codes "bytes=9-") 9 ≡ err unsatisfiable_range
unfolding parse_range
range_after_end = refl

new_mode-mode_string_example : new_mode (mode_string regular) ≡ ok regular
new_mode-mode_string_example = new_mode-mode_string regular (omega arith)

to_os_file_mode-new_from_os_file_mode_example :
    (is_malformed submodule ≡ false
      → (to_os_file_mode submodule >>= new_from_os_file_mode) ≡ ok (canonical submodule))
    × (is_malformed submodule ≡ true → to_os_file_mode submodule ≡ err malformed_mode)
to_os_file_mode-new_from_os_file_mode_example = to_os_file_mode-new_from_os_file_mode submodule

parse_range-le_example : (2 ≤ 9) × (9 ≤ 9)
unfolding parse_range
parse_range-le_example =
    parse_range-le (codes "bytes=2-99") 9 (record { start_offset = 2; end = 9 }) refl
