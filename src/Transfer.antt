-- ===== src/Transfer.antt =====
-- The file transfers of a server: what the strategies share (include/fw/IFileTransfer.hpp and the
-- helper of src/StreamTransfer.cpp, src/LegacyTransfer.cpp and src/AccelTransfer.cpp).
pub mod Stream
pub mod Legacy
pub mod Accel
pub mod Factory
pub mod Route
mod Tests
use alkaidlab_fw.Base.{
  ℕ, zero, suc, ◌+◌, ◌-◌, ◌%◌, ◌^◌, List, [], ◌∷◌, ◌++◌, Bool, true, false, not, ◌&&◌, ◌==◌, leb,
  ltb, if◌then◌else◌, Bytes, codes, drop,
}
use alkaidlab_fw.Base.Int.{ℤ, pos, negsuc, pos_part, ◌+ℤ◌, ◌-ℤ◌, leb_ℤ}
use alkaidlab_fw.Base.Decimal.{decimal_ℤ}

abbrev pub word : ℕ
word = 2 ^ 64

-- The counters, modulo 2^64; the sum of the durations is left out.
pub record TransferStats : Type 0 where
  pub total_count : ℕ
  pub total_bytes : ℤ
  pub active_count : ℕ
  pub error_count : ℕ

unfoldable pub record_start : ℤ → TransferStats → TransferStats
record_start bytes s = record s {
  total_count = (s.total_count + 1) % word;
  total_bytes = s.total_bytes +ℤ bytes;
  active_count = (s.active_count + 1) % word;
}

unfoldable pub record_end : Bool → TransferStats → TransferStats
record_end success s = record s {
  active_count = (s.active_count + (word - 1)) % word;
  error_count = if success then s.error_count else (s.error_count + 1) % word;
}

-- A missing range is -1.
pub record TransferParams : Type 0 where
  pub physical_path : Bytes
  pub display_name : Bytes
  pub file_size : ℤ
  pub range_start : ℤ
  pub range_end : ℤ

abbrev pub is_range : TransferParams → Bool
is_range p = leb_ℤ (pos 0) p.range_start && leb_ℤ (pos 0) p.range_end

abbrev pub send_start : TransferParams → ℤ
send_start p = if is_range p then p.range_start else pos 0

abbrev pub send_len : TransferParams → ℤ
send_len p = if is_range p then (p.range_end -ℤ p.range_start) +ℤ pos 1 else p.file_size

-- Printable ASCII but for `"` and `\`; every other byte becomes `_`.
abbrev pub safe_char : ℕ → ℕ
safe_char c = if leb 32 c && (ltb c 127 && (not (c == 34) && not (c == 92))) then c else 95

unfoldable pub safe_filename : Bytes → Bytes
safe_filename [] = []
safe_filename (c ∷ name) = safe_char c ∷ safe_filename name

abbrev pub disposition : Bytes → Bytes
disposition name = codes "attachment; filename=\"" ++ (safe_filename name ++ codes "\"")

abbrev pub content_range : TransferParams → Bytes
content_range p =
    codes "bytes "
    ++ (decimal_ℤ (send_start p)
        ++ (codes "-" ++ (decimal_ℤ p.range_end ++ (codes "/" ++ decimal_ℤ p.file_size))))
