-- ===== src/Transfer/Accel.antt =====
-- The transfer that leaves the file to nginx (src/AccelTransfer.cpp).
use alkaidlab_fw.Base.{suc, [], ◌∷◌, ◌++◌, none, some, true, Bytes, codes, drop}
use alkaidlab_fw.Base.Int.{pos}
use alkaidlab_fw.Application.{rfind}
use alkaidlab_fw.Context.{Context, set_header, set_status, set_body}
use alkaidlab_fw.Transfer.{
  TransferStats, TransferParams, record_start, record_end, send_len, disposition,
}
use alkaidlab_fw.Transfer.Stream.{Sent}

-- The part of a path behind its last slash.
unfoldable pub file_id : Bytes → Bytes
file_id path = elim (rfind b'/' path) [ none ↦ path | some slash ↦ drop (suc slash) path ]

module _ {H : Type 0} (put : Bytes → Bytes → H → H)
    (type_by_name : Bytes → Context H → Context H) where
  unfoldable pub accel_send : Bytes → TransferParams → TransferStats → Context H → Sent H
  accel_send prefix p stats c =
      let redirected =
        set_header put (codes "X-Accel-Redirect") (prefix ++ file_id p.physical_path) c in
      let typed = type_by_name p.display_name redirected in
      let named = set_header put (codes "Content-Disposition") (disposition p.display_name) typed in
      record {
        context = set_body [] (set_status (pos 200) named);
        stats = record_end true (record_start (send_len p) stats);
        completions = true ∷ [];
        stream = none;
      }
