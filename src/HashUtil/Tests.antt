-- ===== src/HashUtil/Tests.antt =====
-- Runs of the digests, with a toy for OpenSSL's: it keeps the bytes that it was given.
use alkaidlab_fw.Base.{
  ◌≡◌, ◌↔◌, refl, [], ◌∷◌, ◌++◌, some, true, Bytes, codes, or_else, append_assoc, append-nil, ap,
  ◌>>=◌,
}
use alkaidlab_fw.HashUtil.{Digest, to_hex, file_hex, hash_loop, verify, same_letters, accepts_hex}
use alkaidlab_fw.HashUtil.Whole.{IsStream, file_hex_lem}
use alkaidlab_fw.HashUtil.Match.{Fits, verify_iff}

abbrev keep : Digest Bytes
keep = record { init = some []; update = λ text ctx. some (ctx ++ text); final = λ ctx. some ctx }

keep-IsStream : IsStream keep
keep-IsStream = record {
  joins = λ s t ctx. ap some (append_assoc ctx s t);
  skips = λ ctx. ap some (append-nil ctx);
}

abbrev content : Bytes
content = 10 ∷ 255 ∷ []

verify_runs : verify keep keep (some content) (codes "0Aff") [] ≡ true
unfolding verify accepts_hex same_letters file_hex hash_loop to_hex
verify_runs = refl

file_hex_lem_example :
    file_hex keep (some content)
    ≡ or_else
        (keep.init >>= λ ctx.
          keep.update content ctx >>= λ done. keep.final done >>= λ md. some (to_hex md))
        []
file_hex_lem_example = file_hex_lem keep keep-IsStream content

verify_iff_example :
    (verify keep keep (some content) (codes "0Aff") [] ≡ true)
    ↔ (Fits (codes "0Aff") (file_hex keep (some content)) × Fits [] (file_hex keep (some content)))
verify_iff_example = verify_iff keep keep (some content) (codes "0Aff") []
