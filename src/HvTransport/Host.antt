-- ===== src/HvTransport/Host.antt =====
-- The host's name in its array (src/HvTransport.cpp, `setHost`; src/Application.cpp, `setHost`).
use alkaidlab_fw.Base.{
  ℕ, zero, suc, ◌-◌, ◌<◌, ◌≡◌, refl, ap, ◌∙◌, arith, [], ◌∷◌, ◌==◌, ◌>>=◌, Option, none, some,
  if_true, if_false, Bool-cases, inl, inr, Bytes, length, take,
}
use alkaidlab_fw.HvTransport.{HvServerTransport, c_string, store, strncpy, copy_host, set_host}

one_longer :
    (x n : ℕ) (o : Option Bytes) (out : Bytes)
    → (o >>= store n 0) ≡ some out
    → ((o >>= λ rest. some (x ∷ rest)) >>= store (suc n) 0) ≡ some (x ∷ out)
unfolding store
one_longer x n none out made = absurd (not_made made)
  where
    not_made : ◌≡◌ {A = Option Bytes} none (some out) → ⊥
    not_made e = cc
one_longer x n (some rest) out made = ap (λ (o : Option Bytes). o >>= λ rest. some (x ∷ rest)) made

-- Whatever stands in an array of `n + 1` bytes, the `n` bytes of `strncpy` and the zero behind them
-- are inside of it, and it then reads as the first `n` bytes of the C string.
copied :
    (n : ℕ) (s buffer : Bytes)
    → length buffer ≡ suc n
    → (out : Bytes) × ((strncpy n (c_string s) buffer >>= store n 0) ≡ some out)
      × (length out ≡ suc n)
      × (c_string out ≡ take n (c_string s))
unfolding strncpy store c_string
copied n s [] sized = absurd (omega arith)
copied zero s (b ∷ buffer) sized = (0 ∷ buffer, refl, omega (arith, sized), refl)
copied (suc n) [] (b ∷ buffer) sized =
    let (out, made, long, reads) = copied n [] buffer (omega (arith, sized)) in
    (0 ∷ out, one_longer 0 n (strncpy n [] buffer) out made, omega (arith, long), refl)
copied (suc n) (c ∷ s) (b ∷ buffer) sized = elim (Bool-cases (c == 0)) [
  | inl ends ↦
      let (out, made, long, reads) = copied n [] buffer (omega (arith, sized)) in
      rw (if_true [] (c ∷ c_string s) ends)
        (0 ∷ out, one_longer 0 n (strncpy n [] buffer) out made, omega (arith, long), refl)
  | inr goes ↦
      let (out, made, long, reads) = copied n s buffer (omega (arith, sized)) in
      rw (if_false [] (c ∷ c_string s) goes) (
        c ∷ out,
        one_longer c n (strncpy n (c_string s) buffer) out made,
        omega (arith, long),
        if_false _ _ goes ∙ ap (λ (t : Bytes). c ∷ t) reads,
      )
]

-- Whatever the host and whatever stood in the server's array, which has one byte at least:
-- `setHost` writes no byte outside the array, and the array then reads as the host's first bytes,
-- one fewer than it has.
pub set_host_lem :
    {H : Type 0} (host : Bytes) (t : HvServerTransport H)
    → 0 < length t.server.host
    → (u : HvServerTransport H) × (set_host host t ≡ some u)
      × (length u.server.host ≡ length t.server.host)
      × (c_string u.server.host ≡ take (length t.server.host - 1) (c_string host))
unfolding set_host copy_host
set_host_lem host t some_bytes =
    let (out, made, long, reads) =
      copied (length t.server.host - 1) host t.server.host (omega (arith, some_bytes)) in
    (
      record t { server = record t.server { host = out } },
      ap
          (λ (o : Option Bytes).
            o >>= λ copied. some (record t { server = record t.server { host = copied } }))
          made,
      omega (arith, long, some_bytes),
      reads,
    )
