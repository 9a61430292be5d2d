-- ===== src/SafeId/Letters.antt =====
-- Which identifiers pass `isSafeId` (include/fw/IdUtil.hpp).
use alkaidlab_fw.Base.{ℕ, ◌≤◌, ◌<◌, ◌≡◌, ◌⊎◌, ◌↔◌, refl, arith, [], ◌∷◌, true, All, length, Bytes}
use alkaidlab_fw.SafeId.{is_safe_char, all_safe, is_safe_id}

-- A letter, a digit or a dash, by its code.
abbrev pub IsSafeChar : ℕ → Type 0
IsSafeChar c = ((97 ≤ c) × (c ≤ 122)) ⊎ (((65 ≤ c) × (c ≤ 90)) ⊎ (((48 ≤ c) × (c ≤ 57)) ⊎ (c ≡ 45)))

is_safe_char_iff : (c : ℕ) → (is_safe_char c ≡ true) ↔ IsSafeChar c
is_safe_char_iff c = (λ e. ground arith, λ h. ground arith)

all_safe_iff : (s : Bytes) → (all_safe s ≡ true) ↔ All IsSafeChar s
unfolding all_safe
all_safe_iff [] = (λ e. tt, λ h. refl)
all_safe_iff (c ∷ s) = (
  λ e. ground (arith, is_safe_char_iff c, all_safe_iff s),
  λ h. ground (arith, is_safe_char_iff c, all_safe_iff s),
)

-- An identifier passes exactly if it has 1 to 64 bytes and each is a letter, a digit or a dash.
pub is_safe_id_iff :
    (s : Bytes) → (is_safe_id s ≡ true) ↔ ((0 < length s) × (length s ≤ 64) × All IsSafeChar s)
unfolding is_safe_id
is_safe_id_iff [] = (λ e. absurd cc, λ h. absurd (omega (arith, h.0)))
is_safe_id_iff (c ∷ s) = (
  λ e. (omega arith, ground arith, (all_safe_iff (c ∷ s)).0 (ground arith)),
  λ h. ground (arith, h.1, (all_safe_iff (c ∷ s)).1 h.2),
)
