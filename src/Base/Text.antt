-- ===== src/Base/Text.antt =====
-- Byte strings: a `std::string` is the list of its bytes, and the searches of `std::string`.
use Prim.Native.Nat.{ℕ, ◌+◌, suc}
use Prim.Native.Char.{code}
use Prim.Native.String.{String}
use mathlib.Core.Path.{◌≡◌, refl}
use mathlib.Core.Logic.{◌↔◌, ◌≢◌}
use mathlib.Core.Bool.{Bool, true, false, ◌&&◌}
use mathlib.Core.Option.{Option, none, some}
use mathlib.Core.List.{List, [], ◌∷◌, ◌++◌, map}
use native.Mathlib.Omega.{arith}
use alkaidlab_fw.Base.Tests.{leb, ◌==◌, ◌>>=◌, if◌then◌else◌}
use alkaidlab_fw.Base.Lists.{All}

abbrev pub Bytes : Type 0
Bytes = List ℕ

-- The code points of a text: its bytes, for the ASCII literals of the program.
abbrev pub codes : String → Bytes
codes String.[] = []
codes (String.◌∷◌ c s) = code c ∷ codes s

abbrev pub bytes_eq : Bytes → Bytes → Bool
bytes_eq [] [] = true
bytes_eq [] (_ ∷ _) = false
bytes_eq (_ ∷ _) [] = false
bytes_eq (a ∷ s) (b ∷ t) = (a == b) && bytes_eq s t

pub bytes_eq_iff : (s t : Bytes) → (bytes_eq s t ≡ true) ↔ (s ≡ t)
bytes_eq_iff [] [] = (λ _. refl, λ _. refl)
bytes_eq_iff [] (b ∷ t) = (λ e. cc, λ e. cc)
bytes_eq_iff (a ∷ s) [] = (λ e. cc, λ e. cc)
bytes_eq_iff (a ∷ s) (b ∷ t) =
    (λ e. ground (arith, bytes_eq_iff s t), λ e. ground (arith, bytes_eq_iff s t))

pub bytes_eq_refl : (s : Bytes) → bytes_eq s s ≡ true
bytes_eq_refl s = (bytes_eq_iff s s).1 refl

-- `s.find(c)`; `none` is `npos`.
abbrev pub find : ℕ → Bytes → Option ℕ
find c [] = none
find c (x ∷ s) = if x == c then some 0 else (find c s >>= λ i. some (suc i))

-- `s.compare(0, p.size(), p) == 0` at sufficient length.
abbrev pub starts_with : Bytes → Bytes → Bool
starts_with [] s = true
starts_with (_ ∷ _) [] = false
starts_with (a ∷ p) (b ∷ s) = (a == b) && starts_with p s

-- The text from the first occurrence of `p` on; `none` is `npos`.
abbrev pub find_text : Bytes → Bytes → Option Bytes
find_text p [] = if starts_with p [] then some [] else none
find_text p (x ∷ s) = if starts_with p (x ∷ s) then some (x ∷ s) else find_text p s

-- The text cut at the first `c`: what stands before it and what stands behind it.
abbrev pub split_at : ℕ → Bytes → Option (Bytes × Bytes)
split_at c [] = none
split_at c (x ∷ s) = if x == c then some ([], s) else (split_at c s >>= λ p. some (x ∷ p.0, p.1))

-- A cut at the first `c` behind a text without it.
pub split_at-append :
    (c : ℕ) (h r : Bytes) → All (λ x. x ≢ c) h → split_at c (h ++ (c ∷ r)) ≡ some (h, r)
split_at-append c [] r ok = ground arith
split_at-append c (x ∷ h) r ok = ground (arith, split_at-append c h r ok.1)

-- `std::tolower` and `boost::to_lower` of the C locale.
abbrev pub to_lower : ℕ → ℕ
to_lower c = if leb 65 c && leb c 90 then c + 32 else c

unfoldable pub lower : Bytes → Bytes
lower s = map to_lower s
