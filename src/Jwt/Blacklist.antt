-- ===== src/Jwt/Blacklist.antt =====
-- The list of revoked tokens of src/JwtUtil.cpp. Each function holds `s_blacklistMutex` for its
-- whole body, so that one call is one step. A time is a number of seconds, and the set's size stays
-- in the range of `int`.
pub mod Bounds
pub mod Eviction
use alkaidlab_fw.Base.{
  ℕ, zero, suc, ◌+◌, ◌≡◌, Bytes, List, [], ◌∷◌, ◌++◌, Bool, true, false, ◌&&◌, ◌==◌, ltb, leb,
  if◌then◌else◌, bytes_eq, length,
}
use alkaidlab_fw.Base.Int.{ℤ, pos, ltb_ℤ, leb_ℤ}
use alkaidlab_fw.Jwt.Claims.{get_exp}

-- `RevokedEntry`
pub record Entry : Type 0 where
  pub token : Bytes
  pub expire_at : ℕ

-- `operator<` of std::string
unfoldable pub less : Bytes → Bytes → Bool
less [] [] = false
less [] (_ ∷ _) = true
less (_ ∷ _) [] = false
less (a ∷ s) (b ∷ t) =
    let rest = less s t in if ltb a b then true else if ltb b a then false else rest

-- The static members. `entries` is the set in its order; `persisted` is what the callback was given.
pub record Blacklist : Type 0 where
  pub entries : List Entry
  pub max_entries : ℤ
  pub has_callback : Bool
  pub persisted : List Entry

-- `std::set::insert`: an entry with the token of another one is not inserted.
unfoldable pub insert : Entry → List Entry → List Entry
insert e [] = e ∷ []
insert e (x ∷ xs) =
    let rest = insert e xs in
    if less e.token x.token then e ∷ x ∷ xs else if less x.token e.token then x ∷ rest else x ∷ xs

-- The clean-up loop over the set.
unfoldable pub sweep : ℕ → List Entry → List Entry
sweep now [] = []
sweep now (x ∷ xs) = let rest = sweep now xs in if leb x.expire_at now then rest else x ∷ rest

-- The loop that looks for the entry that expires first.
unfoldable pub oldest_from : Entry → List Entry → Entry
oldest_from best [] = best
oldest_from best (x ∷ xs) = oldest_from (if ltb x.expire_at best.expire_at then x else best) xs

abbrev pub same_entry : Entry → Entry → Bool
same_entry x y = bytes_eq x.token y.token && (x.expire_at == y.expire_at)

-- `s_blacklist.erase(it)`
unfoldable pub erase : Entry → List Entry → List Entry
erase e [] = []
erase e (x ∷ xs) = let rest = erase e xs in if same_entry x e then xs else x ∷ rest

abbrev pub is_full : ℤ → ℕ → Bool
is_full max size = ltb_ℤ (pos 0) max && leb_ℤ max (pos size)

-- The eviction loop; each round takes one entry away, so the number of entries is enough fuel.
unfoldable pub evict : ℕ → ℤ → List Entry → List Entry
evict zero max es = es
evict (suc fuel) max [] = []
evict (suc fuel) max (x ∷ xs) =
    let fewer = evict fuel max (erase (oldest_from x xs) (x ∷ xs)) in
    if is_full max (length (x ∷ xs)) then fewer else x ∷ xs

abbrev pub make_room : ℕ → ℤ → List Entry → List Entry
make_room now max es = let live = sweep now es in evict (length live) max live

-- `JwtUtil::revoke`
unfoldable pub revoke : ℕ → Bytes → Blacklist → Blacklist
revoke now token b =
    if get_exp token == 0
    then b
    else (let entry : Entry = record { token = token; expire_at = get_exp token } in
        record b {
          entries = insert entry (make_room now b.max_entries b.entries);
          persisted = if b.has_callback then entry ∷ b.persisted else b.persisted;
        })

-- `s_blacklist.find(query) != s_blacklist.end()`
unfoldable pub contains : Bytes → List Entry → Bool
contains t [] = false
contains t (x ∷ xs) = if bytes_eq x.token t then true else contains t xs

-- `JwtUtil::isRevoked`
abbrev pub is_revoked : Bytes → Blacklist → Bool
is_revoked token b = contains token b.entries

-- `JwtUtil::cleanup`
unfoldable pub cleanup : ℕ → Blacklist → Blacklist
cleanup now b = record b { entries = sweep now b.entries }

-- `JwtUtil::setPersistCallback`: the argument tells whether the function is not empty.
unfoldable pub set_persist_callback : Bool → Blacklist → Blacklist
set_persist_callback given b = record b { has_callback = given }

-- `JwtUtil::loadEntries`
insert_all : List Entry → List Entry → List Entry
insert_all [] es = es
insert_all (e ∷ loaded) es = insert_all loaded (insert e es)

unfoldable pub load_entries : List Entry → Blacklist → Blacklist
unfolding insert_all
load_entries loaded b = record b { entries = insert_all loaded b.entries }

-- `JwtUtil::setMaxEntries`
unfoldable pub set_max_entries : ℤ → Blacklist → Blacklist
set_max_entries max b = record b { max_entries = max }

-- `JwtUtil::getBlacklistSize`
abbrev pub blacklist_size : Blacklist → ℕ
blacklist_size b = length b.entries
