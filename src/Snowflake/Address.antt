-- ===== src/Snowflake/Address.antt =====
-- The hardware address that `getHostMacHash` takes from the interfaces of the host (src/IdUtil.cpp,
-- the branch for POSIX); the list of `getifaddrs` is an argument.
use alkaidlab_fw.Base.{
  ℕ, ◌≡◌, refl, List, [], ◌∷◌, Option, none, some, Bool, true, false, not, ◌&&◌, ◌==◌,
  if◌then◌else◌, Bytes, codes, bytes_eq, take,
}
use alkaidlab_fw.Base.Int.{ℤ}
use alkaidlab_fw.Snowflake.Numbers.{get_host_mac_hash}

-- `sockaddr_ll` of an interface whose family is AF_PACKET: the length of the address and its eight
-- bytes.
pub record LinkAddress : Type 0 where
  pub halen : ℕ
  pub addr : Bytes

-- `no_address` is a null `ifa_addr`, `other_family` one of another family.
pub data InterfaceAddress : Type 0 where
  no_address : InterfaceAddress
  other_family : InterfaceAddress
  packet : LinkAddress → InterfaceAddress

pub record Interface : Type 0 where
  pub name : Bytes
  pub address : InterfaceAddress

unfoldable pub all_zero : Bytes → Bool
all_zero [] = true
all_zero (c ∷ s) = let rest = all_zero s in if not (c == 0) then false else rest

-- The loop over the interfaces.
unfoldable pub find_address : List Interface → Option Bytes
find_address [] = none
find_address (i ∷ interfaces) =
    let rest = find_address interfaces in
    elim i.address [
      | no_address ↦ rest
      | other_family ↦ rest
      | packet s ↦
          if bytes_eq i.name (codes "lo")
          then rest
          else if not (all_zero (take 6 s.addr)) && (s.halen == 6)
          then some (take 6 s.addr)
          else rest
    ]

-- `interfaces` is `none` where `getifaddrs` fails.
unfoldable pub host_hash : Bytes → Option (List Interface) → ℤ
host_hash hostname none = get_host_mac_hash hostname none
host_hash hostname (some interfaces) = get_host_mac_hash hostname (find_address interfaces)

-- An interface that the loop takes.
abbrev pub is_suitable : Interface → Bool
is_suitable i = elim i.address [
  | no_address ↦ false
  | other_family ↦ false
  | packet s ↦
      not (bytes_eq i.name (codes "lo")) && (not (all_zero (take 6 s.addr)) && (s.halen == 6))
]

abbrev pub address_of : Interface → Bytes
address_of i = elim i.address [ no_address ↦ [] | other_family ↦ [] | packet s ↦ take 6 s.addr ]

abbrev pub filter_suitable : List Interface → List Interface
filter_suitable [] = []
filter_suitable (i ∷ interfaces) =
    let rest = filter_suitable interfaces in if is_suitable i then i ∷ rest else rest

abbrev pub first_address : List Interface → Option Bytes
first_address [] = none
first_address (i ∷ interfaces) = some (address_of i)

-- The loop takes the address of the first interface that is a packet socket, is not the loopback by
-- its name, and has six bytes that are not all zero.
pub find_address_lem :
    (interfaces : List Interface)
    → find_address interfaces ≡ first_address (filter_suitable interfaces)
unfolding find_address
find_address_lem [] = refl
find_address_lem (i ∷ interfaces) = by (find_address_lem interfaces) i.address
  where
    by :
        find_address interfaces ≡ first_address (filter_suitable interfaces)
        → (a : InterfaceAddress)
        → (elim a [
          | no_address ↦ find_address interfaces
          | other_family ↦ find_address interfaces
          | packet s ↦
              if bytes_eq i.name (codes "lo")
              then find_address interfaces
              else if not (all_zero (take 6 s.addr)) && (s.halen == 6)
              then some (take 6 s.addr)
              else find_address interfaces
        ])
          ≡ first_address (filter_suitable ((record i { address = a }) ∷ interfaces))
    by same no_address = same
    by same other_family = same
    by same (packet s) =
        two (bytes_eq i.name (codes "lo")) (not (all_zero (take 6 s.addr)) && (s.halen == 6))
      where
        two :
            (l g : Bool)
            → (if l
                then find_address interfaces
                else if g
                then some (take 6 s.addr)
                else find_address interfaces)
              ≡ first_address (
                  if not l && g
                  then (record i { address = packet s }) ∷ filter_suitable interfaces
                  else filter_suitable interfaces)
        two true g = same
        two false true = refl
        two false false = same
