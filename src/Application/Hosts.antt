-- ===== src/Application/Hosts.antt =====
-- The host that a request names (src/Application.cpp, `isAllowedHost` and `setServerName`).
use alkaidlab_fw.Base.{
  lower, ℕ, suc, ◌<◌, ◌≡◌, ◌≢◌, refl, arith, ap, List, [], ◌∷◌, ◌++◌, Option, none, some, true,
  ◌==◌, ltb, if◌then◌else◌, Bytes, take, All, length,
}
use alkaidlab_fw.Application.{Application, rfind, member, strip_port, is_allowed_host}

rfind-absent : (c : ℕ) (s : Bytes) → All (λ x. x ≢ c) s → rfind c s ≡ none
unfolding rfind
rfind-absent c [] h = refl
rfind-absent c (x ∷ s) h = rw (rfind-absent c s h.1) (ground arith)

rfind-last : (c : ℕ) (s p : Bytes) → All (λ x. x ≢ c) p → rfind c (s ++ (c ∷ p)) ≡ some (length s)
unfolding rfind
rfind-last c [] p h = rw (rfind-absent c p h) (ground arith)
rfind-last c (x ∷ s) p h = rw (rfind-last c s p h) refl

-- The position found, if there is one, lies before `n`.
abbrev IsBefore : ℕ → Option ℕ → Type 0
IsBefore n none = Unit
IsBefore n (some i) = i < n

rfind-IsBefore :
    (c d : ℕ) (s p : Bytes)
    → c ≢ d
    → All (λ x. x ≢ c) p
    → IsBefore (length s) (rfind c (s ++ (d ∷ p)))
unfolding rfind
rfind-IsBefore c d [] p ne h = rw (rfind-absent c p h) (ground arith)
rfind-IsBefore c d (x ∷ s) p ne h = go (rfind c (s ++ (d ∷ p))) (rfind-IsBefore c d s p ne h)
  where
    go :
        (o : Option ℕ)
        → IsBefore (length s) o
        → IsBefore
            (length (x ∷ s))
            (elim o [ some i ↦ some (suc i) | none ↦ if x == c then some 0 else none ])
    go none before = ground arith
    go (some i) before = omega arith

take-append : (s t : Bytes) → take (length s) (s ++ t) ≡ s
take-append [] t = refl
take-append (x ∷ s) t = ap (λ (r : Bytes). x ∷ r) (take-append s t)

strip_port-append :
    (host port : Bytes)
    → All (λ x. x ≢ 58) port
    → All (λ x. x ≢ 93) port
    → strip_port (host ++ (58 ∷ port)) ≡ host
unfolding strip_port
strip_port-append host port colons brackets =
    rw (strip_port, rfind-last 58 host port colons)
      (go (rfind 93 (host ++ (58 ∷ port))) (rfind-IsBefore 93 58 host port (omega arith) brackets))
  where
    go :
        (o : Option ℕ)
        → IsBefore (length host) o
        → elim o [
          | none ↦ take (length host) (host ++ (58 ∷ port))
          | some bracket ↦
              if ltb bracket (length host)
              then take (length host) (host ++ (58 ∷ port))
              else host ++ (58 ∷ port)
        ]
          ≡ host
    go none before = take-append host (58 ∷ port)
    go (some i) before = ground (arith, take-append host (58 ∷ port))

-- With names configured, a host with a port behind its last colon is allowed exactly if the host
-- alone, in lower case, is among the names; the host may itself hold colons, as an IPv6 address
-- in brackets does, and letters of either case. Without configured names any host is allowed.
pub is_allowed_host_lem :
    (a : Application) (host port : Bytes)
    → All (λ x. x ≢ 58) port
    → All (λ x. x ≢ 93) port
    → (a.allowed_names ≢ []
        → is_allowed_host (host ++ (58 ∷ port)) a ≡ member (lower host) a.allowed_names)
      × (a.allowed_names ≡ [] → is_allowed_host (host ++ (58 ∷ port)) a ≡ true)
unfolding is_allowed_host
is_allowed_host_lem a host port colons brackets = go a.allowed_names
  where
    go :
        (names : List Bytes)
        → (names ≢ []
            → elim names [
              | [] ↦ true
              | n ∷ rest ↦ member (lower (strip_port (host ++ (58 ∷ port)))) (n ∷ rest)
            ]
              ≡ member (lower host) names)
          × (names ≡ []
              → elim names [
                | [] ↦ true
                | n ∷ rest ↦ member (lower (strip_port (host ++ (58 ∷ port)))) (n ∷ rest)
              ]
                ≡ true)
    go [] = (λ some_name. absurd (some_name refl), λ e. refl)
    go (n ∷ rest) = (
      λ some_name.
          ap (λ (s : Bytes). member (lower s) (n ∷ rest))
            (strip_port-append host port colons brackets),
      λ e. absurd cc,
    )
