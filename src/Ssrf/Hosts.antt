-- ===== src/Ssrf/Hosts.antt =====
-- Which hosts an accepted base URL can have.
use vibe_ai_router.Common.{
  ℕ, suc, String, ◌≡◌, ◌≢◌, refl, subst, ◌⊎◌, Bool, true, false, ◌||◌, some, List, inl, inr,
  Option-cases, arith, any, length, eq_iff,
}
use vibe_ai_router.Db.{ProviderKind, is_local_kind}
use vibe_ai_router.Ssrf.{
  codes, starts_with, HostClass, metadata, public, private_172, Url, Platform, is_loopback_ip,
  is_private_ip, is_linklocal_ip, classify_v4, bare_host, classify_ip, classify_host, check_url,
  check_base_url,
}

-- The addresses of this host, of private networks and of the link.
abbrev pub IsInside : List ℕ → Type 0
IsInside ip =
    (starts_with ip (codes "127.") ≡ true)
    ⊎ (starts_with ip (codes "10.") ≡ true)
    ⊎ (starts_with ip (codes "192.168.") ≡ true)
    ⊎ (any (λ p. starts_with ip (codes p)) private_172 ≡ true)
    ⊎ (starts_with ip (codes "169.254.") ≡ true)

or_left : (a b : Bool) → a ≡ true → (a || b) ≡ true
or_left true b h = refl
or_left false b h = cc

or_right : (a b : Bool) → b ≡ true → (a || b) ≡ true
or_right true b h = refl
or_right false b h = h

inside_tests :
    (ip : List ℕ)
    → IsInside ip
    → (is_loopback_ip ip ≡ true) ⊎ (is_private_ip ip ≡ true) ⊎ (is_linklocal_ip ip ≡ true)
unfolding is_loopback_ip is_private_ip is_linklocal_ip
inside_tests ip (inl h) = inl (or_left _ _ (or_left _ _ h))
inside_tests ip (inr (inl h)) = inr (inl (or_left _ _ (or_left _ _ h)))
inside_tests ip (inr (inr (inl h))) = inr (inl (or_left _ _ (or_right _ _ h)))
inside_tests ip (inr (inr (inr (inl h)))) = inr (inl (or_right _ _ h))
inside_tests ip (inr (inr (inr (inr h)))) = inr (inr h)

classify_v4_inside :
    (ip : List ℕ) → IsInside ip → (cls : HostClass) × (classify_v4 ip ≡ some cls) × (cls ≢ public)
unfolding classify_v4
classify_v4_inside ip h = elim (Option-cases (classify_v4 ip)) [
  | inl missed ↦ absurd (ground (arith, inside_tests ip h))
  | inr (cls, named) ↦ (cls, named, ground arith)
]

module _ (platform : Platform) where
  open platform use {parse_url, is_ip, to_lower_case}

  -- What the verdict says of a URL's class and protocol.
  abbrev pub IsAcceptable : ProviderKind → Url → Type 0
  IsAcceptable kind url =
      ((is_local_kind kind ≡ true)
        × (classify_host platform url.hostname ≢ public)
        × (classify_host platform url.hostname ≢ metadata))
      ⊎ ((is_local_kind kind ≡ false)
          × (url.protocol ≡ "https:")
          × (classify_host platform url.hostname ≡ public))

  check_url_sound :
      (kind : ProviderKind) (url : Url)
      → check_url platform kind (some url) ≡ true
      → IsAcceptable kind url
  unfolding check_url
  check_url_sound kind url e = ground (arith, eq_iff url.protocol "https:")

  -- An accepted base URL parses; for a provider of the local tier its host is classified neither
  -- as public nor as the metadata service, and for any other it is https with a host that is
  -- classified as public.
  pub check_base_url_sound :
      (kind : ProviderKind) (base_url : String)
      → check_base_url platform kind base_url ≡ true
      → (url : Url) × (parse_url base_url ≡ some url) × IsAcceptable kind url
  unfolding check_base_url check_url
  check_base_url_sound kind base_url e = elim (Option-cases (parse_url base_url)) [
    | inl bad ↦
        let no : false ≡ true = subst (λ o. check_url platform kind o ≡ true) bad e in absurd (cc)
    | inr (url, good) ↦
        (url, good, check_url_sound kind url (subst (λ o. check_url platform kind o ≡ true) good e))
  ]

  classify_ip_inside :
      (n : ℕ) (ip : List ℕ) → IsInside ip → classify_ip platform (suc n) ip ≢ public
  unfolding classify_ip
  classify_ip_inside n ip h =
      let (cls, named, inner) = classify_v4_inside ip h in rw (named, classify_ip) inner

  -- A provider outside the local tier is never given a base URL whose host is written as an IPv4
  -- address of this host, of a private network or of the link.
  pub check_base_url_inside :
      (kind : ProviderKind) (base_url : String) (url : Url)
      → is_local_kind kind ≡ false
      → parse_url base_url ≡ some url
      → is_ip (bare_host url.hostname) ≡ true
      → IsInside (bare_host url.hostname)
      → check_base_url platform kind base_url ≡ false
  unfolding check_base_url check_url classify_host
  check_base_url_inside kind base_url url far good ip inside =
      ground (
        arith,
        classify_ip_inside (length (bare_host url.hostname)) (bare_host url.hostname) inside,
      )
