-- ===== src/Ssrf.antt =====
-- src/lib/ssrf.ts, which base URLs a provider may have. A host is the list of its character codes.
-- The URL parser, `isIP`, `toLowerCase` and the name server are the platform's: parameters.
pub mod Hosts
use Prim.Native.Char.{code}
use Prim.Native.String
use vibe_ai_router.Common.{
  ℕ, zero, suc, String, Bool, true, false, not, ◌&&◌, ◌||◌, Option, none, some, List, [], ◌∷◌, any,
  ◌==◌, str_eq, length, if◌then◌else◌,
}
use vibe_ai_router.Db.{ProviderKind, is_local_kind}
use mathlib.Core.List.{reverse}

-- The character codes of a text.
abbrev pub codes : String → List ℕ
codes String.[] = []
codes (String.◌∷◌ c s) = code c ∷ codes s

abbrev pub same_text : List ℕ → List ℕ → Bool
same_text [] [] = true
same_text (a ∷ s) (b ∷ t) = let rest = same_text s t in if a == b then rest else false
same_text _ _ = false

-- `s.startsWith(t)`
abbrev pub starts_with : List ℕ → List ℕ → Bool
starts_with s [] = true
starts_with [] (b ∷ t) = false
starts_with (a ∷ s) (b ∷ t) = let rest = starts_with s t in if a == b then rest else false

abbrev pub ends_with : List ℕ → List ℕ → Bool
ends_with s t = starts_with (reverse s) (reverse t)

abbrev pub drop : ℕ → List ℕ → List ℕ
drop zero s = s
drop (suc n) [] = []
drop (suc n) (c ∷ s) = drop n s

pub data HostClass : Type 0 where
  loopback private linklocal metadata dockerdns public : HostClass

-- /^172\.(1[6-9]|2\d|3[01])\./
abbrev pub private_172 : List String
private_172 =
    "172.16." ∷ "172.17." ∷ "172.18." ∷ "172.19." ∷ "172.20." ∷ "172.21." ∷ "172.22." ∷ "172.23."
    ∷ "172.24." ∷ "172.25." ∷ "172.26." ∷ "172.27." ∷ "172.28." ∷ "172.29." ∷ "172.30." ∷ "172.31."
    ∷ []

-- `new URL(baseUrl)`, as far as the checks read it.
pub record Url : Type 0 where
  pub protocol : String
  pub hostname : List ℕ

pub record Platform : Type 0 where
  pub parse_url : String → Option Url
  pub is_ip : List ℕ → Bool
  pub to_lower_case : List ℕ → List ℕ
  pub resolve : List ℕ → Option (List (List ℕ))

-- The tests of `classifyIp` on the address as it is written.
unfoldable pub is_metadata_ip : List ℕ → Bool
is_metadata_ip ip = same_text ip (codes "169.254.169.254")

unfoldable pub is_loopback_ip : List ℕ → Bool
is_loopback_ip ip =
    starts_with ip (codes "127.") || same_text ip (codes "0.0.0.0") || same_text ip (codes "::1")

unfoldable pub is_private_ip : List ℕ → Bool
is_private_ip ip =
    starts_with ip (codes "10.")
    || starts_with ip (codes "192.168.")
    || any (λ p. starts_with ip (codes p)) private_172

unfoldable pub is_linklocal_ip : List ℕ → Bool
is_linklocal_ip ip = starts_with ip (codes "169.254.")

unfoldable pub classify_v4 : List ℕ → Option HostClass
classify_v4 ip =
    if is_metadata_ip ip
    then some metadata
    else if is_loopback_ip ip
    then some loopback
    else if is_private_ip ip
    then some private
    else if is_linklocal_ip ip
    then some linklocal
    else none

-- `ip.replace(/^\[|\]$/g, '')`
abbrev strip_front : List ℕ → List ℕ
strip_front [] = []
strip_front (c ∷ s) = if c == b'[' then s else c ∷ s

abbrev strip_back : List ℕ → List ℕ
strip_back [] = []
strip_back (c ∷ []) = if c == b']' then [] else c ∷ []
strip_back (c ∷ d ∷ s) = c ∷ strip_back (d ∷ s)

abbrev pub bare_host : List ℕ → List ℕ
bare_host hostname = strip_back (strip_front hostname)

module _ (platform : Platform) where
  open platform use {parse_url, is_ip, to_lower_case, resolve}

  -- A mapped address is classified by what follows its prefix, which is shorter: so many rounds as
  -- there are characters are enough.
  unfoldable pub classify_ip : ℕ → List ℕ → HostClass
  classify_ip zero ip = public
  classify_ip (suc fuel) ip =
      let lower = to_lower_case ip in
      let mapped = classify_ip fuel (drop 7 lower) in
      elim (classify_v4 ip) [
        | some cls ↦ cls
        | none ↦
            if starts_with lower (codes "fe80:")
            then linklocal
            else if starts_with lower (codes "fc") || starts_with lower (codes "fd")
            then private
            else if starts_with lower (codes "::ffff:")
            then mapped
            else public
      ]

  unfoldable pub classify_host : List ℕ → HostClass
  classify_host hostname =
      let bare = bare_host hostname in
      let lower = to_lower_case bare in
      if is_ip bare
      then classify_ip (suc (length bare)) bare
      else if same_text lower (codes "localhost") || ends_with lower (codes ".localhost")
      then loopback
      else if ends_with lower (codes ".local")
          || ends_with lower (codes ".internal")
          || ends_with lower (codes ".lan")
      then private
      else if not (any (λ c. c == b'.') lower)
      then dockerdns
      else public

  abbrev is_public : HostClass → Bool
  is_public public = true
  is_public _ = false

  abbrev is_metadata : HostClass → Bool
  is_metadata metadata = true
  is_metadata _ = false

  -- `checkBaseUrl` on the parsed URL; the answer is `verdict.ok`.
  unfoldable pub check_url : ProviderKind → Option Url → Bool
  check_url kind none = false
  check_url kind (some url) =
      let cls = classify_host url.hostname in
      if is_local_kind kind
      then (if is_public cls then false else not (is_metadata cls))
      else (if str_eq url.protocol "https:" then is_public cls else false)

  unfoldable pub check_base_url : ProviderKind → String → Bool
  check_base_url kind base_url = check_url kind (parse_url base_url)

  -- All addresses of a name are public.
  abbrev all_public : Option (List (List ℕ)) → Bool
  all_public none = false
  all_public (some addresses) =
      not (any (λ ip. not (is_public (classify_ip (suc (length ip)) ip))) addresses)

  -- `checkBaseUrlWithDns`
  unfoldable pub check_base_url_with_dns : ProviderKind → String → Bool
  check_base_url_with_dns kind base_url =
      if not (check_base_url kind base_url) || is_local_kind kind
      then check_base_url kind base_url
      else elim (parse_url base_url) [
        | none ↦ false
        | some url ↦
            if is_ip (bare_host url.hostname) then true else all_public (resolve url.hostname)
      ]
