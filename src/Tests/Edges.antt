-- ===== src/Tests/Edges.antt =====
-- The base URLs of providers.
use vibe_ai_router.Common.{◌≡◌, refl, true, false, inl, inr}
use vibe_ai_router.Db.{local, openai_compat}
use vibe_ai_router.Ssrf.{
  codes, Url, is_metadata_ip, is_loopback_ip, is_private_ip, is_linklocal_ip, classify_v4,
  classify_ip, classify_host, check_url, check_base_url, public,
}
use vibe_ai_router.Ssrf.Hosts.{check_base_url_inside}
use vibe_ai_router.Tests.Sample.{platform}

unfoldable code : Unit {0}
unfolding is_metadata_ip is_loopback_ip is_private_ip is_linklocal_ip classify_v4 classify_ip
    classify_host check_url check_base_url
code = tt

abbrev lan : Url
lan = record { protocol = "http:"; hostname = codes "10.0.0.7" }

check_base_url_inside_example : check_base_url platform openai_compat "http://10.0.0.7" ≡ false
check_base_url_inside_example =
    check_base_url_inside platform openai_compat "http://10.0.0.7" lan refl refl refl
      (inr (inl refl))

lan_for_local : check_base_url platform local "http://10.0.0.7" ≡ true
unfolding code
lan_for_local = refl

-- The loopback address as the parser of URLs writes it when it is mapped to IPv6.
mapped_loopback : classify_host platform (codes "[::ffff:7f00:1]") ≡ public
unfolding code
mapped_loopback = refl
