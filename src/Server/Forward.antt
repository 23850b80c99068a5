-- ===== src/Server/Forward.antt =====
-- internal/server/resolver.go, resolution by the servers of a zone or by the forwarders.
pub mod Fallback
use km_resolv.Prelude.{
  ℕ, Bool, true, false, Option, none, some, List, [], ◌∷◌, ◌++◌, Text, codes, Result, ok, err,
  length, drop, has_prefix, if◌then◌else◌,
}
use km_resolv.Dns.{Message}
use km_resolv.Config.{Config}
use km_resolv.Server.Query.{Network, Upstream, query_doh, query_dot, query_forwarder}
use km_resolv.Server.Verdict.{is_nxdomain}

-- strings.TrimPrefix
abbrev pub trim_prefix : Text → Text → Text
trim_prefix s prefix = if has_prefix s prefix then drop (length prefix) s else s

module _ {World : Type 0} (net : Network World) where
  unfoldable pub forwarder_addr : Text → Text
  forwarder_addr server = if net.has_port server then server else server ++ codes ":53"

  unfoldable pub dot_addr : Text → Text
  dot_addr server =
      let addr = trim_prefix server (codes "tls://") in
      if net.has_port addr then addr else addr ++ codes ":853"

  module _ (cfg : Config) where
    -- the switch over the kinds of servers
    unfoldable pub ask_upstream : Text → Text → ℕ → Upstream World → Upstream World × Result Message
    ask_upstream upstream name qtype s =
        if has_prefix upstream (codes "https://")
        then query_doh net cfg upstream name qtype s
        else if has_prefix upstream (codes "tls://")
        then query_dot net cfg (dot_addr upstream) name qtype s
        else query_forwarder net cfg (forwarder_addr upstream) name qtype s

    -- resolveViaServers
    unfoldable pub resolve_via_servers :
        Text → ℕ → List Text → Upstream World → Upstream World × Result Message
    resolve_via_servers name qtype [] s = (s, err (codes "all forwarders failed for " ++ name))
    resolve_via_servers name qtype (upstream ∷ servers) s =
        let (s', answer) = ask_upstream upstream name qtype s in
        let rest = resolve_via_servers name qtype servers s' in
        elim answer [ ok m ↦ (s', ok m) | err e ↦ if is_nxdomain e then (s', err e) else rest ]

    unfoldable pub resolve_via_forwarder :
        Text → ℕ → Upstream World → Upstream World × Result Message
    resolve_via_forwarder name qtype s =
        resolve_via_servers name qtype cfg.resolver.forwarder.servers s
