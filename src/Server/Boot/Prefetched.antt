-- ===== src/Server/Boot/Prefetched.antt =====
-- What a prefetch leaves for resolve of internal/server/resolver.go: the function that New of
-- internal/server/server.go gives to SetPrefetchFn, and the end of the goroutine that calls it.
use km_resolv.Prelude.{ℕ, Bool, Option, Text, Result, nat_eq}
use km_resolv.Dns.{Message}
use km_resolv.Cache.{Cache}
use km_resolv.Cache.Hash.{key_eq}
use km_resolv.Config.{Config}
use km_resolv.Records.Build.{RecordConfig, Built}
use km_resolv.Dnssec.Verify.{Crypto}
use km_resolv.Dnssec.Zone.{Keys}
use km_resolv.Server.QueryLog.{QueryEntry}
use km_resolv.Server.Query.{Network, Upstream}
use km_resolv.Server.Boot.{prefetch_answer, end_prefetch}

module _ {World Net Ip Files : Type 0} (net : Network World) (crypto : Crypto) (anchors : Keys)
    (entry : QueryEntry → Option Text) (parse_cidr : Text → Option Net)
    (parse_ip : Text → Option Ip) (holds : Net → Ip → Bool) (marshal : Config → Option Text)
    (write_file : Text → Text → Files → Option Files) (build : RecordConfig → Built) (cfg : Config)
    (name : Text) (qtype : ℕ) where
  abbrev answer : Upstream World → Upstream World × Result Message
  answer =
      prefetch_answer net crypto anchors entry parse_cidr parse_ip holds marshal write_file build
        cfg name qtype

  abbrev prefetched : ℕ → Upstream World → Upstream World
  prefetched id s =
      end_prefetch net crypto anchors entry parse_cidr parse_ip holds marshal write_file build cfg
        name qtype id s
