-- ===== src/Server/Resolve/SecureTests.antt =====
-- The theorems about resolutions where DNSSEC is on, on a network where each server gives the same
-- answer.
use km_resolv.Prelude.{
  ℕ, true, false, none, some, [], ◌∷◌, Text, codes, Result, ◌==◌, nat_eq, list_eq,
}
use km_resolv.Dns.{Message}
use km_resolv.Dns.Name.{pack_name}
use km_resolv.Cache as Cache
use km_resolv.Config.{Config, defaults}
use km_resolv.Dnssec.Verify.{Crypto}
use km_resolv.Server.Query.{Upstream}
use km_resolv.Server.Answers.{materialize_rr, plain_rdata}
use km_resolv.Server.Iterate.{resolve_from_root}
use km_resolv.Server.Secure.Resolve as Walk
use km_resolv.Records.Build.{invalid}
use km_resolv.Server.Boot.{end_prefetch}
use km_resolv.Server.Resolve.Fixture.{network, crypto, answer, a_record, message, start, resolving}

-- an answer with a CNAME to t, whose address the cache holds
abbrev alias : Text
alias =
    0 ∷ 7 ∷ 129 ∷ 128 ∷ 0 ∷ 0 ∷ 0 ∷ 1 ∷ 0 ∷ 0 ∷ 0 ∷ 0 ∷ 0 ∷ 0 ∷ 5 ∷ 0 ∷ 1 ∷ 0 ∷ 0 ∷ 0 ∷ 60 ∷ 0 ∷ 3
    ∷ 1 ∷ b't' ∷ 0 ∷ []

abbrev knows : Upstream ℕ
knows = record start { cache = Cache.put (codes "t", 1) message 5 start.cache }

abbrev walked : Upstream ℕ × Walk.Answer
walked =
    Walk.resolve_at_dnssec (network alias) crypto [] defaults 3 (codes "a") 1 (codes "h" ∷ [])
      (record { zone = codes "."; keys = [] }) knows

abbrev aliased : Message
aliased = record {
  header = message.header;
  questions = [];
  answers =
      record { name = []; type = 5; class = 1; ttl = 60; rdata = 1 ∷ b't' ∷ 0 ∷ []; offset = 0 }
      ∷ record a_record { offset = 0 }
      ∷ [];
  authority = [];
  additional = [];
  raw = [];
}

unfoldable walking : Unit {0}
unfolding resolving Walk.resolve_at_dnssec Walk.sec_try_servers Walk.sec_digested Walk.sec_answered
    Walk.sec_follow_cname Walk.check_if_keyed Walk.sec_target materialize_rr plain_rdata pack_name
walking = tt

-- DNSSEC is on, and no signature is good.
abbrev secured : Config
secured = record defaults { resolver = record defaults.resolver { dnssec = true } }

abbrev no_crypto : Crypto
no_crypto = record {
  digest = λ type data'. [];
  rsa = λ hash n e data' signature. false;
  ecdsa = λ curve x y r s data'. false;
  ed25519 = λ key data' signature. false;
}

abbrev iterated : Upstream ℕ × Result Message
iterated = resolve_from_root (network answer) secured (codes "a") 1 start

abbrev prefetched : Upstream ℕ
prefetched =
    end_prefetch (network answer) no_crypto [] (λ e. none) (λ (s : Text). some s)
      (λ (s : Text). some s) (λ net ip. net == ip) (λ c. none) (λ path text (fs : Text). none)
      (λ r. invalid) secured (codes "a") 1 0 start
