-- ===== src/Server/AnswerTests.antt =====
-- The theorems about the names of answers, at a concrete packet.
use km_resolv.Prelude.{
  ◌≡◌, inl, refl, some, [], ◌∷◌, ◌++◌, Text, codes, ok, arith, replicate, split_dots,
}
use km_resolv.Dns.{Rr}
use km_resolv.Dns.Name.{parse_name}
use km_resolv.Dns.Pack.{rdata_name}
use km_resolv.Server.Answers.{materialize_rr}
use km_resolv.Server.Answers.Targets.{rdata_name-materialize_rr}

-- A packet with `de` at 12 and `a`, with a pointer to it, at 16.
abbrev packet : Text
packet = replicate 12 0 ++ (2 ∷ b'd' ∷ b'e' ∷ 0 ∷ 1 ∷ b'a' ∷ 192 ∷ 12 ∷ [])

abbrev alias : Rr
alias = record {
  name = codes "b.de";
  type = 5;
  class = 1;
  ttl = 60;
  rdata = 1 ∷ b'a' ∷ 192 ∷ 12 ∷ [];
  offset = 16;
}

target : parse_name packet 16 ≡ ok (codes "a.de", 20)
unfolding parse_name
target = refl

rdata_name-materialize_rr_example :
    rdata_name (materialize_rr packet alias) packet ≡ some (codes "a.de")
unfolding split_dots
rdata_name-materialize_rr_example =
    rdata_name-materialize_rr packet packet alias (codes "a.de") 20 (inl refl) (omega arith) target
      ((omega arith, omega arith), ((omega arith, omega arith), tt))
