-- ===== src/Server/Verdict.antt =====
-- What internal/server/resolver.go makes of what it reads from a server, and the texts of its errors.
use km_resolv.Prelude.{
  ℕ, zero, suc, ◌+◌, ◌/◌, ◌%◌, Bool, true, false, not, ◌&&◌, [], ◌∷◌, ◌++◌, Text, codes, Result, ok,
  err, ◌==◌, nat_eq, list_eq, ltb, contains, if◌then◌else◌,
}
use km_resolv.Dns.{Message, rcode, bit, rcode_no_error, rcode_nx_domain}
use km_resolv.Dns.Parse.{parse_message}

-- the digits of a number in front of a text, with fuel for them
unfoldable pub decimal_from : ℕ → ℕ → Text → Text
decimal_from zero n rest = rest
decimal_from (suc fuel) n rest =
    let out = (b'0' + n % 10) ∷ rest in
    let more = decimal_from fuel (n / 10) out in if ltb n 10 then out else more

-- %d of a number: it has no more digits than its value and one
unfoldable pub decimal : ℕ → Text
decimal n = decimal_from (n + 1) n []

unfoldable pub nxdomain_error : Text → Text
nxdomain_error name = codes "NXDOMAIN: " ++ (name ++ codes " does not exist")

-- strings.Contains(err.Error(), "NXDOMAIN")
abbrev pub is_nxdomain : Text → Bool
is_nxdomain e = contains e (codes "NXDOMAIN")

-- What differs in the texts of the errors of query, queryForwarder and queryTCPPool.
pub record Wording : Type 0 where
  pub dial : Text
  pub write : Text
  pub parse : Text
  pub mismatch : Text
  pub from : Text
  pub after : Text

abbrev pub query_wording : Wording
query_wording = record {
  dial = codes "dial: ";
  write = codes "write: ";
  parse = codes "parse response: ";
  mismatch = codes "response ID mismatch: got ";
  from = codes " from ";
  after = [];
}

abbrev pub forwarder_wording : Wording
forwarder_wording = record {
  dial = codes "dial: ";
  write = codes "write: ";
  parse = codes "parse: ";
  mismatch = codes "ID mismatch: got ";
  from = codes " from forwarder ";
  after = [];
}

abbrev pub tcp_wording : Wording
tcp_wording = record {
  dial = codes "tcp dial: ";
  write = codes "tcp write: ";
  parse = codes "tcp parse: ";
  mismatch = codes "tcp ID mismatch: got ";
  from = codes " from ";
  after = codes " (tcp)";
}

-- The end of an exchange: the answer, a retry over TCP, or an error, and whether the connection
-- has failed with it.
pub data Verdict : Type 0 where
  accepted : Message → Verdict
  truncated : Verdict
  refused : Bool → Text → Verdict

-- What is made of a message that could be parsed, to a request with an ID.
unfoldable pub judge : Wording → Bool → Text → Text → ℕ → Message → Verdict
judge w fallback server name id m =
    let code = rcode m.header.flags in
    if not (m.header.id == id)
    then refused true (w.mismatch ++ (decimal m.header.id ++ (codes " want " ++ decimal id)))
    else if code == rcode_nx_domain
    then refused false (nxdomain_error name)
    else if not (code == rcode_no_error)
    then refused false (codes "rcode " ++ (decimal code ++ (w.from ++ (server ++ w.after))))
    else if bit m.header.flags 9 && fallback
    then truncated
    else accepted m

abbrev pub judge_bytes : Wording → Bool → Text → Text → ℕ → Result Text → Verdict
judge_bytes w fallback server name id (err e) = refused true e
judge_bytes w fallback server name id (ok bytes) = elim (parse_message bytes) [
  | err e ↦ refused true (w.parse ++ e)
  | ok m ↦ judge w fallback server name id m
]

-- What queryDoH makes of a message.
abbrev pub judge_doh_message : Text → Text → Message → Result Message
judge_doh_message url name m =
    let code = rcode m.header.flags in
    if code == rcode_nx_domain
    then err (nxdomain_error name)
    else if not (code == rcode_no_error)
    then err (codes "rcode " ++ (decimal code ++ (codes " from doh " ++ url)))
    else ok m

abbrev pub prefixed {ℓ} : {A : Type ℓ} → Text → Result A → Result A
prefixed text (err e) = err (text ++ e)
prefixed text (ok a) = ok a

abbrev pub has_failed : Verdict → Bool
has_failed (accepted m) = false
has_failed truncated = false
has_failed (refused failed e) = failed

-- The result of an exchange over TCP, whose verdict is never `truncated`.
abbrev pub settled : Verdict → Result Message
settled (accepted m) = ok m
settled truncated = err []
settled (refused failed e) = err e
