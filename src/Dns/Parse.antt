-- ===== src/Dns/Parse.antt =====
-- Reading a message: ParseMessage and parseRRs of
-- internal/dns/message.go.
use km_resolv.Prelude.{
  ℕ, zero, suc, ◌+◌, ◌*◌, List, [], ◌∷◌, ◌++◌, Text, codes, Result, ok, err, ◌>>=◌, nat_eq, list_eq,
  ltb, length, if◌then◌else◌,
}
use km_resolv.Dns.{Header, Question, Rr, Message}
use km_resolv.Dns.Name.{u16_at, slice, parse_name}

-- binary.BigEndian.Uint32(buf[i : i+4])
unfoldable pub u32_at : Text → ℕ → ℕ
unfolding u16_at
u32_at buf i = u16_at buf i * 65536 + u16_at buf (i + 2)

-- fmt.Errorf("...: %w", err)
abbrev pub wrap {ℓ} : {A : Type ℓ} → Text → Result A → Result A
wrap s (ok a) = ok a
wrap s (err e) = err (s ++ e)

-- the loop over the question section, QDCount rounds
unfoldable pub parse_questions : Text → ℕ → ℕ → Result (List Question × ℕ)
unfolding u16_at parse_name
parse_questions buf offset zero = ok ([], offset)
parse_questions buf offset (suc count) = do
  (name, n) ← wrap (codes "question name: ") (parse_name buf offset)
  if ltb (length buf) (n + 4) then err (codes "question section truncated") else do
    (rest, stop) ← parse_questions buf (n + 4) count
    ok (record { name = name; type = u16_at buf n; class = u16_at buf (n + 2) } ∷ rest, stop)

unfoldable pub parse_rrs : Text → ℕ → ℕ → Result (List Rr × ℕ)
unfolding u16_at u32_at parse_name
parse_rrs buf offset zero = ok ([], offset)
parse_rrs buf offset (suc count) = do
  (name, n) ← wrap (codes "rr name: ") (parse_name buf offset)
  if ltb (length buf) (n + 10) then err (codes "rr fixed fields truncated") else do
    let rdlen = u16_at buf (n + 8)
    if ltb (length buf) (n + 10 + rdlen) then err (codes "rdata truncated") else do
      (rest, stop) ← parse_rrs buf (n + 10 + rdlen) count
      ok (
        record {
          name = name;
          type = u16_at buf n;
          class = u16_at buf (n + 2);
          ttl = u32_at buf (n + 4);
          rdata = slice buf (n + 10) rdlen;
          offset = n + 10;
        }
            ∷ rest,
        stop,
      )

unfoldable pub parse_message : Text → Result Message
unfolding u16_at parse_questions parse_rrs
parse_message buf = if ltb (length buf) 12 then err (codes "message too short") else do
  let header : Header = record {
    id = u16_at buf 0;
    flags = u16_at buf 2;
    qd_count = u16_at buf 4;
    an_count = u16_at buf 6;
    ns_count = u16_at buf 8;
    ar_count = u16_at buf 10;
  }
  (questions, q) ← parse_questions buf 12 (u16_at buf 4)
  (answers, a) ← parse_rrs buf q (u16_at buf 6)
  (authority, n) ← parse_rrs buf a (u16_at buf 8)
  (additional, _) ← parse_rrs buf n (u16_at buf 10)
  ok (record {
    header = header;
    questions = questions;
    answers = answers;
    authority = authority;
    additional = additional;
    raw = buf;
  })

-- ParseNameRdata and the callers of ParseName that keep the name alone
unfoldable pub name_at : Text → ℕ → Result Text
unfolding parse_name
name_at buf offset = do (name, _) ← parse_name buf offset; ok name
