-- ===== src/Server/Handle/Tests.antt =====
-- The theorems about handleQuery, at a server that blocks one name.
use km_resolv.Prelude.{
  ℕ, ◌≡◌, refl, true, false, Option, none, some, List, [], ◌∷◌, Text, codes, ok, err, ◌==◌, nat_eq,
  list_eq, inr, ◌++◌, to_lower, has_prefix, trim_space,
}
use km_resolv.Dns.{Message, Question, empty_message, set_qr, set_ra, set_rcode, set_bit, bit, rcode}
use km_resolv.Dns.Name.{u16_at}
use km_resolv.Dns.Parse.{u32_at, parse_questions, parse_rrs, parse_message}
use km_resolv.Dns.Pack as Pack
use km_resolv.Filter as Filter
use km_resolv.Filter.{blocked, clean, new_filter}
use km_resolv.Filter.Walk.{plain}
use km_resolv.Filter.Lasting.{reload_all}
use km_resolv.Records.Build.{invalid}
use km_resolv.Config.Files.{save}
use km_resolv.Server.Admin.{Admin}
use km_resolv.Dashboard.{Request, ok_json, require_auth, is_authenticated}
use km_resolv.Dashboard.Guards.{served, written, serve_filter_add}
use km_resolv.Dashboard.Blocking.{with_block, after_block, serve-accept}
use km_resolv.Config.{Config, defaults, auth_enabled}
use km_resolv.Dnssec.Verify.{Crypto}
use km_resolv.Server.Acl.{allowed, first_match}
use km_resolv.Server.QueryLog.{new_query_log, add, add_all}
use km_resolv.Server.Query.{Network}
use km_resolv.Server.Resolve.Bounded.{new_upstream}
use km_resolv.Server.Handle.{
  Server, Source, Handled, done, crashed, type_name, nxdomain, log_query, answer_query, accept,
  limit, handle_query, first_question,
}
use km_resolv.Server.Handle.Counts.{Packet, Logged, run_packets, run_packets-Logged}

abbrev crypto : Crypto
crypto = record {
  digest = λ type data'. [];
  rsa = λ hash n e data' signature. false;
  ecdsa = λ curve x y r s data'. false;
  ed25519 = λ key data' signature. false;
}

-- a network that cannot be reached
abbrev network : Network ℕ
network = record {
  clock = λ w. w;
  dial = λ w server. none;
  dial_error = λ w server. codes "refused";
  write = λ server conn packed w. (w, some (codes "closed"));
  read = λ server conn w. (w, err (codes "closed"));
  read_full = λ server conn n w. (w, err (codes "EOF"));
  bad_url = λ url. none;
  post = λ url body w. (w, err (codes "refused"));
  random_id = λ w. 7;
  has_port = λ s. true;
  show_ip = λ ip. [];
  shuffle = λ names w. (w, names);
  a_first = λ name w. true;
}

abbrev server : Server ℕ Text
server = record {
  filter = record {
    state = record { domains = (codes "ads", true) ∷ []; mode = codes "blacklist" };
    inline = [];
  };
  records = [];
  qlog = new_query_log 2 none;
  limiter = none;
  acl = record { rules = []; default_allow = true };
  upstream = new_upstream defaults 5;
  total_queries = 0;
  cache_hits = 0;
  blocked = 0;
  total_latency_ms = 0;
}

abbrev source : Source
source = record { ip = codes "10.0.0.1"; client = codes "10.0.0.1:99" }

-- a query with the ID 9 for the addresses of `ads`
abbrev packet : Text
packet =
    0 ∷ 9 ∷ 1 ∷ 0 ∷ 0 ∷ 1 ∷ 0 ∷ 0 ∷ 0 ∷ 0 ∷ 0 ∷ 0 ∷ 3 ∷ b'a' ∷ b'd' ∷ b's' ∷ 0 ∷ 0 ∷ 1 ∷ 0 ∷ 1 ∷ []

abbrev ask : Server ℕ Text → Handled ℕ Text
ask =
    handle_query network crypto [] defaults (λ e. none) (λ s. some s) (λ s. some s)
      (λ net ip. net == ip) source packet none

abbrev server_of : Handled ℕ Text → Server ℕ Text
server_of (done s reply) = s
server_of crashed = server

abbrev reply : Message
reply = record {
  header = record { id = 9; flags = 32899; qd_count = 0; an_count = 0; ns_count = 0; ar_count = 0 };
  questions = record { name = codes "ads"; type = 1; class = 1 } ∷ [];
  answers = [];
  authority = [];
  additional = [];
  raw = [];
}

unfoldable program : Unit {0}
unfolding Pack.program Filter.program u16_at u32_at parse_questions parse_rrs parse_message set_qr
    set_ra set_rcode set_bit bit rcode allowed first_match new_query_log add add_all type_name
    nxdomain log_query answer_query accept limit handle_query run_packets
program = tt

handled : ask server ≡ done (server_of (ask server)) (some reply)
unfolding program
handled = refl

-- two clients of one message: the call for the ID 9 writes, the one for the ID 8 writes its ID, and
-- the first packs
abbrev other : Message
other = record reply { header = record reply.header { id = 8 } }

abbrev packets : List (Packet ℕ)
packets = record { src = source; raw = packet; joined = none; world = 6 } ∷ []

abbrev run : Option (Server ℕ Text)
run =
    run_packets network crypto [] defaults (λ e. none) (λ s. some s) (λ s. some s)
      (λ net ip. net == ip) packets server

abbrev ran : Server ℕ Text
ran = elim run [ none ↦ server | some s ↦ s ]

runs : run ≡ some ran
unfolding program
runs = refl

run_packets-Logged_example :
    Logged network crypto [] defaults
      (λ e. none)
      (λ s. some s)
      (λ s. some s)
      (λ net ip. net == ip)
      server
      ran
run_packets-Logged_example =
    run_packets-Logged network crypto [] defaults (λ e. none) (λ s. some s) (λ s. some s)
      (λ net ip. net == ip) packets server ran runs

counts : (ran.total_queries ≡ 1) × (ran.blocked ≡ 1)
unfolding program
counts = (refl, refl)

-- the dashboard of a server in blacklist mode, without a login
abbrev admin : Admin
admin = record {
  cfg = record defaults {
    path = codes "c.yml";
    filtering = record defaults.filtering { mode = codes "Blacklist" };
  };
  filter = server.filter;
  records = [];
}

abbrev post : Request
post = record { method = codes "POST"; remote_addr = codes "10.0.0.7:40"; cookie = none }

abbrev config_text : Config → Option Text
config_text c = some (codes "yaml")

abbrev write_text : Text → Text → Text → Option Text
write_text path text disk = some text

-- a query for `x.Ads`
abbrev below : Text
below =
    0 ∷ 9 ∷ 1 ∷ 0 ∷ 0 ∷ 1 ∷ 0 ∷ 0 ∷ 0 ∷ 0 ∷ 0 ∷ 0 ∷ 1 ∷ b'x' ∷ 3 ∷ b'A' ∷ b'd' ∷ b's' ∷ 0 ∷ 0 ∷ 1
    ∷ 0 ∷ 1 ∷ []

abbrev question : Question
question = record { name = codes "x.Ads"; type = 1; class = 1 }

abbrev asked : Message
asked = elim (parse_message below) [ ok m ↦ m | err e ↦ empty_message ]

parsed : parse_message below ≡ ok asked
unfolding program
parsed = refl

first_asked : first_question asked.questions ≡ some question
unfolding program
first_asked = refl

let_through : require_auth (λ k t. t) [] [] admin.cfg post ≡ true
unfolding require_auth auth_enabled has_prefix is_authenticated
let_through = refl

cleaned : clean (codes " ads") ≡ codes "ads"
unfolding Filter.program trim_space
cleaned = refl

lowered : to_lower (codes "Blacklist") ≡ codes "blacklist"
unfolding to_lower
lowered = refl

plain_asked : plain question.name ≡ codes "x" ++ b'.' ∷ clean (codes " ads")
unfolding Filter.program trim_space
plain_asked = refl

serve-accept_example :
    let b = with_block (codes " ads") admin in
    (serve_filter_add config_text write_text
        (λ r. invalid)
        (λ k t. t)
        []
        []
        post
        (some (codes " ads"))
        admin
        []
      ≡ served b (written (save config_text write_text b.cfg [])) ok_json)
    × (accept network crypto [] b.cfg
          (λ e. none)
          (λ s. some s)
          (λ s. some s)
          (λ net ip. net == ip)
          source
          below
          none
          (record server { filter = b.filter })
        ≡ done
            (after_block network crypto [] b.cfg
              (λ e. none)
              (λ s. some s)
              (λ s. some s)
              (λ net ip. net == ip)
              source
              question
              (record server { filter = b.filter }))
            (some (nxdomain asked)))
    × (blocked question.name (reload_all ((λ source. none) ∷ []) b.cfg.filtering b.filter) ≡ true)
    × (blocked question.name (new_filter (λ source. none) b.cfg.filtering) ≡ true)
serve-accept_example =
    serve-accept config_text write_text (λ r. invalid) (λ k t. t) [] [] network crypto []
      (λ e. none) (λ s. some s) (λ s. some s) (λ net ip. net == ip) post (codes " ads") admin []
      source below asked question none server ((λ source. none) ∷ []) (λ source. none) let_through
      refl (λ h. cc) refl lowered (inr (codes "x", plain_asked)) parsed first_asked
