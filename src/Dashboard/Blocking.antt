-- ===== src/Dashboard/Blocking.antt =====
-- From the dashboard to the answers: what becomes of a domain that is blocked there.
use km_resolv.Prelude.{
  ◌≡◌, ◌≢◌, inl, inr, refl, ap, Bool, true, Bool-cases, Option, some, List, [], ◌∷◌, ◌++◌, Text,
  Result, ok, codes, to_lower, ◌==◌, nat_eq, list_eq, list_beq_iff,
}
use km_resolv.Dns.{Message, Question}
use km_resolv.Dns.Parse.{parse_message}
use km_resolv.Filter.{blacklist, blocked, add, clean, new_filter}
use km_resolv.Filter.Walk.{Within, plain}
use km_resolv.Filter.Lasting.{
  blocked-Lists, add-Lists, reload_all, reload_all-Lists, new_filter-Lists,
}
use km_resolv.Config.{Config}
use km_resolv.Config.Files.{Saved, saved, no_path, marshal_error, write_error, save}
use km_resolv.Records.Build.{RecordConfig, Built}
use km_resolv.Dnssec.Verify.{Crypto}
use km_resolv.Dnssec.Zone.{Keys}
use km_resolv.Server.QueryLog.{QueryEntry}
use km_resolv.Server.Query.{Network}
use km_resolv.Server.Admin.{Admin, add_block, with_inline}
use km_resolv.Server.Handle.{
  Server, Source, done, first_question, add64, nxdomain, log_query, answer_query, accept,
}
use km_resolv.Dashboard.{Request, ok_json, is_post, require_auth, guarded}
use km_resolv.Dashboard.Guards.{served, written, answer_save, finish, serve_filter_add}

-- The server's part of the dashboard behind an Add of a domain.
abbrev pub with_block : Text → Admin → Admin
with_block domain a = record a {
  filter = add domain a.filter;
  cfg = with_inline (a.cfg.filtering.inline ++ domain ∷ []) a.cfg;
}

ok_either_way : {Files : Type 0} (result : Saved Files) → answer_save result ok_json ≡ ok_json
ok_either_way (saved files) = refl
ok_either_way no_path = refl
ok_either_way marshal_error = refl
ok_either_way write_error = refl

module _ {World Net Ip : Type 0} (net : Network World) (crypto : Crypto) (anchors : Keys)
    (cfg : Config) (entry : QueryEntry → Option Text) (parse_cidr : Text → Option Net)
    (parse_ip : Text → Option Ip) (holds : Net → Ip → Bool) where
  -- the server behind a query that it counts as blocked
  abbrev pub after_block : Source → Question → Server World Net → Server World Net
  after_block src q s =
      log_query net crypto anchors cfg entry parse_cidr parse_ip holds (net.clock s.upstream.world)
        src q (codes "blocked")
        (record s { total_queries = add64 s.total_queries 1; blocked = add64 s.blocked 1 })

  answer_query-blocked :
      (src : Source) (raw : Text) (msg : Message) (q : Question) (joined : Option (Result Message))
      (s : Server World Net)
      → parse_message raw ≡ ok msg
      → first_question msg.questions ≡ some q
      → blocked q.name s.filter ≡ true
      → accept net crypto anchors cfg entry parse_cidr parse_ip holds src raw joined s
        ≡ done (after_block src q s) (some (nxdomain msg))
  unfolding accept answer_query
  answer_query-blocked src raw msg q joined s h f b = rw (accept, h, f, answer_query, b) refl

module _ {Files : Type 0} (marshal : Config → Option Text)
    (write_file : Text → Text → Files → Option Files) (build : RecordConfig → Built)
    (mac : Text → Text → Text) (secret session : Text) where
  serve-with_block :
      (r : Request) (domain : Text) (a : Admin) (files : Files)
      → require_auth mac secret session a.cfg r ≡ true
      → is_post r ≡ true
      → domain ≢ []
      → serve_filter_add marshal write_file build mac secret session r (some domain) a files
        ≡ served
            (with_block domain a)
            (written (save marshal write_file (with_block domain a).cfg files))
            ok_json
  unfolding serve_filter_add guarded add_block finish
  serve-with_block r domain a files auth post some_domain =
      let b = with_block domain a in
      let result = save marshal write_file b.cfg files in
      elim (Bool-cases (domain == [])) [
        | inl e ↦ absurd (some_domain ((list_beq_iff domain []).0 e))
        | inr e ↦ rw (auth, post, e) (ap (served b (written result)) (ok_either_way result))
      ]

  -- A domain that is added on the dashboard by a POST that is let through, where the filter is in
  -- blacklist mode and so is the configuration: the response is the one of success, even where Save
  -- fails. From then on a query for the domain or a name below it that passes the access list and the
  -- limiter is answered by NXDOMAIN without any exchange, and is counted and logged as blocked. It
  -- stays blocked over any reloads of the lists, and, with the configuration that was to be saved, in
  -- the filter of the next start.
  pub serve-accept :
      {World Net Ip : Type 0} (net : Network World) (crypto : Crypto) (anchors : Keys)
      (entry : QueryEntry → Option Text) (parse_cidr : Text → Option Net)
      (parse_ip : Text → Option Ip) (holds : Net → Ip → Bool) (r : Request) (domain : Text)
      (a : Admin) (files : Files) (src : Source) (raw : Text) (msg : Message) (q : Question)
      (joined : Option (Result Message)) (s : Server World Net)
      (fetches : List (Text → Option (List Text))) (fetch : Text → Option (List Text))
      → require_auth mac secret session a.cfg r ≡ true
      → is_post r ≡ true
      → domain ≢ []
      → a.filter.state.mode ≡ blacklist
      → to_lower a.cfg.filtering.mode ≡ blacklist
      → Within (clean domain) (plain q.name)
      → parse_message raw ≡ ok msg
      → first_question msg.questions ≡ some q
      → let b = with_block domain a in
        (serve_filter_add marshal write_file build mac secret session r (some domain) a files
          ≡ served b (written (save marshal write_file b.cfg files)) ok_json)
        × (accept net crypto anchors b.cfg entry parse_cidr parse_ip holds src raw joined
              (record s { filter = b.filter })
            ≡ done
                (after_block net crypto anchors b.cfg entry parse_cidr parse_ip holds src q
                  (record s { filter = b.filter }))
                (some (nxdomain msg)))
        × (blocked q.name (reload_all fetches b.cfg.filtering b.filter) ≡ true)
        × (blocked q.name (new_filter fetch b.cfg.filtering) ≡ true)
  serve-accept net crypto anchors entry parse_cidr parse_ip holds r domain a files src raw msg q
        joined s fetches fetch auth post some_domain mode mode_set within parsed asked =
      let b = with_block domain a in
      let listed = add-Lists domain a.filter mode in
      let reloaded =
        reload_all-Lists fetches b.cfg.filtering (clean domain) b.filter mode_set listed in
      let started = new_filter-Lists fetch a.cfg.filtering a.cfg.filtering.inline domain mode_set in
      (
        serve-with_block r domain a files auth post some_domain,
        answer_query-blocked net crypto anchors b.cfg entry parse_cidr parse_ip holds src raw msg q
            joined (record s { filter = b.filter }) parsed asked
            (blocked-Lists q.name (clean domain) b.filter listed within),
        blocked-Lists q.name (clean domain) _ reloaded within,
        blocked-Lists q.name (clean domain) _ started within,
      )
