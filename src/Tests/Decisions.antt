-- ===== src/Tests/Decisions.antt =====
-- Requests that are routed, or not, on the test configuration.
use l7_proxy.Prelude.{◌≡◌, ◌≢◌, ◌↔◌, ◌⊎◌, refl, List, [], ◌∷◌, none, some, Memᴰ, false, ltb, arith}
use l7_proxy.Prelude.Int.{ℤ, pos}
use l7_proxy.Text.{Str, codes, has_prefix, is_empty}
use l7_proxy.Dict.{lookup, insert}
use l7_proxy.Float.{fin, unit_scale}
use l7_proxy.Net.{Url, Regex}
use l7_proxy.Config.{Route, Config, Mirror}
use l7_proxy.Config.Routes.{validate_routes}
use l7_proxy.Routing.{Request, Decision, Candidate, MirrorTarget, FailoverTarget}
use l7_proxy.Routing.Trie.{match, new_trie}
use l7_proxy.Routing.Trie.Longest
use l7_proxy.Routing.Trie.Longest.{insert_all, longest, match-insert_all}
use l7_proxy.Routing.Index.{new_route_index}
use l7_proxy.Routing.Rewrite.{expand_regex_rewrite}
use l7_proxy.Routing.Rewrite.Templates.{
  Token, plain, dollar, capture, meaning, AreSpans, expand_regex_rewrite-print,
}
use l7_proxy.Routing.Index
use l7_proxy.Routing.Decide
use l7_proxy.Routing.Decide.{
  Result, ok, err, RouteError, route_not_found, finalize, decide_path, decide_route, milliseconds,
}
use l7_proxy.Routing.Decide.Reference.{resolve, reference, decide_path-reference}
use l7_proxy.Routing.Decide.Choice.{Chosen, fits, decide_route-Chosen, decide_route-not_found_iff}
use l7_proxy.Routing.Decide.Resolved.{RegexpsFit, decide_route_resolves, finalize_unnamed_mirror}
use l7_proxy.Routing.Decide.{failover_target}
use l7_proxy.Routing.Decide.Fallback.{IsFallback, failover_target-IsFallback}
use l7_proxy.Tests.Configs.{upstreams-IsValid}
use l7_proxy.Tests.{main_upstream}
use l7_proxy.Tests.{
  url_of, regex_r, parsers, upstreams, api_route, loaded_config, loaded_config-IsLoaded, request,
}

abbrev host_of : Str → Url
host_of s = record (url_of s []) { raw_query = [] }

abbrev pub api_decision : Decision
api_decision = record {
  upstream = codes "main";
  timeout = pos 500_000_000;
  target = url_of (codes "m:80") (codes "/v1/items");
  mirrors = record { url = host_of (codes "s:81"); ratio = fin (pos 5) } ∷ [];
  fallback = some (record { name = codes "spare"; url = host_of (codes "s:81"); timeout = pos 0 });
}

pub api_decided :
    decide_route parsers (new_route_index loaded_config) (request (codes "/api/items"))
    ≡ ok api_decision
unfolding decide_route new_route_index Index.match_exact Index.match_prefix Index.match_regex
    finalize Decide.upstream_timeout Decide.failover_target Decide.resolve_mirrors Decide.target_of
    match lookup insert l7_proxy.Routing.Trie.insert new_trie l7_proxy.Routing.Trie.get_child
    l7_proxy.Routing.Trie.set_child l7_proxy.Routing.Conditions.match_conditions
    l7_proxy.Routing.Conditions.header_matches l7_proxy.Config.Tokens.is_token_char
    l7_proxy.Routing.Conditions.op_matches l7_proxy.Config.effective_op
    l7_proxy.Routing.Conditions.host_matches l7_proxy.Routing.Conditions.host_pattern_matches
    l7_proxy.Text.to_lower l7_proxy.Routing.Conditions.host_only l7_proxy.Net.split_host_port
api_decided = refl

decide_route-Chosen_example :
    (c : Candidate) × Chosen parsers
      (request (codes "/api/items"))
      loaded_config.routes
      (codes "/api/items")
      c
    × (finalize (new_route_index loaded_config) c (url_of [] (codes "/api/items"))
        ≡ ok api_decision)
decide_route-Chosen_example =
    decide_route-Chosen parsers (request (codes "/api/items")) loaded_config
      (url_of [] (codes "/api/items")) api_decision refl api_decided

-- The regex route drops the `/r` and keeps what stands behind it.
regex_decided :
    decide_route parsers (new_route_index loaded_config) (request (codes "/r/7"))
    ≡ ok (record {
      upstream = codes "main";
      timeout = pos 500_000_000;
      target = url_of (codes "m:80") (codes "/new/7");
      mirrors = [];
      fallback = api_decision.fallback;
    })
unfolding decide_route new_route_index Index.match_exact Index.match_prefix Index.match_regex
    finalize Decide.upstream_timeout Decide.failover_target Decide.resolve_mirrors Decide.target_of
    match lookup insert l7_proxy.Routing.Trie.insert new_trie l7_proxy.Routing.Trie.get_child
    l7_proxy.Routing.Trie.set_child l7_proxy.Routing.Conditions.match_conditions
    expand_regex_rewrite
regex_decided = refl

decide_route-not_found_iff_example :
    (decide_route parsers (new_route_index loaded_config) (request (codes "/other"))
      ≡ err route_not_found)
    ↔ ((route : Route)
        → Memᴰ route loaded_config.routes
        → fits parsers (request (codes "/other")) (codes "/other") route ≡ false)
decide_route-not_found_iff_example =
    decide_route-not_found_iff parsers (request (codes "/other")) loaded_config
      (url_of [] (codes "/other")) refl refl

decide_path-reference_example :
    decide_path parsers
      (new_route_index loaded_config)
      (request (codes "/x"))
      (url_of [] (codes "/x"))
    ≡ resolve parsers
        (request (codes "/x"))
        (new_route_index loaded_config)
        (url_of [] (codes "/x"))
        (reference parsers (request (codes "/x")) loaded_config.routes (codes "/x"))
decide_path-reference_example =
    decide_path-reference parsers (request (codes "/x")) loaded_config (url_of [] (codes "/x"))

-- Two prefixes on one branch, with a test that only the shorter one passes.
match-insert_all_example :
    match
      (Longest.first_fit (λ n. ltb n 5))
      (codes "abc")
      0
      (insert_all ((codes "a", 3) ∷ (codes "ab", 7) ∷ []) new_trie)
    ≡ longest (λ n. ltb n 5) ((codes "a", 3) ∷ (codes "ab", 7) ∷ []) (codes "abc") 0
match-insert_all_example =
    match-insert_all (λ n. ltb n 5) (codes "abc") ((codes "a", 3) ∷ (codes "ab", 7) ∷ [])

longest_example :
    longest (λ n. ltb n 5) ((codes "a", 3) ∷ (codes "ab", 7) ∷ []) (codes "abc") 0 ≡ some (3, 1)
longest_example = refl

abbrev tokens : List Token
tokens = plain b'/' (λ h. omega arith) ∷ dollar ∷ capture 1 (ground arith) ∷ []

expand_regex_rewrite-print_example :
    expand_regex_rewrite (codes "/$$$1") (codes "/r7") (some (pos 0 ∷ pos 3 ∷ pos 2 ∷ pos 3 ∷ []))
    ≡ meaning (codes "/r7") (pos 0 ∷ pos 3 ∷ pos 2 ∷ pos 3 ∷ []) tokens
expand_regex_rewrite-print_example =
    expand_regex_rewrite-print tokens (codes "/r7") (pos 0 ∷ pos 3 ∷ pos 2 ∷ pos 3 ∷ [])

regex_r-AreSpans : (path : Str) (m : List ℤ) → regex_r path ≡ some m → AreSpans path m
regex_r-AreSpans (a ∷ b ∷ path) m h = ground arith
regex_r-AreSpans (a ∷ []) m h = ground arith
regex_r-AreSpans [] m h = ground arith

pub parsers-RegexpsFit : RegexpsFit parsers
parsers-RegexpsFit s re path m compiled h = ground (arith, regex_r-AreSpans path m)

pub routes_valid : validate_routes parsers loaded_config.routes upstreams ≡ []
unfolding validate_routes l7_proxy.Config.Rules.validate_rule lookup
    l7_proxy.Config.Routes.validate_mirror l7_proxy.Text.to_upper
    l7_proxy.Config.Tokens.is_valid_header_name l7_proxy.Config.Tokens.is_token_char
    l7_proxy.Config.effective_op l7_proxy.Config.Rules.validate_host_pattern insert
    l7_proxy.Config.Routes.dedup_key l7_proxy.Float.flt unit_scale
routes_valid = refl

decide_route_resolves_example :
    (decide_route parsers (new_route_index loaded_config) (request (codes "/r/7"))
      ≡ err route_not_found)
    ⊎ ((d : Decision) × (decide_route parsers
            (new_route_index loaded_config)
            (request (codes "/r/7"))
          ≡ ok d))
decide_route_resolves_example =
    decide_route_resolves parsers loaded_config (request (codes "/r/7")) (url_of [] (codes "/r/7"))
      parsers-RegexpsFit loaded_config-IsLoaded routes_valid (tt, ((refl, tt), (tt, tt))) refl refl

abbrev unnamed : Mirror
unnamed = record { upstream = []; ratio = fin (pos 0) }

abbrev broken_candidate : Candidate
broken_candidate = record {
  route = record api_route { mirrors = unnamed ∷ [] };
  path_suffix = [];
  regex_match = none;
}

finalize_unnamed_mirror_example :
    finalize (new_route_index loaded_config) broken_candidate (url_of [] (codes "/api"))
    ≢ ok api_decision
finalize_unnamed_mirror_example =
    finalize_unnamed_mirror parsers loaded_config broken_candidate (url_of [] (codes "/api"))
      unnamed api_decision loaded_config-IsLoaded refl (Memᴰ.head refl) refl

-- Such a mirror is accepted by the validation.
unnamed_accepted : validate_routes parsers (broken_candidate.route ∷ []) upstreams ≡ []
unfolding validate_routes l7_proxy.Config.Rules.validate_rule l7_proxy.Text.to_upper
    l7_proxy.Config.Tokens.is_valid_header_name l7_proxy.Config.Tokens.is_token_char lookup
    l7_proxy.Config.effective_op l7_proxy.Config.Rules.validate_host_pattern
    l7_proxy.Config.Routes.validate_mirror l7_proxy.Config.Routes.is_not_zero l7_proxy.Float.fle
unnamed_accepted = refl

failover_target-IsFallback_example :
    ((main_upstream.fallback ≡ [])
      × (failover_target (new_route_index loaded_config) main_upstream.name ≡ none))
    ⊎ ((target : FailoverTarget) × (failover_target
            (new_route_index loaded_config)
            main_upstream.name
          ≡ some target)
        × IsFallback parsers loaded_config loaded_config-IsLoaded upstreams-IsValid main_upstream
            target)
failover_target-IsFallback_example =
    failover_target-IsFallback parsers loaded_config loaded_config-IsLoaded upstreams-IsValid
      main_upstream (Memᴰ.head refl)
