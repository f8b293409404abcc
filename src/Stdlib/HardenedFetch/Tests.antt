-- ===== src/Stdlib/HardenedFetch/Tests.antt =====
-- A redirect to another host.
use workflow_engine.Prelude.{
  ℕ, ◌+◌, ◌≡◌, ◌≤◌, refl, String, false, Option, none, some, [], ◌∷◌, length, All, ◌==◌, string_eq,
  nat_eq, if◌then◌else◌,
}
use workflow_engine.Stdlib.HardenedFetch.{
  Web, Url, FetchState, Reply, replies, response, max_redirects, hardened_fetch, follow,
  after_reply, apply_redirect, strip_header,
}
use workflow_engine.Stdlib.HardenedFetch.Redirects.{IsSafe, requests-IsSafe}

abbrev parsed : String → Option Url
parsed s =
    if s == "https://a/"
    then some (record { protocol = "https:"; origin = "https://a" })
    else if s == "http://b/"
    then some (record { protocol = "http:"; origin = "http://b" })
    else none

-- The first host moves its page to the second one.
abbrev answers : ℕ → FetchState → Reply
answers hop st =
    if st.current_url == "https://a/" then replies 302 (some "http://b/") else replies 200 none

abbrev web : Web
web = record {
  parse = parsed;
  resolve = λ place base. some place;
  lower_case = λ s. s;
  is_data_url = λ s. false;
  request = answers;
}

abbrev start : FetchState
start = record {
  current_url = "https://a/";
  current_method = "POST";
  current_headers = ("authorization", "secret") ∷ ("accept", "*") ∷ [];
  current_body = some "x";
}

moved_test : hardened_fetch web start ≡ (
  start
      ∷ record {
        current_url = "http://b/";
        current_method = "GET";
        current_headers = ("accept", "*") ∷ [];
        current_body = none;
      }
      ∷ [],
  response 200 "http://b/",
)
unfolding hardened_fetch follow after_reply apply_redirect strip_header
moved_test = refl

requests-IsSafe_example :
    (length (hardened_fetch web start).0 ≤ max_redirects + 1)
    × All (IsSafe web "https://a") (hardened_fetch web start).0
requests-IsSafe_example =
    requests-IsSafe web start (record { protocol = "https:"; origin = "https://a" }) refl
