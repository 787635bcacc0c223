-- ===== src/Tests/Crawled.antt =====
-- A crawl of one project, and an answer of two pages.
use dalikamata.Prelude.{
  ℕ, zero, ◌≡◌, refl, true, false, ◌&&◌, some, none, List, [], ◌∷◌, String, Result, ok, err, any,
  arith, eq_iff, if◌then◌else◌, ◌==◌,
}
use dalikamata.Prelude.Int.{ℤ, pos}
use dalikamata.Prelude.Dict.{lookup, insert, delete}
use dalikamata.Bitbucket.Api.{Ports, Settings}
use dalikamata.Bitbucket.Paged.{PagedResponse, Response, fetch_page, paginate, paginate_lem}
use dalikamata.Bitbucket.Crawler.{
  Crawler, crawl, hydrate, crawl_projects, crawl_project, crawl_repos, crawl_repo, crawl_commits,
  publish_commits, crawl_pull_requests, publish_pull_requests, self_onboard_repo, try_paths,
}
use dalikamata.Prelude.Texts.{concat}
use dalikamata.Bitbucket.Crawler.Cursors.{IsHistory, IsBacked}
use dalikamata.Bitbucket.Crawler.Backed.{crawl-IsBacked}
use dalikamata.Tests.World.{numbers}

-- What the store has returned and accepted.
abbrev Log : Type 0
Log = List (String × String)

abbrev joined : List String → String
joined [] = ""
joined (part ∷ []) = part
joined (part ∷ rest) = concat part (concat "/" (joined rest))

abbrev server : Ports Log String String
server = record {
  load = λ w. (("p/api", "a1") ∷ w, ok (("p/api", "a1") ∷ []));
  save = λ repo_id sha w. ((repo_id, sha) ∷ w, none);
  clear = λ repo_id w. (w, none);
  get_repos = λ project_key w.
      (w, ok (record { slug = "api"; name = "API" } ∷ record { slug = "web"; name = "Web" } ∷ []));
  get_commits = λ project_key repo_slug since w. (
    w,
    if since == "a1"
        then err "unknown commit"
        else ok (record { id = "b2"; author_name = "ann"; author_timestamp = pos 5000 } ∷ []),
  );
  get_pull_requests = λ project_key repo_slug w. (w, ok []);
  get_raw_file = λ project_key repo_slug path w. (w, ok none);
  publish_repo = λ x w. (w, none);
  publish_commit = λ x w. (w, some "connection lost");
  publish_pull_request = λ x w. (w, none);
  publish_repo_onboarding = λ x w. (w, none);
  unmarshal = λ content. err "no YAML";
  path_join = joined;
}

abbrev Known : String → String → Log → Type 0
Known k v w = any (λ e. e.0 == k && e.1 == v) w ≡ true

server-IsHistory : IsHistory server Known
unfolding lookup
server-IsHistory = record {
  accepted = λ k v w h. ground (arith, eq_iff k k, eq_iff v v);
  returned = λ k v m w h at. ground (arith, eq_iff "p/api" k, eq_iff "a1" v);
  load = λ k v w h. ground arith;
  save = λ a b k v w h. ground arith;
  clear = λ a k v w h. h;
  get_repos = λ a k v w h. h;
  get_commits = λ a b c k v w h. h;
  get_pull_requests = λ a b k v w h. h;
  get_raw_file = λ a b c k v w h. h;
  publish_repo = λ x k v w h. h;
  publish_commit = λ x k v w h. h;
  publish_pull_request = λ x k v w h. h;
  publish_repo_onboarding = λ x k v w h. h;
}

abbrev one_project : Settings
one_project = record {
  projects = "p" ∷ [];
  has_config_publisher = true;
  config_paths = "own.yaml" ∷ [];
}

abbrev fresh : Crawler × Log
fresh = (record { cursors = []; loaded = false }, [])

fresh-IsBacked : IsBacked server Known fresh
unfolding lookup
fresh-IsBacked k v e = absurd cc

-- The stored cursor a1 is refused, so all commits are fetched and the cursor becomes b2.
crawl-IsBacked_example : Known "p/api" "b2" (crawl server one_project fresh).0.1
unfolding crawl hydrate crawl_projects crawl_project crawl_repos crawl_repo crawl_commits
    publish_commits crawl_pull_requests publish_pull_requests self_onboard_repo try_paths lookup
    insert delete
crawl-IsBacked_example =
    crawl-IsBacked server Known one_project server-IsHistory fresh fresh-IsBacked "p/api" "b2" refl

abbrev first_page : PagedResponse ℕ
first_page = record { values = 1 ∷ 2 ∷ []; is_last_page = false; next_page_start = pos 2 }

abbrev last_page : PagedResponse ℕ
last_page = record { values = 3 ∷ []; is_last_page = true; next_page_start = pos 0 }

abbrev send : ℤ → Result String (Response ℤ)
send start = ok (record { status_code = 200; body = start })

abbrev decode : ℤ → Result String (PagedResponse ℕ)
decode (pos zero) = ok first_page
decode _ = ok last_page

paginate_example : paginate send decode 2 ≡ some (ok (1 ∷ 2 ∷ 3 ∷ []))
unfolding fetch_page
paginate_example =
    paginate_lem send decode 2 (first_page ∷ last_page ∷ []) (refl, refl, (refl, refl))
      (omega arith)
