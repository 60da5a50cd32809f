-- ===== src/Dashboard/Pages.antt =====
-- dashboard.py: the HTML pages and the bundle of static pages, behind the dashboard's token.
use orchestrator_service.Prelude.{
  ℕ, Text, codes, Bool, false, ◌||◌, not, ◌≡◌, refl, Option, none, some, ◌++◌, if◌then◌else◌,
  is_empty, same,
}
use orchestrator_service.Auth
use orchestrator_service.Auth.{
  Access, granted, crashed, require_token, Cookie, no_cookie, set_cookie, cookie_error,
  persist_token_cookie, Shows, require_token-granted,
}
use orchestrator_service.Runner.Slug.{valid_run_stem}
use orchestrator_service.Dashboard.Runs.{Answer, answer, refused, valid_bead_id, serve_asset}

-- The routes without the prefix of the API; an asset is named by its path in the bundle.
pub data Route : Type 0 where
  dashboard runs events webhooks pages_redirect : Route
  bead run asset : Text → Route

pub data Page : Type 0 where
  html : Text → Cookie → Page
  redirect file : Text → Page
  not_initialized : Page

pub data Response : Type 0 where
  served : Page → Response
  http_error : ℕ → Response
  server_error : Response

with_cookie : Text → Cookie → Response
with_cookie t cookie_error = server_error
with_cookie t no_cookie = served (html t no_cookie)
with_cookie t (set_cookie value is_https) = served (html t (set_cookie value is_https))

-- The page in a file, none where the file is missing.
unfoldable pub serve_html : Option Text → Auth.Request → Option Text → Response
unfolding with_cookie
serve_html none r token = http_error 500
serve_html (some t) r token = with_cookie t (persist_token_cookie r token)

asset_of : Answer Text → Response
asset_of (answer path) = served (file path)
asset_of (refused status) = http_error status

-- The files of the pages; whether a bundle is available, none where the project of the request has no
-- workspace path; the directory of the bundle, its real path, that of a path in it, and which paths
-- are files.
pub record Static : Type 0 where
  pub page : Text → Option Text
  pub bundle_ok : Option Bool
  pub bundle : Text
  pub root : Text
  pub candidate : Text → Text
  pub is_file : Text → Bool

serve_index : Text → (Text → Bool) → Bool → Response
serve_index bundle is_file is_ok =
    let index = bundle ++ codes "/index.html" in
    if not is_ok || not (is_file index) then served not_initialized else served (file index)

serve_in : Static → Text → Bool → Response
unfolding serve_index asset_of
serve_in s path is_ok =
    if is_empty path || same path (codes "index.html")
    then serve_index s.bundle s.is_file is_ok
    else asset_of (serve_asset path s.root (s.candidate path) s.is_file)

unfoldable pub pages_serve : Static → Text → Response
unfolding serve_in
pages_serve s path = elim s.bundle_ok [ none ↦ server_error | some is_ok ↦ serve_in s path is_ok ]

unfoldable pub handle_page : Static → Option Text → Auth.Request → Route → Response
unfolding serve_html pages_serve
handle_page s token r dashboard = serve_html (s.page (codes "dashboard.html")) r token
handle_page s token r runs = serve_html (s.page (codes "orchestration_runs.html")) r token
handle_page s token r events = serve_html (s.page (codes "events.html")) r token
handle_page s token r webhooks = serve_html (s.page (codes "webhooks.html")) r token
handle_page s token r pages_redirect = served (redirect (codes "/dashboard/pages/"))
handle_page s token r (bead id) =
    if valid_bead_id id
    then serve_html (s.page (codes "bead_detail.html")) r token
    else http_error 400
handle_page s token r (run stem) =
    if valid_run_stem stem
    then serve_html (s.page (codes "orchestration_run_detail.html")) r token
    else http_error 400
handle_page s token r (asset path) = pages_serve s path

behind_token : Access → Response → Response
behind_token granted response = response
behind_token (Access.refused status) response = http_error status
behind_token crashed response = server_error

-- Every route depends on the token; without one configured it is not found.
unfoldable pub get_page : Static → Option Text → Auth.Request → Route → Response
unfolding behind_token
get_page s token r route = behind_token (require_token 404 token r) (handle_page s token r route)

behind_token-served :
    (access : Access) (response : Response) (page : Page)
    → behind_token access response ≡ served page
    → access ≡ granted
unfolding behind_token
behind_token-served granted response page h = refl
behind_token-served (Access.refused status) response page h = cc
behind_token-served crashed response page h = cc

-- Whatever page or asset is served, a redirect and the stand-in for a missing bundle included: a token
-- is configured that is not empty, and the request shows exactly this token, in its header, its query
-- or its cookie.
pub get_page-Shows :
    (s : Static) (token : Option Text) (r : Auth.Request) (route : Route) (page : Page)
    → get_page s token r route ≡ served page
    → (t : Text) × (token ≡ some t) × (is_empty t ≡ false) × Shows r t
unfolding get_page
get_page-Shows s token r route page h =
    require_token-granted 404 token r
      (behind_token-served (require_token 404 token r) (handle_page s token r route) page h)
