-- ===== src/Agent/Metrics.antt =====
-- getMetrics and isGzipEncoding of pkg/amesh/agent.go. The HTTP client is a parameter.
use Prim.Native.Char.{Char, code}
use Prim.Native.String.{◌++◌ as ◌+++◌}
use amesh.Prelude.{
  ℕ, String, Bool, true, false, not, ◌&&◌, ◌||◌, ◌≡◌, refl, List, [], ◌∷◌, Map, Result, ok, err,
  panic, ◌>>=◌, eqb, leb, ◌==◌, if◌then◌else◌,
}
use amesh.Prelude.Text.{split_char, has_prefix}
use amesh.Agent.Server.{apply_headers}

-- what the code reads of an http.Response; the body is read to its end, or fails
pub record Response : Type 0 where
  pub status_code : ℕ
  pub status_text : String
  pub body : Result String

abbrev pub forwarded_headers : List String
forwarded_headers =
    "Accept" ∷ "Accept-Encoding" ∷ "User-Agent" ∷ "X-Prometheus-Scrape-Timeout-Seconds" ∷ []

-- an error with its context, as fmt.Errorf writes it
unfoldable pub with_context : {A : Type 0} → String → Result A → Result A
with_context context panic = panic
with_context context (err message) = err (context +++ (": " +++ message))
with_context context (ok a) = ok a

-- the body of a response with the code OK
unfoldable pub read_metrics : String → Response → Result String
unfolding with_context
read_metrics url resp =
    if not (eqb resp.status_code 200)
    then err
        ("failed to get apisix metrics " +++ (url +++ (", status code: " +++ resp.status_text)))
    else with_context ("failed to read apisix metrics body " +++ url) resp.body

-- `new_request` is http.NewRequestWithContext for the URL, and `send` the client with the headers.
unfoldable pub get_metrics :
    (String → Result (Unit {0}))
    → (Map String → Result Response)
    → String
    → (String → String)
    → Result String
unfolding apply_headers with_context read_metrics
get_metrics new_request send url header = do
  _ ← new_request url
  resp ←
      with_context ("failed to get apisix metrics " +++ url)
        (send (apply_headers header forwarded_headers []))
  read_metrics url resp

-- the white space of ASCII
abbrev pub is_space : Char → Bool
is_space c = eqb (code c) 32 || (leb 9 (code c) && leb (code c) 13)

unfoldable pub trim_left : String → String
trim_left String.[] = String.[]
trim_left (String.◌∷◌ c s) = let rest = trim_left s in if is_space c then rest else String.◌∷◌ c s

unfoldable pub trim_right : String → String
trim_right String.[] = String.[]
trim_right (String.◌∷◌ c s) =
    let rest = trim_right s in if is_space c && (rest == "") then "" else String.◌∷◌ c rest

-- strings.TrimSpace on ASCII
unfoldable pub trim_space : String → String
unfolding trim_left trim_right
trim_space s = trim_right (trim_left s)

-- the loop over the encodings
unfoldable pub gzip_loop : List String → Bool
unfolding trim_space
gzip_loop [] = false
gzip_loop (encoding ∷ encodings) =
    let later = gzip_loop encodings in
    if has_prefix (trim_space encoding) "gzip" then true else later

unfoldable pub is_gzip_encoding : (String → String) → Bool
unfolding gzip_loop
is_gzip_encoding header = gzip_loop (split_char b',' (header "Accept-Encoding"))

-- the path and the URL, each with a default for an unset variable
unfoldable pub metrics_path : (String → String) → String
metrics_path env =
    let path = env "METRICS_SERVER_PATH" in if path == "" then "/stats/prometheus" else path

unfoldable pub apisix_metrics_url : (String → String) → String
apisix_metrics_url env =
    let url = env "APISIX_METRICS_URL" in
    if url == "" then "http://localhost:9091/stats/prometheus" else url

-- What the handler writes after the metrics of the agent, which promhttp writes first: the metrics
-- of APISIX, through gzip if the request takes it, or nothing if they cannot be had.
unfoldable pub append_metrics :
    (String → String) → (String → String) → Result String → Result String
unfolding is_gzip_encoding
append_metrics gzip header panic = panic
append_metrics gzip header (err message) = ok ""
append_metrics gzip header (ok metrics) =
    ok (if is_gzip_encoding header then gzip metrics else metrics)

unfoldable pub metrics_handler :
    (String → Result (Unit {0}))
    → (Map String → Result Response)
    → (String → String)
    → (String → String)
    → (String → String)
    → String
    → Result String
unfolding get_metrics append_metrics apisix_metrics_url
metrics_handler new_request send gzip env header agent_metrics = do
  apisix_metrics ←
      append_metrics gzip header (get_metrics new_request send (apisix_metrics_url env) header)
  ok (agent_metrics +++ apisix_metrics)

gzip_test : is_gzip_encoding (λ _. "deflate, gzip;q=0 ") ≡ true
unfolding is_gzip_encoding split_char
gzip_test = refl

-- Without metrics of APISIX the handler still gives those of the agent.
handler_test :
    metrics_handler
      (λ url. ok tt)
      (λ headers. err "refused")
      (λ s. s)
      (λ name. "")
      (λ name. "")
      "up 1"
    ≡ ok "up 1"
unfolding metrics_handler get_metrics append_metrics
handler_test = refl
