-- ===== src/Common/Weburl/Parts.antt =====
-- The parts of a URL that was put together from them.
use mavicona.Base.{
  ℕ, ◌≡◌, ◌≢◌, refl, ap, ◌∙◌, true, false, List, [], ◌∷◌, ◌++◌, map, All, arith, ◌==◌, append-nil,
}
use mavicona.Mumux.Ascii.{to_lower}
use mavicona.Common.Weburl.{has_prefix, search, parse_rest, parse_url}

-- A text without the first character of a needle is passed over.
search-append :
    (n : ℕ) (needle s rest : List ℕ)
    → All (λ c. c ≢ n) s
    → search (n ∷ needle) (s ++ rest)
      ≡ (s ++ (search (n ∷ needle) rest).0, (search (n ∷ needle) rest).1)
unfolding search has_prefix
search-append n needle [] rest h = refl
search-append n needle (c ∷ s) rest (apart, h) =
    let miss : (n == c) ≡ false = ground arith in rw (search, miss, search-append n needle s rest h)

search-here :
    (n : ℕ) (needle rest : List ℕ)
    → has_prefix (n ∷ needle) (n ∷ rest) ≡ true
    → search (n ∷ needle) (n ∷ rest) ≡ ([], n ∷ rest)
unfolding search
search-here n needle rest h = rw (search, h)

search-found :
    (n : ℕ) (needle s rest : List ℕ)
    → All (λ c. c ≢ n) s
    → has_prefix (n ∷ needle) (n ∷ rest) ≡ true
    → search (n ∷ needle) (s ++ (n ∷ rest)) ≡ (s, n ∷ rest)
search-found n needle s rest apart h =
    search-append n needle s (n ∷ rest) apart ∙ rw (search-here n needle rest h, append-nil)

module _ (protocol host path query : List ℕ) where
  abbrev url_text : List ℕ
  url_text = protocol ++ (58 ∷ 47 ∷ 47 ∷ (host ++ (47 ∷ (path ++ (63 ∷ query)))))

  -- A protocol without a colon, a host without a slash, a path that starts with a slash and has no
  -- question mark, and any query are found again in the URL that they make, the first two in small
  -- letters.
  pub parse_url-url_text :
      All (λ c. c ≢ 58) protocol
      → All (λ c. c ≢ 47) host
      → All (λ c. c ≢ 63) path
      → parse_url url_text ≡ record {
        protocol = map to_lower protocol;
        host = map to_lower host;
        path = 47 ∷ path;
        query = query;
      }
  unfolding parse_url parse_rest has_prefix
  parse_url-url_text a b c =
      let first =
        search-found 58 (47 ∷ 47 ∷ []) protocol (47 ∷ 47 ∷ (host ++ (47 ∷ (path ++ (63 ∷ query)))))
          a refl in
      let second = search-found 47 [] host (path ++ (63 ∷ query)) b refl in
      let third = search-found 63 [] (47 ∷ path) query ((λ e. omega arith), c) refl in
      rw (parse_url, first, parse_rest, second, third)
        (ap
          (λ u. record {
            protocol = map to_lower u;
            host = map to_lower host;
            path = 47 ∷ path;
            query = query;
          })
          (ap (λ r. r.0) first))
