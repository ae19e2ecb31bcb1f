-- ===== src/Common/Weburl.antt =====
-- common/url.cpp: the parts of a URL.
pub mod Parts
mod Tests
use mavicona.Base.{ℕ, Bool, true, false, List, [], ◌∷◌, map, drop, ◌==◌, if◌then◌else◌, ◌&&◌}
use mavicona.Base.Text.{codes}
use mavicona.Mumux.Ascii.{to_lower}

-- The four members of `url`.
pub record WebUrl : Type 0 where
  pub protocol : List ℕ
  pub host : List ℕ
  pub path : List ℕ
  pub query : List ℕ

-- Whether a text starts with another.
unfoldable pub has_prefix : List ℕ → List ℕ → Bool
has_prefix [] s = true
has_prefix (n ∷ needle) [] = false
has_prefix (n ∷ needle) (c ∷ s) = n == c && has_prefix needle s

-- `std::search`, and `find` for a needle of one character: the text in front of the needle, and the
-- text from it on.
unfoldable pub search : List ℕ → List ℕ → List ℕ × List ℕ
search needle [] = ([], [])
search needle (c ∷ s) =
    let (before, rest) = search needle s in
    if has_prefix needle (c ∷ s) then ([], c ∷ s) else (c ∷ before, rest)

abbrev pub prot_end : List ℕ
prot_end = codes "://"

-- The part of `parse` behind the protocol and the three characters of `prot_end`.
unfoldable pub parse_rest : List ℕ → List ℕ → WebUrl
parse_rest protocol s =
    let (host, after_host) = search (codes "/") s in
    let (path, after_path) = search (codes "?") after_host in
    record { protocol = protocol; host = map to_lower host; path = path; query = drop 1 after_path }

unfoldable pub parse_url : List ℕ → WebUrl
parse_url url_s =
    let (before, rest) = search prot_end url_s in
    let protocol = map to_lower before in
    elim rest [
      | [] ↦ record { protocol = protocol; host = []; path = []; query = [] }
      | (c ∷ s) ↦ parse_rest protocol (drop 2 s)
    ]
