-- ===== src/Common/Weburl/Tests.antt =====
-- The parts of one URL.
use mavicona.Base.{◌≡◌, refl, arith, map}
use mavicona.Base.Text.{codes}
use mavicona.Mumux.Ascii.{to_lower}
use mavicona.Common.Weburl.{parse_url, parse_rest, search, has_prefix}
use mavicona.Common.Weburl.Parts.{parse_url-url_text}

parse_url-url_text_example : parse_url (codes "Ab://C/d?e") ≡ record {
  protocol = map to_lower (codes "Ab");
  host = map to_lower (codes "C");
  path = codes "/d";
  query = codes "e";
}
parse_url-url_text_example =
    parse_url-url_text (codes "Ab") (codes "C") (codes "d") (codes "e")
      (λ e. omega arith, (λ e. omega arith, tt)) (λ e. omega arith, tt) (λ e. omega arith, tt)

no_protocol :
    parse_url (codes "host/path")
    ≡ record { protocol = codes "host/path"; host = codes ""; path = codes ""; query = codes "" }
unfolding parse_url parse_rest search has_prefix to_lower
no_protocol = refl
