-- ===== src/Tests/Sites.antt =====
-- nsd/url.c and nsd/quotehtml.c at small inputs.
use anansi.Common.{
  ℕ, ◌≡◌, refl, Bool, true, false, Option, none, some, List, [], ◌∷◌, ◌++◌, arith, Bytes, length,
}
use anansi.Request.{cut_at}
use anansi.Pathname.{last_slash}
use anansi.Strings.{ns_match, match_loop}
use anansi.Url.{cut_tail, parse_host, parse_url, one_slash, relative_url}
use anansi.Url.Parse.{whole_url, parse_url-whole_url}

-- "http" and the host "w", with the port "80" and the path "a"
abbrev protocol : Bytes
protocol = b'h' ∷ b't' ∷ b't' ∷ b'p' ∷ []

abbrev site : Bytes
site = whole_url protocol (b'w' ∷ []) (some (b'8' ∷ b'0' ∷ [])) (b'a' ∷ []) (b'b' ∷ [])

-- "http://w/a:b": the path is taken for a port.
parse_url-colon :
    parse_url (b'h' ∷ b':' ∷ b'/' ∷ b'/' ∷ b'w' ∷ b'/' ∷ b'a' ∷ b':' ∷ b'b' ∷ [])
    ≡ some (record {
      protocol = some (b'h' ∷ []);
      host = some (b'w' ∷ b'/' ∷ b'a' ∷ []);
      port = some (b'b' ∷ []);
      path = some [];
      tail = some [];
    })
unfolding parse_url parse_host cut_at cut_tail last_slash
parse_url-colon = refl

-- "/a/b" of "h//a/b" at "H"
relative_url-site :
    relative_url (some (b'h' ∷ b'/' ∷ b'/' ∷ b'a' ∷ [])) (some (b'H' ∷ []))
    ≡ some (b'/' ∷ b'a' ∷ [])
unfolding relative_url one_slash ns_match match_loop anansi.Common.to_lower
relative_url-site = refl

parse_url-whole_url_example :
    parse_url site
    ≡ some (record {
      protocol = some protocol;
      host = some (b'w' ∷ []);
      port = some (b'8' ∷ b'0' ∷ []);
      path = some (b'a' ∷ []);
      tail = some (b'b' ∷ []);
    })
parse_url-whole_url_example =
    parse_url-whole_url protocol (b'w' ∷ []) (some (b'8' ∷ b'0' ∷ [])) (b'a' ∷ []) (b'b' ∷ [])
      (refl, (refl, (refl, (refl, tt)))) (refl, tt) (refl, tt) (refl, (refl, tt)) (refl, tt)
      (refl, tt) (refl, tt)
