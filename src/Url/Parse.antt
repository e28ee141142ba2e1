-- ===== src/Url/Parse.antt =====
-- nsd/url.c: the parts that Ns_ParseUrl finds in a whole URL.
use anansi.Common.{
  ℕ, suc, ◌+◌, ◌≡◌, refl, ap, ◌∙◌, false, Option, none, some, [], ◌∷◌, ◌++◌, arith, Bytes, length,
  drop, take-append-length,
}
use anansi.Request.{cut_at}
use anansi.Request.Headers.{HasNo, cut_at-append, cut_at-none}
use anansi.Pathname.{last_slash}
use anansi.Url.{
  UrlParts, cut_tail, parse_host, starts_slash, parse_url, join_url, absolute_parts, absolute_url,
}

-- `protocol://host[:port]/path/tail`
abbrev pub whole_url : Bytes → Bytes → Option Bytes → Bytes → Bytes → Bytes
whole_url protocol host port path tail =
    protocol
    ++ (b':'
        ∷ b'/'
        ∷ b'/'
        ∷ (host
            ++ (elim port [ none ↦ [] | some p ↦ b':' ∷ p ] ++ (b'/' ∷ (path ++ (b'/' ∷ tail))))))

last_slash-none : (s : Bytes) → HasNo b'/' s → last_slash s ≡ none
unfolding last_slash
last_slash-none [] a = refl
last_slash-none (c ∷ s) (h, a) = ground (arith, last_slash-none s a)

last_slash-append : (xs s : Bytes) → HasNo b'/' s → last_slash (xs ++ b'/' ∷ s) ≡ some (length xs)
unfolding last_slash
last_slash-append [] s a = ground (arith, last_slash-none s a)
last_slash-append (x ∷ xs) s a = ground (arith, last_slash-append xs s a)

drop-append-suc : (xs s : Bytes) (c : ℕ) → drop (length xs + 1) (xs ++ c ∷ s) ≡ s
drop-append-suc [] s c = refl
drop-append-suc (x ∷ xs) s c =
    let e : length (x ∷ xs) + 1 ≡ suc (length xs + 1) = omega arith in rw e (drop-append-suc xs s c)

cut_tail-append : (xs s : Bytes) → HasNo b'/' s → cut_tail (xs ++ b'/' ∷ s) ≡ (xs, s)
unfolding cut_tail
cut_tail-append xs s a =
    rw
      (
        cut_tail,
        last_slash-append xs s a,
        drop-append-suc xs s b'/',
        take-append-length xs (b'/' ∷ s),
      )
      refl

HasNo-append : (b : ℕ) (s t : Bytes) → HasNo b s → HasNo b t → HasNo b (s ++ t)
HasNo-append b [] t h k = k
HasNo-append b (c ∷ s) t (x, h) k = (x, HasNo-append b s t h k)

parse_url-host :
    (protocol s : Bytes)
    → HasNo b':' protocol
    → parse_url (protocol ++ (b':' ∷ b'/' ∷ b'/' ∷ s)) ≡ some (parse_host protocol s)
unfolding parse_url
parse_url-host protocol s h =
    let e = cut_at-append b':' protocol (b'/' ∷ b'/' ∷ s) h refl in ground arith

parse_host-port :
    (protocol url before number here rest path tail : Bytes)
    → cut_at b':' url ≡ (before, some number)
    → cut_at b'/' number ≡ (here, some rest)
    → cut_tail rest ≡ (path, tail)
    → parse_host protocol url ≡ record {
      protocol = some protocol;
      host = some before;
      port = some here;
      path = some path;
      tail = some tail;
    }
unfolding parse_host
parse_host-port protocol url before number here rest path tail p q r = ground arith

parse_host-plain :
    (protocol url before here rest path tail : Bytes)
    → cut_at b':' url ≡ (before, none)
    → cut_at b'/' url ≡ (here, some rest)
    → cut_tail rest ≡ (path, tail)
    → parse_host protocol url ≡ record {
      protocol = some protocol;
      host = some here;
      port = none;
      path = some path;
      tail = some tail;
    }
unfolding parse_host
parse_host-plain protocol url before here rest path tail p q r = ground arith

-- The port has no slash.
abbrev pub IsPort : Option Bytes → Type 0
IsPort none = Unit
IsPort (some p) = HasNo b'/' p

-- A URL made of a protocol, a host, a port or none, a path and a tail is parsed into just these parts,
-- when the protocol, the host, the path and the tail have no colon, and the host, the port and the
-- tail no slash.
pub parse_url-whole_url :
    (protocol host : Bytes) (port : Option Bytes) (path tail : Bytes)
    → HasNo b':' protocol
    → HasNo b':' host
    → HasNo b'/' host
    → IsPort port
    → HasNo b':' path
    → HasNo b':' tail
    → HasNo b'/' tail
    → parse_url (whole_url protocol host port path tail)
      ≡ some (record {
        protocol = some protocol;
        host = some host;
        port = port;
        path = some path;
        tail = some tail;
      })
parse_url-whole_url protocol host (some p) path tail a b c d e f g =
    let rest = path ++ (b'/' ∷ tail) in
    parse_url-host protocol (host ++ (b':' ∷ (p ++ (b'/' ∷ rest)))) a
    ∙ ap some (
        parse_host-port protocol _ host (p ++ (b'/' ∷ rest)) p rest path tail
          (cut_at-append b':' host (p ++ (b'/' ∷ rest)) b refl) (cut_at-append b'/' p rest d refl)
          (cut_tail-append path tail g))
parse_url-whole_url protocol host none path tail a b c d e f g =
    let rest = path ++ (b'/' ∷ tail) in
    let url = host ++ (b'/' ∷ rest) in
    parse_url-host protocol url a
    ∙ ap some (
        parse_host-plain protocol url url host rest path tail
          (cut_at-none b':' url (
            HasNo-append b':' host (b'/' ∷ rest) b
              (refl, HasNo-append b':' path (b'/' ∷ tail) e (refl, f))))
          (cut_at-append b'/' host rest c refl) (cut_tail-append path tail g))

-- A relative URL that is all tail.
parse_url-tail :
    (tail : Bytes)
    → HasNo b':' tail
    → starts_slash tail ≡ false
    → parse_url tail
      ≡ some (record { protocol = none; host = none; port = none; path = none; tail = some tail })
unfolding parse_url cut_at
parse_url-tail [] h k = refl
parse_url-tail (c ∷ s) h k = let e = cut_at-none b':' (c ∷ s) h in ground arith

absolute_url-at :
    (url base : Bytes) (u b : UrlParts)
    → parse_url url ≡ some u
    → parse_url base ≡ some b
    → absolute_url [] url base ≡ absolute_parts [] u b
unfolding absolute_url
absolute_url-at url base u b p q = ground arith

-- A name without a colon that does not start with a slash is looked up beside the base URL: it takes the
-- place of the base's tail, and the protocol, the host, the port and the path are the base's.
pub absolute_url-whole_url :
    (protocol host : Bytes) (port : Option Bytes) (c : ℕ) (path tail name : Bytes)
    → HasNo b':' protocol
    → HasNo b':' host
    → HasNo b'/' host
    → IsPort port
    → HasNo b':' (c ∷ path)
    → HasNo b':' tail
    → HasNo b'/' tail
    → HasNo b':' name
    → starts_slash name ≡ false
    → absolute_url [] name (whole_url protocol host port (c ∷ path) tail)
      ≡ some (whole_url protocol host port (c ∷ path) name)
unfolding absolute_parts join_url
absolute_url-whole_url protocol host port c path tail name p h i o q t r n m =
    absolute_url-at name (whole_url protocol host port (c ∷ path) tail) _ _
      (parse_url-tail name n m)
      (parse_url-whole_url protocol host port (c ∷ path) tail p h i o q t r)
