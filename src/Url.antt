-- ===== src/Url.antt =====
-- nsd/url.c and nsd/quotehtml.c: the parts of a URL, URLs relative to another one, and the quoting of
-- HTML. What the code cuts off by a NUL is a string of its own; a NULL pointer is `none`.
pub mod Parse
pub mod Quote
use anansi.Common.{
  ℕ, zero, suc, ◌+◌, ◌-◌, Bool, true, false, ◌&&◌, ◌||◌, Option, none, some, List, [], ◌∷◌, ◌++◌,
  ◌==◌, if◌then◌else◌, Bytes, take, drop,
}
use anansi.Request.{cut_at}
use anansi.Pathname.{last_slash}
use anansi.Strings.{ns_match}

pub record UrlParts : Type 0 where
  pub protocol : Option Bytes
  pub host : Option Bytes
  pub port : Option Bytes
  pub path : Option Bytes
  pub tail : Option Bytes

-- The path up to the last slash, and the tail behind it.
unfoldable pub cut_tail : Bytes → Bytes × Bytes
cut_tail url = elim (last_slash url) [ none ↦ ([], url) | some i ↦ (take i url, drop (i + 1) url) ]

-- A URL with "//" behind its protocol: `strchr` looks for the colon of the port in all that is left.
unfoldable pub parse_host : Bytes → Bytes → UrlParts
parse_host protocol url =
    let (before, number) = cut_at b':' url in
    let left : Bytes = elim number [ none ↦ url | some n ↦ n ] in
    let (here, behind) = cut_at b'/' left in
    let host : Bytes = elim number [ none ↦ here | some n ↦ before ] in
    let port : Option Bytes = elim number [ none ↦ none | some n ↦ some here ] in
    let rest : Bytes = elim behind [ none ↦ [] | some r ↦ r ] in
    let found = cut_tail rest in
    record {
      protocol = some protocol;
      host = some host;
      port = port;
      path = some found.0;
      tail = some found.1;
    }

abbrev pub starts_slash : Bytes → Bool
starts_slash [] = false
starts_slash (c ∷ s) = c == b'/'

-- Ns_ParseUrl. Where nothing stands behind the colon of the protocol, the code reads behind the end of
-- the string, and there is no result.
unfoldable pub parse_url : Bytes → Option UrlParts
parse_url url =
    let (before, after) = cut_at b':' url in
    let whole = cut_tail (drop 1 url) in
    elim after [
      | none ↦ elim url [
        | [] ↦
            some (record { protocol = none; host = none; port = none; path = none; tail = some [] })
        | c ∷ s ↦ some (
            if c == b'/'
            then record {
              protocol = none;
              host = none;
              port = none;
              path = some whole.0;
              tail = some whole.1;
            }
            else record {
              protocol = none;
              host = none;
              port = none;
              path = none;
              tail = some (c ∷ s);
            })
      ]
      | some [] ↦ none
      | some (c ∷ s) ↦
          let odd = cut_tail s in
          some (
            if c == b'/' && starts_slash s then parse_host before (drop 1 s) else record {
              protocol = some before;
              host = none;
              port = none;
              path = some odd.0;
              tail = some odd.1;
            })
    ]

-- Past all but the last of the slashes at the front.
unfoldable pub one_slash : Bytes → Bytes
one_slash [] = []
one_slash (c ∷ s) = let rest = one_slash s in if c == b'/' && starts_slash s then rest else c ∷ s

-- Ns_RelativeUrl
unfoldable pub relative_url : Option Bytes → Option Bytes → Option Bytes
relative_url none location = none
relative_url (some url) none = none
relative_url (some url) (some location) =
    some (one_slash (elim (ns_match (some location) (some url)) [ none ↦ url | some v ↦ v ]))

abbrev pub or_base : Option Bytes → Bytes → Bytes
or_base none b = b
or_base (some s) b = s

-- What Ns_AbsoluteUrl appends; a tail is never NULL.
unfoldable pub join_url : Bytes → Bytes → Option Bytes → Bytes → Bytes → Bytes
join_url protocol host port path tail =
    protocol
    ++ (b':'
        ∷ b'/'
        ∷ b'/'
        ∷ (host
            ++ (elim port [ none ↦ [] | some p ↦ b':' ∷ p ]
                ++ elim path [ [] ↦ b'/' ∷ tail | c ∷ s ↦ b'/' ∷ ((c ∷ s) ++ (b'/' ∷ tail)) ])))

-- Ns_AbsoluteUrl of the parts of both URLs; `none` is NS_ERROR.
unfoldable pub absolute_parts : Bytes → UrlParts → UrlParts → Option Bytes
absolute_parts ds u b = elim b.protocol [
  | none ↦ none
  | some protocol ↦ elim b.host [
    | none ↦ none
    | some host ↦ elim b.path [
      | none ↦ none
      | some path ↦ some (
          ds
          ++ join_url (or_base u.protocol protocol) (or_base u.host host)
              (elim u.host [ none ↦ b.port | some h ↦ u.port ]) (or_base u.path path)
              (or_base u.tail []))
    ]
  ]
]

-- Ns_AbsoluteUrl; `none` is NS_ERROR, or a URL that Ns_ParseUrl reads behind the end of.
unfoldable pub absolute_url : Bytes → Bytes → Bytes → Option Bytes
absolute_url ds url base = elim (parse_url url) [
  | none ↦ none
  | some u ↦ elim (parse_url base) [ none ↦ none | some b ↦ absolute_parts ds u b ]
]

-- What Ns_QuoteHtml appends for a byte.
unfoldable pub quote_byte : ℕ → Bytes
quote_byte c =
    if c == b'<'
    then b'&' ∷ b'l' ∷ b't' ∷ b';' ∷ []
    else if c == b'>'
    then b'&' ∷ b'g' ∷ b't' ∷ b';' ∷ []
    else if c == b'&'
    then b'&' ∷ b'a' ∷ b'm' ∷ b'p' ∷ b';' ∷ []
    else if c == 39
    then b'&' ∷ b'#' ∷ b'3' ∷ b'9' ∷ b';' ∷ []
    else if c == 34
    then b'&' ∷ b'#' ∷ b'3' ∷ b'4' ∷ b';' ∷ []
    else c ∷ []

-- Ns_QuoteHtml
unfoldable pub quote_html : Bytes → Bytes → Bytes
quote_html ds [] = ds
quote_html ds (c ∷ s) = quote_html (ds ++ quote_byte c) s
