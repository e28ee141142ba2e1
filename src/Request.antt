-- ===== src/Request.antt =====
-- nsd/request.c: request lines, the URLs in them, header lines and the encodings that a client accepts.
-- A string is the list of its bytes without the NUL, and what the code cuts off by a NUL is a list of
-- its own. `to_utf` is Tcl's conversion from the encoding of URLs.

pub mod Urls
pub mod Lines
pub mod Headers
use anansi.Common.{
  ℕ, zero, suc, ◌+◌, ◌-◌, ◌*◌, ◌%◌, Bool, true, false, not, ◌&&◌, ◌||◌, Option, none, some, List,
  [], ◌∷◌, ◌++◌, ltb, leb, ◌==◌, if◌then◌else◌, Bytes, length, take, drop, get_or, min, str_eq, ◌^◌,
}
use anansi.Strings.{is_space, str_trim, str_trim_left, str_to_lower, str_to_upper}
use anansi.Set.{NsSet, Field, field, put, put_value}
use anansi.UrlEncode.{path, url_decode}
use anansi.Pathname.{normalize_path}

-- `Ns_Request`; `version` is the text that `strtod` reads, `none` for 0.0.
pub record Request : Type 0 where
  pub line : Option Bytes
  pub method : Option Bytes
  pub protocol : Option Bytes
  pub host : Option Bytes
  pub port : ℕ
  pub url : Bytes
  pub query : Option Bytes
  pub urlv : List Bytes
  pub urlc : ℕ
  pub version : Option Bytes

-- A request that is zeroed.
abbrev pub no_request : Request
no_request = record {
  line = none;
  method = none;
  protocol = none;
  host = none;
  port = 0;
  url = [];
  query = none;
  urlv = [];
  urlc = 0;
  version = none;
}

-- The string up to a byte, and what stands behind it: `strchr` and a NUL in its place.
unfoldable pub cut_at : ℕ → Bytes → Bytes × Option Bytes
cut_at b [] = ([], none)
cut_at b (c ∷ s) =
    let (before, after) = cut_at b s in if c == b then ([], some s) else (c ∷ before, after)

-- What a C string of these bytes is: a NUL ends it.
abbrev pub c_string : Bytes → Bytes
c_string s = (cut_at 0 s).0

-- Past the slashes at the front.
unfoldable pub skip_front : Bytes → Bytes
skip_front [] = []
skip_front (c ∷ s) = let rest = skip_front s in if c == b'/' then rest else c ∷ s

-- The test for a trailing slash.
unfoldable pub has_trailing : Bytes → Bool
has_trailing url = elim (skip_front url) [
  | [] ↦ false
  | c ∷ t ↦ get_or (c ∷ t) (length t) 0 == b'/'
]

-- The loop that builds urlv: what is left of the current element, and the elements behind it. The
-- first byte of an element is not looked at.
unfoldable pub urlv_loop : Bytes → Bytes × List Bytes
urlv_loop [] = ([], [])
urlv_loop (c ∷ []) = if c == b'/' then ([], []) else (c ∷ [], [])
urlv_loop (c ∷ d ∷ t) =
    let (cur, more) = urlv_loop t in
    let (here, rest) = urlv_loop (d ∷ t) in
    if c == b'/' then ([], (d ∷ cur) ∷ more) else (c ∷ here, rest)

-- SetUrl
unfoldable pub set_url : Option (Bytes → Bytes) → Request → Bytes → Request
set_url to_utf request url =
    let (before, after) = cut_at b'?' url in
    let decoded = c_string (url_decode [] before to_utf path) in
    let normal = normalize_path [] decoded in
    let whole = if has_trailing before then normal ++ b'/' ∷ [] else normal in
    let (first, more) = urlv_loop (drop 1 whole) in
    record request {
      query = elim after [ none ↦ request.query | some q ↦ some q ];
      url = whole;
      urlv = first ∷ more;
      urlc = length (first ∷ more);
    }

-- Ns_SetRequestUrl; FreeUrl leaves the other fields alone.
unfoldable pub set_request_url : Option (Bytes → Bytes) → Request → Bytes → Request
set_request_url to_utf request url = set_url to_utf (record request { url = []; urlv = [] }) url

-- The loop of Ns_SkipUrl, with `n` elements left: their lengths, with a slash each.
unfoldable pub skip_length : ℕ → List Bytes → ℕ
skip_length zero urlv = 0
skip_length (suc n) urlv = length (get_or urlv n []) + 1 + skip_length n urlv

-- Ns_SkipUrl
unfoldable pub skip_url : Request → ℕ → Option Bytes
skip_url request n =
    if ltb request.urlc n then none else some (drop (skip_length n request.urlv) request.url)

-- The string up to its first white space, and the rest from there.
unfoldable pub take_word : Bytes → Bytes × Bytes
take_word [] = ([], [])
take_word (c ∷ s) =
    let (word, rest) = take_word s in if is_space c then ([], c ∷ s) else (c ∷ word, rest)

abbrev pub is_version : ℕ → Bool
is_version c = (leb b'0' c && leb c b'9') || c == b'.'

-- The index of the last byte that is neither a digit nor a period, if there is one.
unfoldable pub last_other : Bytes → Option ℕ
last_other [] = none
last_other (c ∷ s) = elim (last_other s) [
  | some i ↦ some (suc i)
  | none ↦ if is_version c then none else some 0
]

-- "HTTP/"
abbrev pub http : Bytes
http = b'H' ∷ b'T' ∷ b'T' ∷ b'P' ∷ b'/' ∷ []

-- The version: the URL without it, and the text behind "HTTP/".
unfoldable pub cut_version : Bytes → Bytes × Option Bytes
cut_version s = elim (last_other s) [
  | none ↦ (s, none)
  | some k ↦
      if leb 4 k && str_eq (take 5 (drop (k - 4) s)) http
      then (take (k - 4) s, some (drop (k + 1) s))
      else (s, none)
]

-- The digits of `strtol` to the base 10, after `n`.
unfoldable pub digits_from : ℕ → Bytes → ℕ
digits_from n [] = n
digits_from n (c ∷ s) =
    let rest = digits_from (n * 10 + (c - b'0')) s in if leb b'0' c && leb c b'9' then rest else n

-- `(unsigned short)strtol(s, NULL, 10)`, for a `long` of 64 bits
unfoldable pub port_of : Bytes → ℕ
port_of s = elim (str_trim_left s) [
  | [] ↦ 0
  | c ∷ t ↦
      if c == b'-'
      then (65536 - min (digits_from 0 t) (2 ^ 63) % 65536) % 65536
      else min (digits_from 0 (if c == b'+' then t else c ∷ t)) (2 ^ 63 - 1) % 65536
]

-- Up to the first slash or colon, which stands at the front of the rest.
unfoldable pub take_scheme : Bytes → Bytes × Bytes
take_scheme [] = ([], [])
take_scheme (c ∷ s) =
    let (word, rest) = take_scheme s in
    if c == b'/' || c == b':' then ([], c ∷ s) else (c ∷ word, rest)

-- What stands behind "//", when a host follows.
unfoldable pub host_part : Bytes → Option Bytes
host_part [] = none
host_part (a ∷ []) = none
host_part (a ∷ b ∷ []) = none
host_part (a ∷ b ∷ c ∷ []) = none
host_part (a ∷ b ∷ c ∷ d ∷ s) =
    if a == b'/' && (b == b'/' && not (c == b'/')) then some (c ∷ d ∷ s) else none

-- The protocol, the host and the port of a URL, and the URL that is left.
unfoldable pub cut_host : Request → Bytes → Request × Bytes
cut_host request url =
    let (scheme, rest) = take_scheme url in
    elim rest [
      | [] ↦ (request, url)
      | c ∷ after ↦
          if c == b':'
          then elim (host_part after) [
            | none ↦ (record request { protocol = some scheme }, after)
            | some h ↦
                let (location, tail) = cut_at b'/' h in
                let (name, number) = cut_at b':' location in
                (
                  record request {
                    protocol = some scheme;
                    port = elim number [ none ↦ request.port | some p ↦ port_of p ];
                    host = some name;
                  },
                  elim tail [ none ↦ [] | some t ↦ t ],
                )
          ]
          else (request, url)
    ]

-- Ns_ParseRequest; `none` is NS_ERROR, with the request reset.
unfoldable pub parse_request : Option (Bytes → Bytes) → Bytes → Option Request
parse_request to_utf line =
    let l = str_trim line in
    let (word, rest) = take_word l in
    let target = str_trim_left rest in
    let (before, version) = cut_version target in
    let url = str_trim before in
    let request : Request = record no_request {
      line = some l;
      method = some word;
      version = version;
    } in
    let (located, left) = cut_host request url in
    elim target [
      | [] ↦ none
      | c ∷ cs ↦ elim url [
        | [] ↦ none
        | d ∷ ds ↦
            some
              (if d == b'/' then set_url to_utf request (d ∷ ds) else set_url to_utf located left)
      ]
    ]

-- `Ns_HeaderCaseDisposition`
pub data Disposition : Type 0 where
  preserve to_lower to_upper : Disposition

-- The name of a header line as it is kept.
abbrev pub dispose : Disposition → Bytes → Bytes
dispose preserve key = key
dispose to_lower key = str_to_lower key
dispose to_upper key = str_to_upper key

abbrev pub starts_space : Bytes → Bool
starts_space [] = false
starts_space (c ∷ s) = is_space c

-- A line that continues the header before it; a NULL value ends what Ns_DStringVarAppend appends.
unfoldable pub continue_header : NsSet → Bytes → Option NsSet
continue_header s line =
    let index = s.size - 1 in
    if s.size == 0 then none else elim (str_trim_left line) [
      | [] ↦ some s
      | c ∷ t ↦
          some (
            put_value s index (elim (field s index).value [ none ↦ [] | some v ↦ v ++ 32 ∷ c ∷ t ]))
    ]

-- Ns_ParseHeader; `none` is NS_ERROR, which leaves the set as it is.
unfoldable pub parse_header : NsSet → Bytes → Disposition → Option NsSet
parse_header s line disp =
    let (key, after) = cut_at b':' line in
    if starts_space line then continue_header s line else elim after [
      | none ↦ none
      | some rest ↦ some (put s (some (dispose disp key)) (some (str_trim_left rest))).0
    ]
