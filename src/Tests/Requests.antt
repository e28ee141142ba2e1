-- ===== src/Tests/Requests.antt =====
-- nsd/request.c and nsd/pathname.c at small inputs.
use anansi.Common.{◌≡◌, ◌↔◌, refl, none, some, [], ◌∷◌, ◌++◌, Bytes, length, if◌then◌else◌}
use anansi.Set.{NsSet, create, put, grow}
use anansi.Set.View.{IsValid, view, create-IsValid, view-put}
use anansi.Strings.{str_trim_left}
use anansi.UrlEncode.{url_decode, decode_from, escape, hex_value, plain}
use anansi.Pathname.{
  skip_slashes, next_part, last_slash, cut_last, put_part, normalize_from, normalize_path,
  make_path, append_names, take_name, drive, hash_path, skip_dots,
}
use anansi.Pathname.Normal.{dirs_of, path_of, AllClean, normalize_path-dirs_of}
use anansi.Request.{
  no_request, cut_at, has_trailing, skip_front, set_url, parse_request, preserve, parse_header,
}
use anansi.Request.Urls.{url_dirs, elements, set_url-elements}
use anansi.Request.Lines.{request_line, parse_request-request_line}
use anansi.Request.Headers.{IsRefused, parse_header-continued, parse_header-none}

-- "/a/%2e%2e/../b/"
abbrev climbing : Bytes
climbing =
    b'/' ∷ b'a' ∷ b'/' ∷ b'%' ∷ b'2' ∷ b'e' ∷ b'%' ∷ b'2' ∷ b'e' ∷ b'/' ∷ b'.' ∷ b'.' ∷ b'/' ∷ b'b'
    ∷ b'/' ∷ []

-- "/b/"
set_url-climbing : (set_url none no_request climbing).url ≡ b'/' ∷ b'b' ∷ b'/' ∷ []
unfolding set_url cut_at url_decode decode_from escape hex_value plain normalize_path skip_slashes
    normalize_from next_part put_part cut_last last_slash has_trailing skip_front
set_url-climbing = refl

-- "/a/../" becomes "//".
set_url-double :
    (set_url none no_request (b'/' ∷ b'a' ∷ b'/' ∷ b'.' ∷ b'.' ∷ b'/' ∷ [])).url ≡ b'/' ∷ b'/' ∷ []
unfolding set_url cut_at url_decode decode_from escape hex_value plain normalize_path skip_slashes
    normalize_from next_part put_part cut_last last_slash has_trailing skip_front
set_url-double = refl

-- The slash at the end of "a/" is followed by another.
hash_path-slash : hash_path 1 (b'a' ∷ b'/' ∷ []) (b'f' ∷ []) ≡ b'a' ∷ b'/' ∷ b'/' ∷ b'f' ∷ []
unfolding hash_path skip_dots
hash_path-slash = refl

-- "x//y" with "z"
make_path-names :
    make_path [] ((b'x' ∷ b'/' ∷ b'/' ∷ b'y' ∷ []) ∷ (b'z' ∷ []) ∷ [])
    ≡ b'/' ∷ b'x' ∷ b'/' ∷ b'y' ∷ b'/' ∷ b'z' ∷ []
unfolding make_path append_names take_name drive skip_slashes
make_path-names = refl

normalize_path-dirs_of_example :
    (normalize_path [] climbing ≡ path_of (dirs_of climbing)) × AllClean (dirs_of climbing)
normalize_path-dirs_of_example = normalize_path-dirs_of climbing

set_url-elements_example :
    AllClean (url_dirs none climbing)
    × ((set_url none no_request climbing).urlv ≡ elements (url_dirs none climbing))
    × ((set_url none no_request climbing).url
        ≡ path_of (url_dirs none climbing)
          ++ (if has_trailing (cut_at b'?' climbing).0 then b'/' ∷ [] else []))
    × ((set_url none no_request climbing).urlc ≡ length (set_url none no_request climbing).urlv)
set_url-elements_example = set_url-elements none no_request climbing

-- "GET /x HTTP/1.1"
parse_request-request_line_example :
    parse_request none
      (request_line (b'G' ∷ b'E' ∷ b'T' ∷ []) (b'/' ∷ b'x' ∷ []) (b'1' ∷ b'.' ∷ b'1' ∷ []))
    ≡ some (
        set_url none
          (record no_request {
            line = some (
                request_line
                  (b'G' ∷ b'E' ∷ b'T' ∷ [])
                  (b'/' ∷ b'x' ∷ [])
                  (b'1' ∷ b'.' ∷ b'1' ∷ []));
            method = some (b'G' ∷ b'E' ∷ b'T' ∷ []);
            version = some (b'1' ∷ b'.' ∷ b'1' ∷ []);
          })
          (b'/' ∷ b'x' ∷ []))
parse_request-request_line_example =
    parse_request-request_line none b'G' (b'E' ∷ b'T' ∷ []) (b'x' ∷ []) (b'1' ∷ b'.' ∷ b'1' ∷ [])
      (refl, (refl, (refl, tt))) (refl, (refl, tt)) (refl, (refl, (refl, tt)))

abbrev none_yet : NsSet
none_yet = create none

none_yet-IsValid : IsValid none_yet
none_yet-IsValid = (create-IsValid none).0

abbrev one_field : NsSet
one_field = (put none_yet (some (b'h' ∷ [])) (some (b'a' ∷ []))).0

one_field-view : view one_field ≡ record { name = some (b'h' ∷ []); value = some (b'a' ∷ []) } ∷ []
unfolding create put grow
one_field-view = refl

trim_left-b : str_trim_left (32 ∷ b'b' ∷ []) ≡ b'b' ∷ []
unfolding str_trim_left
trim_left-b = refl

-- " b" behind it
parse_header-continued_example :
    (s : NsSet) × (parse_header one_field (32 ∷ b'b' ∷ []) preserve ≡ some s)
    × (view s
        ≡ []
          ++ record { name = some (b'h' ∷ []); value = some ((b'a' ∷ []) ++ 32 ∷ b'b' ∷ []) } ∷ [])
    × IsValid s
parse_header-continued_example =
    parse_header-continued one_field []
      (record { name = some (b'h' ∷ []); value = some (b'a' ∷ []) }) (b'a' ∷ []) (32 ∷ b'b' ∷ [])
      b'b' [] preserve (view-put none_yet none_yet-IsValid (some (b'h' ∷ [])) (some (b'a' ∷ []))).2
      one_field-view refl refl trim_left-b

parse_header-none_example :
    (parse_header none_yet (b'H' ∷ []) preserve ≡ none) ↔ IsRefused none_yet (b'H' ∷ [])
parse_header-none_example = parse_header-none none_yet (b'H' ∷ []) preserve
