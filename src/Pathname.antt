-- ===== src/Pathname.antt =====
-- nsd/pathname.c: normal forms of paths, on systems other than Windows, and paths made of elements and
-- of the first characters of a string.
pub mod Normal
use anansi.Common.{
  ℕ, zero, suc, ◌+◌, Bool, true, false, ◌&&◌, ◌||◌, Option, none, some, List, [], ◌∷◌, ◌++◌, leb,
  ◌==◌, if◌then◌else◌, Bytes, length, take,
}

-- `ISSLASH`: a slash or a backslash
abbrev pub is_slash : ℕ → Bool
is_slash c = c == b'/' || c == 92

abbrev pub is_alpha : ℕ → Bool
is_alpha c = (leb b'A' c && leb c b'Z') || (leb b'a' c && leb c b'z')

-- The first loop: past the leading slashes.
unfoldable pub skip_slashes : Bytes → Bytes
skip_slashes [] = []
skip_slashes (c ∷ s) = let rest = skip_slashes s in if is_slash c then rest else c ∷ s

-- The part up to the next slash, and what stands behind the slash, if there is one.
unfoldable pub next_part : Bytes → Bytes × Option Bytes
next_part [] = ([], none)
next_part (c ∷ s) =
    let (part, rest) = next_part s in if is_slash c then ([], some s) else (c ∷ part, rest)

-- `strrchr(s, '/') - s`, if there is a slash
unfoldable pub last_slash : Bytes → Option ℕ
last_slash [] = none
last_slash (c ∷ s) = elim (last_slash s) [
  | some i ↦ some (suc i)
  | none ↦ if c == b'/' then some 0 else none
]

-- One path backwards is wiped out.
unfoldable pub cut_last : Bytes → Bytes
cut_last ds = elim (last_slash ds) [ none ↦ ds | some i ↦ take i ds ]

abbrev pub is_dot : Bytes → Bool
is_dot [] = false
is_dot (c ∷ []) = c == b'.'
is_dot (c ∷ d ∷ s) = false

abbrev pub is_dotdot : Bytes → Bool
is_dotdot [] = false
is_dotdot (c ∷ []) = false
is_dotdot (c ∷ d ∷ []) = c == b'.' && d == b'.'
is_dotdot (c ∷ d ∷ e ∷ s) = false

abbrev pub is_empty : Bytes → Bool
is_empty [] = true
is_empty (c ∷ s) = false

-- What the loop does with a part.
unfoldable pub put_part : Bytes → Bytes → Bytes
put_part ds part =
    if is_dotdot part
    then cut_last ds
    else if is_empty part || is_dot part
    then ds
    else ds ++ b'/' ∷ part

-- The loop over the parts; `fuel` is for their number.
unfoldable pub normalize_from : ℕ → Bytes → Bytes → Bytes
normalize_from zero ds src = ds
normalize_from (suc fuel) ds src =
    let (part, rest) = next_part src in
    elim rest [ none ↦ put_part ds part | some s ↦ normalize_from fuel (put_part ds part) s ]

-- Ns_NormalizePath
unfoldable pub normalize_path : Bytes → Bytes → Bytes
normalize_path ds path =
    let src = skip_slashes path in
    let out = normalize_from (length src + 1) ds src in if is_empty out then b'/' ∷ [] else out

-- Ns_PathIsAbsolute
unfoldable pub path_is_absolute : Bytes → Bool
path_is_absolute [] = false
path_is_absolute (c ∷ s) = is_slash c

-- A drive letter that MakePath copies, and what stands behind it.
unfoldable pub drive : Bytes → Bytes × Bytes
drive [] = ([], [])
drive (c ∷ []) = ([], c ∷ [])
drive (c ∷ d ∷ s) = if is_alpha c && d == b':' then (c ∷ d ∷ [], s) else ([], c ∷ d ∷ s)

-- The element up to its next slash, and the slash with what is behind it.
unfoldable pub take_name : Bytes → Bytes × Bytes
take_name [] = ([], [])
take_name (c ∷ s) =
    let (name, rest) = take_name s in if is_slash c then ([], c ∷ s) else (c ∷ name, rest)

-- The loop of MakePath over one element; `fuel` is for its characters.
unfoldable pub append_names : ℕ → Bytes → Bytes → Bytes
append_names zero dest s = dest
append_names (suc fuel) dest s = elim (skip_slashes s) [
  | [] ↦ dest
  | c ∷ t ↦ let (name, rest) = take_name (c ∷ t) in append_names fuel (dest ++ b'/' ∷ name) rest
]

-- MakePath, Ns_MakePath
unfoldable pub make_path : Bytes → List Bytes → Bytes
make_path dest [] = dest
make_path dest (s ∷ ss) =
    let (letter, rest) = drive s in make_path (append_names (length rest) (dest ++ letter) rest) ss

-- Past the periods and slashes in Ns_HashPath.
unfoldable pub skip_dots : Bytes → Bytes
skip_dots [] = []
skip_dots (c ∷ s) = let rest = skip_dots s in if c == b'.' || is_slash c then rest else c ∷ s

-- Ns_HashPath; `dsPtr->string[dsPtr->length]` is the NUL at the end of the string, so a slash is always
-- appended.
unfoldable pub hash_path : ℕ → Bytes → Bytes → Bytes
hash_path zero ds path = ds
hash_path (suc levels) ds path = elim (skip_dots path) [
  | [] ↦ hash_path levels (ds ++ b'/' ∷ b'_' ∷ []) []
  | c ∷ rest ↦ hash_path levels (ds ++ b'/' ∷ c ∷ []) rest
]
