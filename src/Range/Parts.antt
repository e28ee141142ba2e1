-- ===== src/Range/Parts.antt =====
-- nsd/range.c: the buffers of a response with several ranges, and the bytes that they send.
use anansi.Range.Offsets.{AllWithin, IsFine, parse_range_offsets-IsFine}
use anansi.Common.{
  ℕ, ◌+◌, ◌-◌, ◌*◌, ◌/◌, length-take, length-drop, ◌≡◌, refl, sym, ap, subst, ◌∙◌, true, Option,
  some, List, [], ◌∷◌, ◌++◌, append_assoc, append-nil, arith, Bytes, length, length-append, take,
  drop, take-append-length,
}
use anansi.Range.{
  Range, text, entity, FileVec, crlf, Wording, range_header, append_header, trailer, append_trailer,
  header_vecs, data_vecs, Reply, ns_match_range, ns_conn_parse_range, parse_range_offsets,
}

-- The bytes that a buffer stands for.
abbrev pub vec_bytes : Bytes → Bytes → FileVec → Bytes
vec_bytes out file v = take v.length (drop v.offset (elim v.source [ text ↦ out | entity ↦ file ]))

abbrev pub sent : Bytes → Bytes → List FileVec → Bytes
sent out file [] = []
sent out file (v ∷ vs) = vec_bytes out file v ++ sent out file vs

-- The body of a multipart response: a header before each range, and the trailer.
abbrev pub multipart : Wording → Bytes → Bytes → List Range → Bytes
multipart w type file [] = trailer w
multipart w type file (r ∷ rs) =
    range_header w type r (length file)
    ++ (take (r.end - r.start + 1) (drop r.start file) ++ (crlf ++ multipart w type file rs))

-- The text that the first loop appends.
abbrev headers : Wording → Bytes → ℕ → List Range → Bytes
headers w type size [] = trailer w
headers w type size (r ∷ rs) = range_header w type r size ++ (crlf ++ headers w type size rs)

drop-append-length : (xs ys : Bytes) → drop (length xs) (xs ++ ys) ≡ ys
drop-append-length [] ys = refl
drop-append-length (x ∷ xs) ys = drop-append-length xs ys

-- A part of a text.
middle :
    (xs ys zs : Bytes) (n k : ℕ)
    → n ≡ length xs
    → k ≡ length ys
    → take k (drop n (xs ++ (ys ++ zs))) ≡ ys
middle xs ys zs n k p q = rw (p, q, drop-append-length xs (ys ++ zs)) (take-append-length ys zs)

header_vecs-text :
    (w : Wording) (type : Bytes) (size : ℕ) (rs : List Range) (ds : Bytes) (dsbase len : ℕ)
    → (header_vecs w type size rs ds dsbase len).0 ≡ ds ++ headers w type size rs
unfolding header_vecs append_trailer append_header
header_vecs-text w type size [] ds dsbase len = refl
header_vecs-text w type size (r ∷ rs) ds dsbase len =
    header_vecs-text w type size rs _ _ 2
    ∙ append_assoc (ds ++ range_header w type r size) crlf _
    ∙ append_assoc ds (range_header w type r size) _

text_vec :
    (p q h z file : Bytes) (dsbase len : ℕ)
    → dsbase ≡ length p
    → len ≡ length q
    → vec_bytes (p ++ (q ++ (h ++ z))) file (record {
      source = text;
      offset = dsbase;
      length = len + (length ((p ++ q) ++ h) - length (p ++ q));
    })
      ≡ q ++ h
text_vec p q h z file dsbase len x y =
    ap (λ t. take (len + (length ((p ++ q) ++ h) - length (p ++ q))) (drop dsbase (p ++ t)))
      (sym (append_assoc q h z))
    ∙ middle p (q ++ h) z dsbase (len + (length ((p ++ q) ++ h) - length (p ++ q))) x
        (omega (arith, y, length-append q h, length-append (p ++ q) h))

-- The text `p ++ q` holds the bytes `q` that no buffer has yet; `dsbase` is where they start.
data_vecs-sent :
    (w : Wording) (type file : Bytes) (rs : List Range) (p q : Bytes) (dsbase len : ℕ)
    → dsbase ≡ length p
    → len ≡ length q
    → sent
        (p ++ (q ++ headers w type (length file) rs))
        file
        (data_vecs (header_vecs w type (length file) rs (p ++ q) dsbase len).1 rs).0
      ≡ q ++ multipart w type file rs
unfolding header_vecs append_trailer append_header data_vecs
data_vecs-sent w type file [] p q dsbase len x y =
    append-nil _
    ∙ subst
        (λ t.
          vec_bytes (p ++ (q ++ t)) file (record {
            source = text;
            offset = dsbase;
            length = len + (length ((p ++ q) ++ trailer w) - length (p ++ q));
          })
          ≡ q ++ trailer w)
        (append-nil (trailer w)) (text_vec p q (trailer w) [] file dsbase len x y)
data_vecs-sent w type file (r ∷ rs) p q dsbase len x y =
    let h = range_header w type r (length file) in
    let z = crlf ++ headers w type (length file) rs in
    let part = take (r.end - r.start + 1) (drop r.start file) in
    let n = length ((p ++ q) ++ h) - length (p ++ q) in
    let base : dsbase + (len + n) ≡ length ((p ++ q) ++ h) =
      omega (arith, x, y, length-append p q, length-append (p ++ q) h) in
    let ih = data_vecs-sent w type file rs ((p ++ q) ++ h) crlf (dsbase + (len + n)) 2 base refl in
    let same : ((p ++ q) ++ h) ++ z ≡ p ++ (q ++ (h ++ z)) =
      append_assoc (p ++ q) h z ∙ append_assoc p q (h ++ z) in
    let vs =
      (data_vecs
        (header_vecs w type (length file) rs (((p ++ q) ++ h) ++ crlf) (dsbase + (len + n)) 2).1
        rs).0 in
    let ih' : sent (p ++ (q ++ (h ++ z))) file vs ≡ crlf ++ multipart w type file rs =
      subst (λ t. sent t file vs ≡ crlf ++ multipart w type file rs) same ih in
    ap (λ t. t ++ (part ++ sent (p ++ (q ++ (h ++ z))) file vs))
      (text_vec p q h z file dsbase len x y)
    ∙ append_assoc q h _
    ∙ ap (λ t. q ++ (h ++ (part ++ t))) ih'

-- The length that the loop adds up is that of what is sent.
data_vecs-length :
    (w : Wording) (type file : Bytes) (rs : List Range) (p q : Bytes) (dsbase len : ℕ)
    → AllWithin (length file) rs
    → len ≡ length q
    → (data_vecs (header_vecs w type (length file) rs (p ++ q) dsbase len).1 rs).1
      ≡ length (q ++ multipart w type file rs)
unfolding header_vecs append_trailer append_header data_vecs
data_vecs-length w type file [] p q dsbase len a y =
    omega (arith, y, length-append q (trailer w), length-append (p ++ q) (trailer w))
data_vecs-length w type file (r ∷ rs) p q dsbase len ((b, c), a) y =
    let h = range_header w type r (length file) in
    let part = take (r.end - r.start + 1) (drop r.start file) in
    let rest = crlf ++ multipart w type file rs in
    let n = length ((p ++ q) ++ h) - length (p ++ q) in
    let ih = data_vecs-length w type file rs ((p ++ q) ++ h) crlf (dsbase + (len + n)) 2 a refl in
    omega (
      arith,
      y,
      ih,
      b,
      c,
      length-append q (h ++ (part ++ rest)),
      length-append h (part ++ rest),
      length-append part rest,
      length-append (p ++ q) h,
      length-take (r.end - r.start + 1) (drop r.start file),
      length-drop r.start file,
    )

data_vecs-count :
    (w : Wording) (type : Bytes) (size : ℕ) (rs : List Range) (ds : Bytes) (dsbase len : ℕ)
    → length (data_vecs (header_vecs w type size rs ds dsbase len).1 rs).0 ≡ length rs * 2 + 1
unfolding header_vecs append_trailer append_header data_vecs
data_vecs-count w type size [] ds dsbase len = refl
data_vecs-count w type size (r ∷ rs) ds dsbase len =
    omega (arith, data_vecs-count w type size rs _ _ 2)

-- A header that gives two ranges or more is answered by buffers, one more than two for each range,
-- which send the multipart body: a header before the bytes of each range, and the trailer at the end.
-- The length that is announced is the length of that body.
pub ns_conn_parse_range-multipart :
    (w : Wording) (type : Bytes) (header : Option Bytes) (if_range : Option ℕ) (mtime : ℕ)
    (file : Bytes) (nbufs : ℕ) (r q : Range) (rs : List Range)
    → ns_match_range header if_range mtime ≡ true
    → parse_range_offsets header (length file) (nbufs / 2 - 1) ≡ some (r ∷ q ∷ rs)
    → (reply : Reply) × (ns_conn_parse_range w type header if_range mtime (length file) nbufs []
        ≡ some reply)
      × (sent reply.text file reply.bufs ≡ multipart w type file (r ∷ q ∷ rs))
      × (reply.response_length ≡ length (multipart w type file (r ∷ q ∷ rs)))
      × (length reply.bufs ≡ reply.range_count * 2 + 1)
unfolding ns_conn_parse_range
ns_conn_parse_range-multipart w type header if_range mtime file nbufs r q rs h p =
    let all = r ∷ q ∷ rs in
    let size = length file in
    let made = header_vecs w type size all [] 0 0 in
    let parts = data_vecs made.1 all in
    let fine : IsFine size (nbufs / 2 - 1) (some all) =
      subst (IsFine size (nbufs / 2 - 1)) p
        (parse_range_offsets-IsFine header size (nbufs / 2 - 1)) in
    (
      record { range_count = length all; bufs = parts.0; text = made.0; response_length = parts.1 },
      rw (ns_conn_parse_range, h, p) refl,
      subst (λ t. sent t file parts.0 ≡ multipart w type file all)
          (sym (header_vecs-text w type size all [] 0 0))
          (data_vecs-sent w type file all [] [] 0 0 refl refl),
      data_vecs-length w type file all [] [] 0 0 fine.0 refl,
      data_vecs-count w type size all [] 0 0,
    )
