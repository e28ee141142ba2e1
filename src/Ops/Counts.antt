-- ===== src/Ops/Counts.antt =====
-- nsd/op.c: a record is released when nothing refers to it any more, and once.
use anansi.Common.{
  ℕ, zero, suc, ◌+◌, ◌-◌, ◌<◌, ◌≤◌, ◌≡◌, inl, inr, refl, sym, ◌∙◌, Bool, ◌&&◌, none, some, List, [],
  ◌∷◌, ◌++◌, arith, ltb, ◌==◌, if◌then◌else◌, Bytes, length, get_or, remove_at, str_eq, update,
  Bool-cases, Option-cases,
}
use anansi.Ops.{
  Req, Server, free_req, find_entry, set_entry, delete_entry, new_req, register_proxy_request,
  unregister_proxy_request, hold_req, start_proxy_request, System, Step, register, unregister,
  start, finish, Reach, begin, next,
}

abbrev pub one_if : Bool → ℕ
one_if b = if b then 1 else 0

-- How often a record stands in a list.
abbrev pub times : ℕ → List ℕ → ℕ
times x [] = 0
times x (y ∷ ys) = one_if (x == y) + times x ys

-- How many entries of the table have a record.
abbrev pub entries : ℕ → List (Bytes × ℕ) → ℕ
entries x [] = 0
entries x ((k, r) ∷ es) = one_if (x == r) + entries x es

entries-set_entry :
    (x : ℕ) (key : Bytes) (v : ℕ) (es : List (Bytes × ℕ))
    → entries x (set_entry key v es)
        + (elim (find_entry key es) [ none ↦ 0 | some old ↦ one_if (x == old) ])
      ≡ entries x es + one_if (x == v)
unfolding set_entry find_entry
entries-set_entry x key v [] = ground arith
entries-set_entry x key v ((k, r) ∷ es) = elim (Bool-cases (str_eq key k)) [
  | inl e ↦ rw e (omega arith)
  | inr e ↦ let ih = entries-set_entry x key v es in rw e (omega (arith, ih))
]

entries-delete_entry :
    (x : ℕ) (key : Bytes) (old : ℕ) (es : List (Bytes × ℕ))
    → find_entry key es ≡ some old
    → entries x (delete_entry key es) + one_if (x == old) ≡ entries x es
unfolding delete_entry find_entry
entries-delete_entry x key old [] h = absurd (cc)
entries-delete_entry x key old ((k, r) ∷ es) h = ground (arith, entries-delete_entry x key old es)

entries-find_entry :
    (key : Bytes) (old : ℕ) (es : List (Bytes × ℕ))
    → find_entry key es ≡ some old
    → 0 < entries old es
unfolding find_entry
entries-find_entry key old [] h = absurd (cc)
entries-find_entry key old ((k, r) ∷ es) h = ground (arith, entries-find_entry key old es)

times-remove_at :
    (x i : ℕ) (ys : List ℕ)
    → i < length ys
    → times x (remove_at i ys) + one_if (x == get_or ys i 0) ≡ times x ys
times-remove_at x i [] h = absurd (omega arith)
times-remove_at x zero (y ∷ ys) h = omega arith
times-remove_at x (suc i) (y ∷ ys) h = omega (arith, times-remove_at x i ys (omega arith))

times-get_or : (i : ℕ) (ys : List ℕ) → i < length ys → 0 < times (get_or ys i 0) ys
times-get_or i [] h = absurd (omega arith)
times-get_or zero (y ∷ ys) h = ground arith
times-get_or (suc i) (y ∷ ys) h = omega (arith, times-get_or i ys (omega arith))

-- The records of a server with `h x` references to record `x`.
record IsCounted (s : Server) (h : ℕ → ℕ) : Type 0 where
  pub counted : (x : ℕ) → (s.reqs x).refcnt ≡ h x
  pub made : (x : ℕ) → s.nreqs ≤ x → h x ≡ 0
  pub released : (x : ℕ) → times x s.freed ≡ one_if (ltb x s.nreqs && (h x == 0))

-- What FreeReq leaves.
record IsFreed (s t : Server) (r : ℕ) : Type 0 where
  pub left :
      (x : ℕ) → (t.reqs x).refcnt ≡ (if x == r then (s.reqs r).refcnt - 1 else (s.reqs x).refcnt)
  pub same_nreqs : t.nreqs ≡ s.nreqs
  pub same_proxy : t.proxy ≡ s.proxy
  pub freed_more :
      (x : ℕ) → times x t.freed ≡ times x s.freed + one_if ((s.reqs r).refcnt == 1 && x == r)

refcnt-update :
    (f : ℕ → Req) (r : ℕ) (q : Req) (x : ℕ)
    → (update f r q x).refcnt ≡ (if x == r then q.refcnt else (f x).refcnt)
refcnt-update f r q x = elim (Bool-cases (x == r)) [ inl e ↦ rw e refl | inr e ↦ rw e refl ]

free_req-IsFreed : (s : Server) (r : ℕ) → IsFreed s (free_req s r) r
unfolding free_req
free_req-IsFreed s r =
    let q = s.reqs r in
    elim (Bool-cases (q.refcnt == 1)) [
      | inl e ↦
          rw (e, free_req)
            (record {
              left = refcnt-update s.reqs r (record q { refcnt = q.refcnt - 1 });
              same_nreqs = refl;
              same_proxy = refl;
              freed_more = λ x. ground (arith, e);
            })
      | inr e ↦
          rw (e, free_req)
            (record {
              left = refcnt-update s.reqs r (record q { refcnt = q.refcnt - 1 });
              same_nreqs = refl;
              same_proxy = refl;
              freed_more = λ x. ground (arith, e);
            })
    ]

free_req-IsCounted :
    (s t : Server) (r : ℕ) (g h : ℕ → ℕ)
    → IsFreed s t r
    → IsCounted s h
    → 0 < h r
    → ((x : ℕ) → g x + one_if (x == r) ≡ h x)
    → IsCounted t g
free_req-IsCounted s t r g h f c p same = record {
  counted = λ x. ground (arith, f.left x, c.counted x, c.counted r, same x);
  made = λ x l. ground (arith, f.same_nreqs, c.made x, same x);
  released = λ x.
      ground (arith, f.freed_more x, f.same_nreqs, c.released x, c.counted r, c.made x, same x);
}

new_req-IsCounted :
    (s : Server) (proc delete_callback arg : ℕ) (g h : ℕ → ℕ)
    → IsCounted s h
    → ((x : ℕ) → g x ≡ h x + one_if (x == s.nreqs))
    → IsCounted (new_req s proc delete_callback arg) g
unfolding new_req
new_req-IsCounted s proc delete_callback arg g h c same =
    let q : Req = record {
      refcnt = 1;
      proc = proc;
      delete_callback = delete_callback;
      arg = arg;
      flags = 0;
    } in
    record {
      counted = λ x.
          ground (arith, refcnt-update s.reqs s.nreqs q x, c.counted x, c.made s.nreqs, same x);
      made = λ x l. ground (arith, c.made x, same x);
      released = λ x. ground (arith, c.released x, c.made x, same x);
    }

hold_req-IsCounted :
    (s : Server) (r : ℕ) (g h : ℕ → ℕ)
    → IsCounted s h
    → 0 < h r
    → ((x : ℕ) → g x ≡ h x + one_if (x == r))
    → IsCounted (hold_req s r) g
unfolding hold_req
hold_req-IsCounted s r g h c p same =
    let q : Req = record (s.reqs r) { refcnt = (s.reqs r).refcnt + 1 } in
    record {
      counted = λ x. ground (arith, refcnt-update s.reqs r q x, c.counted x, c.counted r, same x);
      made = λ x l. ground (arith, c.made x, c.made r, same x, p);
      released = λ x. ground (arith, c.released x, c.made x, same x, p);
    }

IsCounted-refs : (s : Server) (h g : ℕ → ℕ) → IsCounted s h → ((x : ℕ) → g x ≡ h x) → IsCounted s g
IsCounted-refs s h g c same = record {
  counted = λ x. c.counted x ∙ sym (same x);
  made = λ x l. same x ∙ c.made x l;
  released = λ x. ground (arith, c.released x, same x);
}

-- All references of a system: the entries of the table and the runs.
abbrev pub references : System → ℕ → ℕ
references s x = entries x s.server.proxy + times x s.runs

-- The table itself does not matter to the memory.
IsCounted-proxy :
    (s : Server) (es : List (Bytes × ℕ)) (h : ℕ → ℕ)
    → IsCounted s h
    → IsCounted (record s { proxy = es }) h
IsCounted-proxy s es h c = record { counted = c.counted; made = c.made; released = c.released }

module _ (s : Server) (runs : List ℕ) (method protocol : Bytes)
    (c : IsCounted s (references (record { server = s; runs = runs }))) where
  register-IsCounted :
      (proc delete_callback arg : ℕ)
      → let t = register_proxy_request s method protocol proc delete_callback arg in
        IsCounted t (references (record { server = t; runs = runs }))
  unfolding register_proxy_request
  register-IsCounted proc delete_callback arg =
      let key = method ++ protocol in
      let es = set_entry key s.nreqs s.proxy in
      let t = new_req s proc delete_callback arg in
      let h : ℕ → ℕ = λ x. entries x s.proxy + times x runs + one_if (x == s.nreqs) in
      let d =
        new_req-IsCounted s proc delete_callback arg h
          (references (record { server = s; runs = runs })) c (λ x. refl) in
      elim (Option-cases (find_entry key s.proxy)) [
        | inl e ↦
            rw (e, register_proxy_request)
              (IsCounted-proxy t es (λ x. entries x es + times x runs)
                (IsCounted-refs t h (λ x. entries x es + times x runs) d
                  (λ x. ground (arith, entries-set_entry x key s.nreqs s.proxy, e))))
        | inr (old, e) ↦
            rw (e, register_proxy_request)
              (IsCounted-proxy (free_req t old) es (λ x. entries x es + times x runs)
                (free_req-IsCounted t (free_req t old) old (λ x. entries x es + times x runs) h
                  (free_req-IsFreed t old) d (ground (arith, entries-find_entry key old s.proxy e))
                  (λ x. ground (arith, entries-set_entry x key s.nreqs s.proxy, e))))
      ]

  unregister-IsCounted :
      let t = unregister_proxy_request s method protocol in
      IsCounted t (references (record { server = t; runs = runs }))
  unfolding unregister_proxy_request
  unregister-IsCounted =
      let key = method ++ protocol in
      elim (Option-cases (find_entry key s.proxy)) [
        | inl e ↦ rw (e, unregister_proxy_request) c
        | inr (old, e) ↦
            let es = delete_entry key s.proxy in
            rw (e, unregister_proxy_request)
              (IsCounted-proxy (free_req s old) es (λ x. entries x es + times x runs)
                (free_req-IsCounted s (free_req s old) old (λ x. entries x es + times x runs)
                  (references (record { server = s; runs = runs })) (free_req-IsFreed s old) c
                  (ground (arith, entries-find_entry key old s.proxy e))
                  (λ x. ground (arith, entries-delete_entry x key old s.proxy e))))
      ]

  start-IsCounted :
      (r : ℕ)
      → find_entry (method ++ protocol) s.proxy ≡ some r
      → let t = (start_proxy_request s method protocol).1 in
        IsCounted t (references (record { server = t; runs = r ∷ runs }))
  unfolding start_proxy_request hold_req
  start-IsCounted r e =
      rw (e, start_proxy_request)
        (hold_req-IsCounted s r (λ x. entries x s.proxy + (one_if (x == r) + times x runs))
          (references (record { server = s; runs = runs })) c
          (ground (arith, entries-find_entry (method ++ protocol) r s.proxy e)) (λ x. omega arith))

finish-IsCounted :
    (s : Server) (runs : List ℕ) (i : ℕ)
    → i < length runs
    → IsCounted s (references (record { server = s; runs = runs }))
    → let t = free_req s (get_or runs i 0) in
      IsCounted t (references (record { server = t; runs = remove_at i runs }))
finish-IsCounted s runs i l c =
    let r = get_or runs i 0 in
    let f = free_req-IsFreed s r in
    free_req-IsCounted s (free_req s r) r
      (references (record { server = free_req s r; runs = remove_at i runs }))
      (references (record { server = s; runs = runs })) f c (omega (arith, times-get_or i runs l))
      (λ x. ground (arith, times-remove_at x i runs l, f.same_proxy))

abbrev IsSafe : System → Type 0
IsSafe s = IsCounted s.server (references s)

Step-IsSafe : {s t : System} → Step s t → IsSafe s → IsSafe t
Step-IsSafe {s} (register method protocol proc d arg) c =
    register-IsCounted s.server s.runs method protocol c proc d arg
Step-IsSafe {s} (unregister method protocol) c =
    unregister-IsCounted s.server s.runs method protocol c
Step-IsSafe {s} (start method protocol r e) c =
    start-IsCounted s.server s.runs method protocol c r e
Step-IsSafe {s} (finish i l) c = finish-IsCounted s.server s.runs i l c

Reach-IsSafe : {s : System} → Reach s → IsSafe s
Reach-IsSafe begin = record {
  counted = λ x. refl;
  made = λ x l. refl;
  released = λ x. ground arith;
}
Reach-IsSafe (next reach step) = Step-IsSafe step (Reach-IsSafe reach)

-- In whatever order threads register, remove and run proxy requests: a record that was allocated has
-- been released once if the table and the threads that run it do not refer to it, and else never;
-- its count is the number of these references.
pub Reach-released :
    {s : System}
    → Reach s
    → (r : ℕ)
    → ((s.server.reqs r).refcnt ≡ references s r)
      × (times r s.server.freed ≡ one_if (ltb r s.server.nreqs && (references s r == 0)))
Reach-released reach r = let c = Reach-IsSafe reach in (c.counted r, c.released r)
