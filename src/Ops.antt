-- ===== src/Ops.antt =====
-- nsd/op.c: request procedures. Their records lie in a memory and are counted references of the
-- table of proxy requests and of the threads that run them; all is done under one lock, but for the
-- runs themselves. Procedures, callbacks and arguments are numbers for the pointers, 0 for NULL.
pub mod Counts
use anansi.Common.{
  ℕ, zero, suc, ◌+◌, ◌-◌, ◌<◌, ◌≡◌, Bool, Option, none, some, List, [], ◌∷◌, ◌++◌, ◌==◌,
  if◌then◌else◌, Bytes, length, get_or, remove_at, str_eq, update,
}

pub record Req : Type 0 where
  pub refcnt : ℕ
  pub proc : ℕ
  pub delete_callback : ℕ
  pub arg : ℕ
  pub flags : ℕ

-- The memory: the records that were allocated so far are those below `nreqs`. `freed` has those that
-- were released, `deleted` the calls of delete callbacks with their arguments, both the last first.
pub record Server : Type 0 where
  pub reqs : ℕ → Req
  pub nreqs : ℕ
  pub proxy : List (Bytes × ℕ)
  pub freed : List ℕ
  pub deleted : List (ℕ × ℕ)

-- FreeReq
unfoldable pub free_req : Server → ℕ → Server
free_req s r =
    let q = s.reqs r in
    let t = record s { reqs = update s.reqs r (record q { refcnt = q.refcnt - 1 }) } in
    if q.refcnt == 1
    then record t {
      freed = r ∷ s.freed;
      deleted =
          if q.delete_callback == 0 then s.deleted else (q.delete_callback, q.arg) ∷ s.deleted;
    }
    else t

-- Tcl_FindHashEntry, Tcl_SetHashValue of what Tcl_CreateHashEntry returns, Tcl_DeleteHashEntry
unfoldable pub find_entry : Bytes → List (Bytes × ℕ) → Option ℕ
find_entry key [] = none
find_entry key ((k, r) ∷ es) = if str_eq key k then some r else find_entry key es

unfoldable pub set_entry : Bytes → ℕ → List (Bytes × ℕ) → List (Bytes × ℕ)
set_entry key v [] = (key, v) ∷ []
set_entry key v ((k, r) ∷ es) =
    let rest = set_entry key v es in if str_eq key k then (k, v) ∷ es else (k, r) ∷ rest

unfoldable pub delete_entry : Bytes → List (Bytes × ℕ) → List (Bytes × ℕ)
delete_entry key [] = []
delete_entry key ((k, r) ∷ es) =
    let rest = delete_entry key es in if str_eq key k then es else (k, r) ∷ rest

-- The record that Ns_RegisterProxyRequest allocates.
unfoldable pub new_req : Server → ℕ → ℕ → ℕ → Server
new_req s proc delete_callback arg = record s {
  reqs =
      update s.reqs s.nreqs (record {
        refcnt = 1;
        proc = proc;
        delete_callback = delete_callback;
        arg = arg;
        flags = 0;
      });
  nreqs = suc s.nreqs;
}

-- Ns_RegisterProxyRequest
unfoldable pub register_proxy_request : Server → Bytes → Bytes → ℕ → ℕ → ℕ → Server
register_proxy_request s method protocol proc delete_callback arg =
    let key = method ++ protocol in
    let t = new_req s proc delete_callback arg in
    let u : Server = elim (find_entry key s.proxy) [ none ↦ t | some old ↦ free_req t old ] in
    record u { proxy = set_entry key s.nreqs s.proxy }

-- Ns_UnRegisterProxyRequest
unfoldable pub unregister_proxy_request : Server → Bytes → Bytes → Server
unregister_proxy_request s method protocol =
    let key = method ++ protocol in
    elim (find_entry key s.proxy) [
      | none ↦ s
      | some old ↦ record (free_req s old) { proxy = delete_entry key s.proxy }
    ]

-- `++reqPtr->refcnt`
unfoldable pub hold_req : Server → ℕ → Server
hold_req s r = record s {
  reqs = update s.reqs r (record (s.reqs r) { refcnt = (s.reqs r).refcnt + 1 });
}

-- NsConnRunProxyRequest up to the call of the procedure: the record that it runs, if there is one;
-- if not it answers that the page is not found. After the call it does free_req.
unfoldable pub start_proxy_request : Server → Bytes → Bytes → Option ℕ × Server
start_proxy_request s method protocol = elim (find_entry (method ++ protocol) s.proxy) [
  | none ↦ (none, s)
  | some r ↦ (some r, hold_req s r)
]

-- A server and the records whose procedures threads are running.
pub record System : Type 0 where
  pub server : Server
  pub runs : List ℕ

-- What the threads do under the lock.
pub data Step (s : System) : System → Type 0 where
  register :
      (method protocol : Bytes) (proc delete_callback arg : ℕ)
      → Step s (record s {
        server = register_proxy_request s.server method protocol proc delete_callback arg;
      })
  unregister :
      (method protocol : Bytes)
      → Step s (record s { server = unregister_proxy_request s.server method protocol })
  start :
      (method protocol : Bytes) (r : ℕ)
      → find_entry (method ++ protocol) s.server.proxy ≡ some r
      → Step s
          (record { server = (start_proxy_request s.server method protocol).1; runs = r ∷ s.runs })
  finish :
      (i : ℕ)
      → i < length s.runs
      → Step s
          (record { server = free_req s.server (get_or s.runs i 0); runs = remove_at i s.runs })

abbrev pub no_req : Req
no_req = record { refcnt = 0; proc = 0; delete_callback = 0; arg = 0; flags = 0 }

abbrev pub empty : Server
empty = record { reqs = λ r. no_req; nreqs = 0; proxy = []; freed = []; deleted = [] }

pub data Reach : System → Type 0 where
  begin : Reach (record { server = empty; runs = [] })
  next : {s t : System} → Reach s → Step s t → Reach t
