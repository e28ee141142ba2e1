-- ===== src/Tests/Runs.antt =====
-- nsd/op.c: a proxy request that is removed while a thread runs it.
use anansi.Common.{◌≡◌, refl, ◌&&◌, ltb, ◌==◌, [], ◌∷◌, Bytes, str_eq}
use anansi.Ops
use anansi.Ops.{
  Server, System, register_proxy_request, unregister_proxy_request, start_proxy_request, free_req,
  Reach, Step, begin, next, empty,
}
use anansi.Ops.Counts.{one_if, times, references, Reach-released}

abbrev get : Bytes
get = b'G' ∷ []

abbrev ftp : Bytes
ftp = b'f' ∷ []

abbrev registered : Server
registered = register_proxy_request empty get ftp 5 6 7

abbrev running : Server
running = (start_proxy_request registered get ftp).1

abbrev removed : Server
removed = unregister_proxy_request running get ftp

program : Unit {0}
unfolding free_req Ops.find_entry Ops.set_entry Ops.delete_entry Ops.new_req Ops.hold_req str_eq
    register_proxy_request unregister_proxy_request start_proxy_request
program = tt

kept_while_running : removed.freed ≡ []
unfolding program
kept_while_running = refl

freed_afterwards : (free_req removed 0).deleted ≡ (6, 7) ∷ []
unfolding program
freed_afterwards = refl

removed-reach : Reach (record { server = removed; runs = 0 ∷ [] })
unfolding program
removed-reach =
    next (next (next begin (Step.register get ftp 5 6 7)) (Step.start get ftp 0 refl))
      (Step.unregister get ftp)

Reach-released_example :
    ((removed.reqs 0).refcnt ≡ references (record { server = removed; runs = 0 ∷ [] }) 0)
    × (times 0 removed.freed
        ≡ one_if (
            ltb 0 removed.nreqs
            && (references (record { server = removed; runs = 0 ∷ [] }) 0 == 0)))
Reach-released_example = Reach-released removed-reach 0
