-- ===== src/Queue/Tests.antt =====
-- The queue on a concrete stream.
use aos_operator.Shared.{◌≡◌, refl, true, false, List, [], ◌∷◌}
use aos_operator.Shared.Text.{codes}
use aos_operator.Queue.Fifo.{Fifo, Call, produced, consumed, acknowledged_id, calls}
use aos_operator.Queue.Refinement.{Holds, queue_calls, queue_calls_refine}
use aos_operator.Queue.Instance.{toy_redis, toy_canonical, ToyStream}
use aos_operator.Queue.{ms_id}

abbrev empty_stream : ToyStream
empty_stream = (0, [])

abbrev empty_fifo : Fifo
empty_fifo = record { latest = 0; waiting = [] }

-- Two jobs, one of them twice in a millisecond; the first one is read, removed
-- after a malformed id was refused, and the next read.
abbrev used : List Call
used =
    produced true 17 (codes "a")
    ∷ produced true 17 (codes "b")
    ∷ produced true 18 (codes "c")
    ∷ consumed true
    ∷ consumed false
    ∷ acknowledged_id true (codes "first")
    ∷ acknowledged_id true (ms_id 17)
    ∷ consumed true
    ∷ []

queue_calls_refine_example :
    ((queue_calls toy_redis used empty_stream).0 ≡ (calls toy_canonical used empty_fifo).0)
    × Holds toy_redis
        (queue_calls toy_redis used empty_stream).1
        (calls toy_canonical used empty_fifo).1
queue_calls_refine_example = queue_calls_refine toy_redis used empty_stream empty_fifo (refl, refl)
