-- ===== src/Tests/Counters.antt =====
-- The counters behind two calls that ran at once.
use chain_watch.Prelude.{◌≡◌, refl, ◌+◌, List, [], ◌∷◌, pos, arith}
use chain_watch.Domain.{u64}
use chain_watch.Observability.{
  http_requests, http_errors, http_duration_nanos, indexed_blocks, indexed_transfers, Add, one,
  Call, observe_http_request, record_indexed_block, adds, add_all, calls_in_turn, new_metrics,
  as_u64,
}
use chain_watch.Observability.Totals.{gained, lost, add_all-total}
use mathlib.Core.List.{Permᴰ}

abbrev calls : List Call
calls = record_indexed_block (pos 2) ∷ observe_http_request (pos 503) (pos 7) ∷ []

-- The request is counted between the two adds of the block.
abbrev order : List Add
order =
    one indexed_blocks
    ∷ one http_requests
    ∷ record { counter = indexed_transfers; amount = 2 }
    ∷ record { counter = http_duration_nanos; amount = 7 }
    ∷ one http_errors
    ∷ []

order-Perm : Permᴰ order (calls_in_turn calls)
unfolding calls_in_turn adds as_u64
order-Perm = Permᴰ.cons refl (Permᴰ.swap refl refl)

add_all-total_example :
    u64 (add_all order new_metrics http_requests + lost http_requests calls)
    ≡ u64 (0 + gained http_requests calls)
add_all-total_example =
    add_all-total calls order new_metrics http_requests order-Perm (omega arith)
      (tt, (omega arith, tt))
