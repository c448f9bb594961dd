-- ===== src/Tests/Errors.antt =====
-- Classified errors at concrete inputs.
use chain_watch.Prelude.{◌≡◌, refl, ◌||◌, ◌==◌}
use chain_watch.Errors.{GoError, sentinel, indexing, chain_reorg, is, classify_error, sentinel_eq}
use chain_watch.Errors.Classify.{is-classify_error}

abbrev reorg_error : GoError
reorg_error = sentinel chain_reorg

is-classify_error_example :
    is (classify_error reorg_error indexing "index block range") chain_reorg
    ≡ (indexing == chain_reorg || is reorg_error chain_reorg)
is-classify_error_example =
    is-classify_error reorg_error indexing chain_reorg "index block range" refl
